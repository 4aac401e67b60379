-- ===== src/Shell/Run/Ends.antt =====
-- What the commands of kernel/shell.c return: whether it is negative, for each of them.
use vaelen.Prelude.{
  ℕ, Bool, true, false, ◌≡◌, refl, if◌then◌else◌, List, [], ◌∷◌, Option, some, none,
}
use vaelen.Prelude.Int.{pos, ltb_ℤ}
use vaelen.Prelude.Text.{bytes}
use vaelen.Mm.Frames.{Frames}
use vaelen.Shell.Calls.{Outcome, Args, equal}
use vaelen.Shell.Table.{Command, Entry, commands}
use vaelen.Shell.Dispatch.{History, call}
use vaelen.Shell.Basic.{
  cmd_help, cmd_clear, cmd_echo, cmd_ls, cmd_cd, cmd_mkdir, cmd_rm, cmd_cat, cmd_touch, cmd_cp,
  cmd_mv, cmd_pwd, cmd_whoami, cmd_uname, cmd_date, cmd_ps, cmd_kill, cmd_df, cmd_mount, cmd_umount,
  cmd_reboot, cmd_shutdown, help_on, find_entry,
}
use vaelen.Shell.Stubs.{
  cmd_aptget, cmd_dpkg, cmd_systemctl, cmd_man, cmd_hostname, cmd_ifconfig, cmd_ping, cmd_wget,
  cmd_curl, cmd_ssh, cmd_useradd, cmd_passwd, cmd_su, cmd_chmod, cmd_chown, cmd_tar, cmd_gzip,
  cmd_find, cmd_grep, cmd_wc, cmd_head, cmd_tail, cmd_sort, cmd_uniq, cmd_diff, cmd_ln, cmd_which,
  cmd_whereis, cmd_env, cmd_export, cmd_source, cmd_alias, cmd_unalias, cmd_type_cmd, cmd_exit,
  cmd_sleep_cmd, cmd_true_cmd, cmd_false_cmd, install, is_listed,
}
use vaelen.Shell.Dispatch.{cmd_free, cmd_history_cmd}

abbrev pub ends : Outcome → Bool
ends r = ltb_ℤ r.0 (pos 0)

abbrev pub is_exit : Command → Bool
is_exit Command.cmd_exit = true
is_exit _ = false

ends-if :
    (b : Bool) (r s : Outcome) → ends r ≡ false → ends s ≡ false → ends (if b then r else s) ≡ false
ends-if true r s first second = first
ends-if false r s first second = second

ends-help_on : (name : List ℕ) (found : Option Entry) → ends (help_on name found) ≡ false
unfolding help_on
ends-help_on name none = refl
ends-help_on name (some e) = refl

ends-install : (args : Args) → ends (install args) ≡ false
unfolding install
ends-install [] = refl
ends-install (a ∷ rest) = refl

ends-cmd_uname : (args : Args) → ends (cmd_uname args) ≡ false
unfolding cmd_uname
ends-cmd_uname [] = refl
ends-cmd_uname (a ∷ []) = refl
ends-cmd_uname (a ∷ b ∷ rest) =
    ends-if (equal b (bytes "-a")) _ _ refl (ends-if (equal b (bytes "-r")) _ _ refl refl)

ends-cmd_aptget : (args : Args) → ends (cmd_aptget args) ≡ false
unfolding cmd_aptget
ends-cmd_aptget [] = refl
ends-cmd_aptget (a ∷ []) = refl
ends-cmd_aptget (a ∷ b ∷ rest) = ends-if (equal b (bytes "update")) _ _ refl (
    ends-if (equal b (bytes "install")) _ _ (ends-install rest) (
      ends-if (equal b (bytes "remove")) _ _ refl (
        ends-if (equal b (bytes "upgrade")) _ _ refl
          (ends-if (equal b (bytes "search")) _ _ refl refl))))

ends-cmd_which : (args : Args) → ends (cmd_which args) ≡ false
unfolding cmd_which
ends-cmd_which [] = refl
ends-cmd_which (a ∷ []) = refl
ends-cmd_which (a ∷ b ∷ rest) = ends-if (is_listed b commands) _ _ refl refl

ends-cmd_help : (args : Args) → ends (cmd_help args) ≡ false
unfolding cmd_help
ends-cmd_help [] = refl
ends-cmd_help (a ∷ []) = refl
ends-cmd_help (a ∷ b ∷ rest) = ends-help_on b (find_entry b commands)

pub ends-call :
    (c : Command) (frames : Frames) (h : History) (args : Args)
    → ends (call c frames h args) ≡ is_exit c
unfolding call cmd_clear cmd_echo cmd_ls cmd_cd cmd_mkdir cmd_rm cmd_cat cmd_touch cmd_cp cmd_mv
    cmd_pwd cmd_whoami cmd_date cmd_ps cmd_kill cmd_free cmd_df cmd_mount cmd_umount cmd_reboot
    cmd_shutdown cmd_dpkg cmd_systemctl cmd_man cmd_history_cmd cmd_hostname cmd_ifconfig cmd_ping
    cmd_wget cmd_curl cmd_ssh cmd_useradd cmd_passwd cmd_su cmd_chmod cmd_chown cmd_tar cmd_gzip
    cmd_find cmd_grep cmd_wc cmd_head cmd_tail cmd_sort cmd_uniq cmd_diff cmd_ln cmd_whereis cmd_env
    cmd_export cmd_source cmd_alias cmd_unalias cmd_type_cmd cmd_exit cmd_sleep_cmd cmd_true_cmd
    cmd_false_cmd
ends-call Command.cmd_help frames h args = ends-cmd_help args
ends-call Command.cmd_clear frames h args = refl
ends-call Command.cmd_echo frames h args = refl
ends-call Command.cmd_ls frames h args = refl
ends-call Command.cmd_cd frames h args = refl
ends-call Command.cmd_mkdir frames h [] = refl
ends-call Command.cmd_mkdir frames h (a ∷ []) = refl
ends-call Command.cmd_mkdir frames h (a ∷ b ∷ rest) = refl
ends-call Command.cmd_rm frames h [] = refl
ends-call Command.cmd_rm frames h (a ∷ []) = refl
ends-call Command.cmd_rm frames h (a ∷ b ∷ rest) = refl
ends-call Command.cmd_cat frames h [] = refl
ends-call Command.cmd_cat frames h (a ∷ []) = refl
ends-call Command.cmd_cat frames h (a ∷ b ∷ rest) = refl
ends-call Command.cmd_touch frames h [] = refl
ends-call Command.cmd_touch frames h (a ∷ []) = refl
ends-call Command.cmd_touch frames h (a ∷ b ∷ rest) = refl
ends-call Command.cmd_cp frames h [] = refl
ends-call Command.cmd_cp frames h (a ∷ []) = refl
ends-call Command.cmd_cp frames h (a ∷ b ∷ []) = refl
ends-call Command.cmd_cp frames h (a ∷ b ∷ d ∷ rest) = refl
ends-call Command.cmd_mv frames h [] = refl
ends-call Command.cmd_mv frames h (a ∷ []) = refl
ends-call Command.cmd_mv frames h (a ∷ b ∷ []) = refl
ends-call Command.cmd_mv frames h (a ∷ b ∷ d ∷ rest) = refl
ends-call Command.cmd_pwd frames h args = refl
ends-call Command.cmd_whoami frames h args = refl
ends-call Command.cmd_uname frames h args = ends-cmd_uname args
ends-call Command.cmd_date frames h args = refl
ends-call Command.cmd_ps frames h args = refl
ends-call Command.cmd_kill frames h [] = refl
ends-call Command.cmd_kill frames h (a ∷ []) = refl
ends-call Command.cmd_kill frames h (a ∷ b ∷ rest) = refl
ends-call Command.cmd_free frames h args = refl
ends-call Command.cmd_df frames h args = refl
ends-call Command.cmd_mount frames h args = refl
ends-call Command.cmd_umount frames h args = refl
ends-call Command.cmd_reboot frames h args = refl
ends-call Command.cmd_shutdown frames h args = refl
ends-call Command.cmd_aptget frames h args = ends-cmd_aptget args
ends-call Command.cmd_dpkg frames h args = refl
ends-call Command.cmd_systemctl frames h args = refl
ends-call Command.cmd_man frames h [] = refl
ends-call Command.cmd_man frames h (a ∷ []) = refl
ends-call Command.cmd_man frames h (a ∷ b ∷ rest) = refl
ends-call Command.cmd_history_cmd frames h args = refl
ends-call Command.cmd_hostname frames h args = refl
ends-call Command.cmd_ifconfig frames h args = refl
ends-call Command.cmd_ping frames h args = refl
ends-call Command.cmd_wget frames h args = refl
ends-call Command.cmd_curl frames h args = refl
ends-call Command.cmd_ssh frames h args = refl
ends-call Command.cmd_useradd frames h args = refl
ends-call Command.cmd_passwd frames h args = refl
ends-call Command.cmd_su frames h args = refl
ends-call Command.cmd_chmod frames h args = refl
ends-call Command.cmd_chown frames h args = refl
ends-call Command.cmd_tar frames h args = refl
ends-call Command.cmd_gzip frames h args = refl
ends-call Command.cmd_find frames h args = refl
ends-call Command.cmd_grep frames h args = refl
ends-call Command.cmd_wc frames h args = refl
ends-call Command.cmd_head frames h args = refl
ends-call Command.cmd_tail frames h args = refl
ends-call Command.cmd_sort frames h args = refl
ends-call Command.cmd_uniq frames h args = refl
ends-call Command.cmd_diff frames h args = refl
ends-call Command.cmd_ln frames h args = refl
ends-call Command.cmd_which frames h args = ends-cmd_which args
ends-call Command.cmd_whereis frames h args = refl
ends-call Command.cmd_env frames h args = refl
ends-call Command.cmd_export frames h args = refl
ends-call Command.cmd_source frames h args = refl
ends-call Command.cmd_alias frames h args = refl
ends-call Command.cmd_unalias frames h args = refl
ends-call Command.cmd_type_cmd frames h args = refl
ends-call Command.cmd_exit frames h args = refl
ends-call Command.cmd_sleep_cmd frames h [] = refl
ends-call Command.cmd_sleep_cmd frames h (a ∷ []) = refl
ends-call Command.cmd_sleep_cmd frames h (a ∷ b ∷ rest) = refl
ends-call Command.cmd_true_cmd frames h args = refl
ends-call Command.cmd_false_cmd frames h args = refl
