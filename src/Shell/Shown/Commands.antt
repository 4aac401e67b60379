-- ===== src/Shell/Shown/Commands.antt =====
-- That every call of `printf` by a command of kernel/shell.c gives the arguments its format takes.
use vaelen.Prelude.{
  ℕ, zero, suc, Bool, true, false, ◌≡◌, refl, if◌then◌else◌, List, [], ◌∷◌, Option, some, none,
}
use vaelen.Prelude.{◌+◌, ◌≤◌, ◌<◌, ◌^◌, arith}
use vaelen.Prelude.Text.{bytes}
use vaelen.Mm.Frames.{Frames, get_total_memory, get_used_memory, get_free_memory}
use vaelen.Shell.Calls.{Outcome, Args, equal}
use vaelen.Shell.Table.{Command, Entry, commands}
use vaelen.Shell.Dispatch.{History, call}
use vaelen.Shell.Basic.{
  cmd_help, cmd_clear, cmd_echo, cmd_ls, cmd_cd, cmd_mkdir, cmd_rm, cmd_cat, cmd_touch, cmd_cp,
  cmd_mv, cmd_pwd, cmd_whoami, cmd_uname, cmd_date, cmd_ps, cmd_kill, cmd_df, cmd_mount, cmd_umount,
  cmd_reboot, cmd_shutdown, help_on, find_entry,
}
use vaelen.Shell.Stubs.{
  cmd_aptget, cmd_dpkg, cmd_systemctl, cmd_man, cmd_hostname, cmd_ifconfig, cmd_ping, cmd_wget,
  cmd_curl, cmd_ssh, cmd_useradd, cmd_passwd, cmd_su, cmd_chmod, cmd_chown, cmd_tar, cmd_gzip,
  cmd_find, cmd_grep, cmd_wc, cmd_head, cmd_tail, cmd_sort, cmd_uniq, cmd_diff, cmd_ln, cmd_which,
  cmd_whereis, cmd_env, cmd_export, cmd_source, cmd_alias, cmd_unalias, cmd_type_cmd, cmd_exit,
  cmd_sleep_cmd, cmd_true_cmd, cmd_false_cmd, install, is_listed,
}
use vaelen.Shell.Dispatch.{cmd_free, cmd_history_cmd}
use vaelen.Shell.Shown.{all_typed}
use vaelen.Shell.Basic.{echo_from}
use vaelen.Shell.Dispatch.{history_from, max_history}
use Prim.Native.Nat.{min}

abbrev pub types : Outcome → Bool
types r = all_typed r.1

pub types-if :
    (b : Bool) (r s : Outcome) → types r ≡ true → types s ≡ true → types (if b then r else s) ≡ true
types-if true r s first second = first
types-if false r s first second = second

types-help_on : (name : List ℕ) (found : Option Entry) → types (help_on name found) ≡ true
unfolding help_on
types-help_on name none = refl
types-help_on name (some e) = refl

types-install : (args : Args) → types (install args) ≡ true
unfolding install
types-install [] = refl
types-install (a ∷ rest) = refl

types-cmd_uname : (args : Args) → types (cmd_uname args) ≡ true
unfolding cmd_uname
types-cmd_uname [] = refl
types-cmd_uname (a ∷ []) = refl
types-cmd_uname (a ∷ b ∷ rest) =
    types-if (equal b (bytes "-a")) _ _ refl (types-if (equal b (bytes "-r")) _ _ refl refl)

types-cmd_aptget : (args : Args) → types (cmd_aptget args) ≡ true
unfolding cmd_aptget
types-cmd_aptget [] = refl
types-cmd_aptget (a ∷ []) = refl
types-cmd_aptget (a ∷ b ∷ rest) = types-if (equal b (bytes "update")) _ _ refl (
    types-if (equal b (bytes "install")) _ _ (types-install rest) (
      types-if (equal b (bytes "remove")) _ _ refl (
        types-if (equal b (bytes "upgrade")) _ _ refl
          (types-if (equal b (bytes "search")) _ _ refl refl))))

types-cmd_which : (args : Args) → types (cmd_which args) ≡ true
unfolding cmd_which
types-cmd_which [] = refl
types-cmd_which (a ∷ []) = refl
types-cmd_which (a ∷ b ∷ rest) = types-if (is_listed b commands) _ _ refl refl

types-cmd_help : (args : Args) → types (cmd_help args) ≡ true
unfolding cmd_help
types-cmd_help [] = refl
types-cmd_help (a ∷ []) = refl
types-cmd_help (a ∷ b ∷ rest) = types-help_on b (find_entry b commands)

types-echo_from : (args : Args) → all_typed (echo_from args) ≡ true
unfolding echo_from
types-echo_from [] = refl
types-echo_from (a ∷ []) = refl
types-echo_from (a ∷ b ∷ rest) = types-echo_from (b ∷ rest)

types-cmd_echo : (args : Args) → types (cmd_echo args) ≡ true
unfolding cmd_echo
types-cmd_echo [] = types-echo_from []
types-cmd_echo (a ∷ rest) = types-echo_from rest

types-cmd_free :
    (frames : Frames) (args : Args)
    → frames.total_memory < 2 ^ 32
    → types (cmd_free frames args) ≡ true
unfolding cmd_free get_total_memory get_used_memory get_free_memory
types-cmd_free frames args word_size = ground arith

types-history_from : (h : History) (i n : ℕ) → i + n ≤ 50 → all_typed (history_from h i n) ≡ true
unfolding history_from
types-history_from h i zero small = refl
types-history_from h i (suc n) small = ground (arith, types-history_from h (i + 1) n (omega arith))

types-cmd_history_cmd : (h : History) (args : Args) → types (cmd_history_cmd h args) ≡ true
unfolding cmd_history_cmd
types-cmd_history_cmd h args = types-history_from h 0 (min h.hist_count max_history) (ground arith)

pub types-call :
    (c : Command) (frames : Frames) (h : History) (args : Args)
    → frames.total_memory < 2 ^ 32
    → types (call c frames h args) ≡ true
unfolding call cmd_clear cmd_ls cmd_cd cmd_mkdir cmd_rm cmd_cat cmd_touch cmd_cp cmd_mv cmd_pwd
    cmd_whoami cmd_date cmd_ps cmd_kill cmd_df cmd_mount cmd_umount cmd_reboot cmd_shutdown cmd_dpkg
    cmd_systemctl cmd_man cmd_hostname cmd_ifconfig cmd_ping cmd_wget cmd_curl cmd_ssh cmd_useradd
    cmd_passwd cmd_su cmd_chmod cmd_chown cmd_tar cmd_gzip cmd_find cmd_grep cmd_wc cmd_head
    cmd_tail cmd_sort cmd_uniq cmd_diff cmd_ln cmd_whereis cmd_env cmd_export cmd_source cmd_alias
    cmd_unalias cmd_type_cmd cmd_exit cmd_sleep_cmd cmd_true_cmd cmd_false_cmd
types-call Command.cmd_help frames h args word_size = types-cmd_help args
types-call Command.cmd_clear frames h args word_size = refl
types-call Command.cmd_echo frames h args word_size = types-cmd_echo args
types-call Command.cmd_ls frames h args word_size = refl
types-call Command.cmd_cd frames h args word_size = refl
types-call Command.cmd_mkdir frames h [] word_size = refl
types-call Command.cmd_mkdir frames h (a ∷ []) word_size = refl
types-call Command.cmd_mkdir frames h (a ∷ b ∷ rest) word_size = refl
types-call Command.cmd_rm frames h [] word_size = refl
types-call Command.cmd_rm frames h (a ∷ []) word_size = refl
types-call Command.cmd_rm frames h (a ∷ b ∷ rest) word_size = refl
types-call Command.cmd_cat frames h [] word_size = refl
types-call Command.cmd_cat frames h (a ∷ []) word_size = refl
types-call Command.cmd_cat frames h (a ∷ b ∷ rest) word_size = refl
types-call Command.cmd_touch frames h [] word_size = refl
types-call Command.cmd_touch frames h (a ∷ []) word_size = refl
types-call Command.cmd_touch frames h (a ∷ b ∷ rest) word_size = refl
types-call Command.cmd_cp frames h [] word_size = refl
types-call Command.cmd_cp frames h (a ∷ []) word_size = refl
types-call Command.cmd_cp frames h (a ∷ b ∷ []) word_size = refl
types-call Command.cmd_cp frames h (a ∷ b ∷ d ∷ rest) word_size = refl
types-call Command.cmd_mv frames h [] word_size = refl
types-call Command.cmd_mv frames h (a ∷ []) word_size = refl
types-call Command.cmd_mv frames h (a ∷ b ∷ []) word_size = refl
types-call Command.cmd_mv frames h (a ∷ b ∷ d ∷ rest) word_size = refl
types-call Command.cmd_pwd frames h args word_size = refl
types-call Command.cmd_whoami frames h args word_size = refl
types-call Command.cmd_uname frames h args word_size = types-cmd_uname args
types-call Command.cmd_date frames h args word_size = refl
types-call Command.cmd_ps frames h args word_size = refl
types-call Command.cmd_kill frames h [] word_size = refl
types-call Command.cmd_kill frames h (a ∷ []) word_size = refl
types-call Command.cmd_kill frames h (a ∷ b ∷ rest) word_size = refl
types-call Command.cmd_free frames h args word_size = types-cmd_free frames args word_size
types-call Command.cmd_df frames h args word_size = refl
types-call Command.cmd_mount frames h args word_size = refl
types-call Command.cmd_umount frames h args word_size = refl
types-call Command.cmd_reboot frames h args word_size = refl
types-call Command.cmd_shutdown frames h args word_size = refl
types-call Command.cmd_aptget frames h args word_size = types-cmd_aptget args
types-call Command.cmd_dpkg frames h args word_size = refl
types-call Command.cmd_systemctl frames h args word_size = refl
types-call Command.cmd_man frames h [] word_size = refl
types-call Command.cmd_man frames h (a ∷ []) word_size = refl
types-call Command.cmd_man frames h (a ∷ b ∷ rest) word_size = refl
types-call Command.cmd_history_cmd frames h args word_size = types-cmd_history_cmd h args
types-call Command.cmd_hostname frames h args word_size = refl
types-call Command.cmd_ifconfig frames h args word_size = refl
types-call Command.cmd_ping frames h args word_size = refl
types-call Command.cmd_wget frames h args word_size = refl
types-call Command.cmd_curl frames h args word_size = refl
types-call Command.cmd_ssh frames h args word_size = refl
types-call Command.cmd_useradd frames h args word_size = refl
types-call Command.cmd_passwd frames h args word_size = refl
types-call Command.cmd_su frames h args word_size = refl
types-call Command.cmd_chmod frames h args word_size = refl
types-call Command.cmd_chown frames h args word_size = refl
types-call Command.cmd_tar frames h args word_size = refl
types-call Command.cmd_gzip frames h args word_size = refl
types-call Command.cmd_find frames h args word_size = refl
types-call Command.cmd_grep frames h args word_size = refl
types-call Command.cmd_wc frames h args word_size = refl
types-call Command.cmd_head frames h args word_size = refl
types-call Command.cmd_tail frames h args word_size = refl
types-call Command.cmd_sort frames h args word_size = refl
types-call Command.cmd_uniq frames h args word_size = refl
types-call Command.cmd_diff frames h args word_size = refl
types-call Command.cmd_ln frames h args word_size = refl
types-call Command.cmd_which frames h args word_size = types-cmd_which args
types-call Command.cmd_whereis frames h args word_size = refl
types-call Command.cmd_env frames h args word_size = refl
types-call Command.cmd_export frames h args word_size = refl
types-call Command.cmd_source frames h args word_size = refl
types-call Command.cmd_alias frames h args word_size = refl
types-call Command.cmd_unalias frames h args word_size = refl
types-call Command.cmd_type_cmd frames h args word_size = refl
types-call Command.cmd_exit frames h args word_size = refl
types-call Command.cmd_sleep_cmd frames h [] word_size = refl
types-call Command.cmd_sleep_cmd frames h (a ∷ []) word_size = refl
types-call Command.cmd_sleep_cmd frames h (a ∷ b ∷ rest) word_size = refl
types-call Command.cmd_true_cmd frames h args word_size = refl
types-call Command.cmd_false_cmd frames h args word_size = refl
