-- ===== src/Shell/Dispatch.antt =====
-- kernel/shell.c: the two commands that read the kernel's state, and the calls through the table.
use Prim.Native.Nat.{min}
use vaelen.Prelude.{ℕ, zero, suc, ◌+◌, ◌%◌, List, [], ◌∷◌, if◌then◌else◌}
use vaelen.Prelude.Int.{pos}
use vaelen.Mm.Frames.{Frames, get_total_memory, get_used_memory, get_free_memory}
use vaelen.Printf.{word, text}
use vaelen.Shell.Calls.{Call, Outcome, Args, say, equal}
use vaelen.Shell.Table.{Command, Entry}
use vaelen.Shell.Basic.{
  cmd_help, cmd_clear, cmd_echo, cmd_ls, cmd_cd, cmd_mkdir, cmd_rm, cmd_cat, cmd_touch, cmd_cp,
  cmd_mv, cmd_pwd, cmd_whoami, cmd_uname, cmd_date, cmd_ps, cmd_kill, cmd_df, cmd_mount, cmd_umount,
  cmd_reboot, cmd_shutdown,
}
use vaelen.Shell.Stubs.{
  cmd_aptget, cmd_dpkg, cmd_systemctl, cmd_man, cmd_hostname, cmd_ifconfig, cmd_ping, cmd_wget,
  cmd_curl, cmd_ssh, cmd_useradd, cmd_passwd, cmd_su, cmd_chmod, cmd_chown, cmd_tar, cmd_gzip,
  cmd_find, cmd_grep, cmd_wc, cmd_head, cmd_tail, cmd_sort, cmd_uniq, cmd_diff, cmd_ln, cmd_which,
  cmd_whereis, cmd_env, cmd_export, cmd_source, cmd_alias, cmd_unalias, cmd_type_cmd, cmd_exit,
  cmd_sleep_cmd, cmd_true_cmd, cmd_false_cmd,
}

abbrev pub max_history : ℕ
max_history = 50

-- `history`, by slot, `hist_count` and `hist_idx`.
pub record History : Type 0 where
  pub history : ℕ → List ℕ
  pub hist_count : ℕ
  pub hist_idx : ℕ

unfoldable pub cmd_free : Frames → Args → Outcome
cmd_free frames args = (
  pos 0,
  say "              total       used       free\n" []
      ∷ say "Mem:         %d      %d      %d\n" (
          word (get_total_memory frames)
          ∷ word (get_used_memory frames)
          ∷ word (get_free_memory frames)
          ∷ [])
      ∷ [],
)

-- The loop of `cmd_history_cmd` from `i` on, with `n` rounds left.
unfoldable pub history_from : History → ℕ → ℕ → List Call
history_from h i zero = []
history_from h i (suc n) =
    say "  %d  %s\n" (word (i + 1) ∷ text (h.history (i % max_history)) ∷ [])
    ∷ history_from h (i + 1) n

unfoldable pub cmd_history_cmd : History → Args → Outcome
unfolding history_from
cmd_history_cmd h args = (pos 0, history_from h 0 (min h.hist_count max_history))

-- `commands[i].func(args)`
unfoldable pub call : Command → Frames → History → Args → Outcome
call Command.cmd_help frames h args = cmd_help args
call Command.cmd_clear frames h args = cmd_clear args
call Command.cmd_echo frames h args = cmd_echo args
call Command.cmd_ls frames h args = cmd_ls args
call Command.cmd_cd frames h args = cmd_cd args
call Command.cmd_mkdir frames h args = cmd_mkdir args
call Command.cmd_rm frames h args = cmd_rm args
call Command.cmd_cat frames h args = cmd_cat args
call Command.cmd_touch frames h args = cmd_touch args
call Command.cmd_cp frames h args = cmd_cp args
call Command.cmd_mv frames h args = cmd_mv args
call Command.cmd_pwd frames h args = cmd_pwd args
call Command.cmd_whoami frames h args = cmd_whoami args
call Command.cmd_uname frames h args = cmd_uname args
call Command.cmd_date frames h args = cmd_date args
call Command.cmd_ps frames h args = cmd_ps args
call Command.cmd_kill frames h args = cmd_kill args
call Command.cmd_free frames h args = cmd_free frames args
call Command.cmd_df frames h args = cmd_df args
call Command.cmd_mount frames h args = cmd_mount args
call Command.cmd_umount frames h args = cmd_umount args
call Command.cmd_reboot frames h args = cmd_reboot args
call Command.cmd_shutdown frames h args = cmd_shutdown args
call Command.cmd_aptget frames h args = cmd_aptget args
call Command.cmd_dpkg frames h args = cmd_dpkg args
call Command.cmd_systemctl frames h args = cmd_systemctl args
call Command.cmd_man frames h args = cmd_man args
call Command.cmd_history_cmd frames h args = cmd_history_cmd h args
call Command.cmd_hostname frames h args = cmd_hostname args
call Command.cmd_ifconfig frames h args = cmd_ifconfig args
call Command.cmd_ping frames h args = cmd_ping args
call Command.cmd_wget frames h args = cmd_wget args
call Command.cmd_curl frames h args = cmd_curl args
call Command.cmd_ssh frames h args = cmd_ssh args
call Command.cmd_useradd frames h args = cmd_useradd args
call Command.cmd_passwd frames h args = cmd_passwd args
call Command.cmd_su frames h args = cmd_su args
call Command.cmd_chmod frames h args = cmd_chmod args
call Command.cmd_chown frames h args = cmd_chown args
call Command.cmd_tar frames h args = cmd_tar args
call Command.cmd_gzip frames h args = cmd_gzip args
call Command.cmd_find frames h args = cmd_find args
call Command.cmd_grep frames h args = cmd_grep args
call Command.cmd_wc frames h args = cmd_wc args
call Command.cmd_head frames h args = cmd_head args
call Command.cmd_tail frames h args = cmd_tail args
call Command.cmd_sort frames h args = cmd_sort args
call Command.cmd_uniq frames h args = cmd_uniq args
call Command.cmd_diff frames h args = cmd_diff args
call Command.cmd_ln frames h args = cmd_ln args
call Command.cmd_which frames h args = cmd_which args
call Command.cmd_whereis frames h args = cmd_whereis args
call Command.cmd_env frames h args = cmd_env args
call Command.cmd_export frames h args = cmd_export args
call Command.cmd_source frames h args = cmd_source args
call Command.cmd_alias frames h args = cmd_alias args
call Command.cmd_unalias frames h args = cmd_unalias args
call Command.cmd_type_cmd frames h args = cmd_type_cmd args
call Command.cmd_exit frames h args = cmd_exit args
call Command.cmd_sleep_cmd frames h args = cmd_sleep_cmd args
call Command.cmd_true_cmd frames h args = cmd_true_cmd args
call Command.cmd_false_cmd frames h args = cmd_false_cmd args

-- The loop of `shell_execute` over the table, and what follows it.
unfoldable pub run_named : List ℕ → List Entry → Frames → History → Args → Outcome
unfolding call
run_named name [] frames h args = (pos 1, say "%s: command not found\n" (text name ∷ []) ∷ [])
run_named name (e ∷ es) frames h args =
    if equal name e.name then call e.func frames h args else run_named name es frames h args
