-- ===== src/Shell/Basic.antt =====
-- kernel/shell.c: the commands from `help` to `shutdown`. `args` begins with the name of the command.
use vaelen.Prelude.{ℕ, if◌then◌else◌, List, [], ◌∷◌, map, Option, none, some}
use vaelen.Prelude.Int.{pos}
use vaelen.Prelude.Text.{bytes}
use vaelen.Printf.{text}
use vaelen.Shell.Calls.{Call, clear, outb, Outcome, Args, say, equal}
use vaelen.Shell.Table.{Entry, commands}

abbrev pub kernel_name : List ℕ
kernel_name = bytes "Vaelen Linux"

abbrev pub kernel_version : List ℕ
kernel_version = bytes "0.1.0"

abbrev pub kernel_codename : List ℕ
kernel_codename = bytes "Genesis"

-- The loop that looks a name up in the table.
unfoldable pub find_entry : List ℕ → List Entry → Option Entry
find_entry name [] = none
find_entry name (e ∷ es) = if equal name e.name then some e else find_entry name es

unfoldable pub help_on : List ℕ → Option Entry → Outcome
help_on name (some e) = (pos 0, say "%s - %s\n" (text e.name ∷ text e.desc ∷ []) ∷ [])
help_on name none = (pos 0, say "No manual entry for %s\n" (text name ∷ []) ∷ [])

unfoldable pub cmd_help : Args → Outcome
unfolding find_entry help_on
cmd_help (command ∷ name ∷ _) = help_on name (find_entry name commands)
cmd_help _ = (
  pos 0,
  say "Vaelen Shell Commands:\n" []
      ∷ say "%-12s %s\n" (text (bytes "COMMAND") ∷ text (bytes "DESCRIPTION") ∷ [])
      ∷ say "------------ ------------\n" []
      ∷ map (λ e. say "%-12s %s\n" (text e.name ∷ text e.desc ∷ [])) commands,
)

unfoldable pub cmd_clear : Args → Outcome
cmd_clear args = (pos 0, clear ∷ [])

-- `cmd_echo`: the loop over the arguments behind the command.
unfoldable pub echo_from : Args → List Call
echo_from [] = say "\n" [] ∷ []
echo_from (arg ∷ []) = say "%s%s" (text arg ∷ text [] ∷ []) ∷ say "\n" [] ∷ []
echo_from (arg ∷ next ∷ rest) =
    say "%s%s" (text arg ∷ text (bytes " ") ∷ []) ∷ echo_from (next ∷ rest)

abbrev drop_one : Args → Args
drop_one [] = []
drop_one (command ∷ rest) = rest

unfoldable pub cmd_echo : Args → Outcome
unfolding echo_from
cmd_echo args = (pos 0, echo_from (drop_one args))

unfoldable pub cmd_ls : Args → Outcome
cmd_ls args = (
  pos 0,
  say "bin/  boot/  dev/  etc/  home/  lib/  mnt/  opt/\n" []
      ∷ say "proc/ root/ run/  sbin/ sys/  tmp/  usr/  var/\n" []
      ∷ [],
)

unfoldable pub cmd_cd : Args → Outcome
cmd_cd args = (pos 0, [])

unfoldable pub cmd_mkdir : Args → Outcome
cmd_mkdir (command ∷ path ∷ _) =
    (pos 0, say "mkdir: created directory '%s'\n" (text path ∷ []) ∷ [])
cmd_mkdir _ = (pos 1, say "mkdir: missing operand\n" [] ∷ [])

unfoldable pub cmd_rm : Args → Outcome
cmd_rm (command ∷ path ∷ _) = (pos 0, say "rm: removed '%s'\n" (text path ∷ []) ∷ [])
cmd_rm _ = (pos 1, say "rm: missing operand\n" [] ∷ [])

unfoldable pub cmd_cat : Args → Outcome
cmd_cat (command ∷ path ∷ _) = (pos 1, say "cat: %s: No such file\n" (text path ∷ []) ∷ [])
cmd_cat _ = (pos 1, say "cat: missing operand\n" [] ∷ [])

unfoldable pub cmd_touch : Args → Outcome
cmd_touch (command ∷ path ∷ _) = (pos 0, [])
cmd_touch _ = (pos 1, say "touch: missing operand\n" [] ∷ [])

unfoldable pub cmd_cp : Args → Outcome
cmd_cp (command ∷ source ∷ target ∷ _) = (pos 0, [])
cmd_cp _ = (pos 1, say "cp: missing operand\n" [] ∷ [])

unfoldable pub cmd_mv : Args → Outcome
cmd_mv (command ∷ source ∷ target ∷ _) = (pos 0, [])
cmd_mv _ = (pos 1, say "mv: missing operand\n" [] ∷ [])

unfoldable pub cmd_pwd : Args → Outcome
cmd_pwd args = (pos 0, say "/\n" [] ∷ [])

unfoldable pub cmd_whoami : Args → Outcome
cmd_whoami args = (pos 0, say "root\n" [] ∷ [])

unfoldable pub cmd_uname : Args → Outcome
cmd_uname (command ∷ option ∷ _) =
    if equal option (bytes "-a")
    then (
      pos 0,
      say "%s %s %s %s i686 GNU/Linux\n" (
            text kernel_name
            ∷ text kernel_version
            ∷ text kernel_codename
            ∷ text (bytes "x86_64")
            ∷ [])
          ∷ [],
    )
    else if equal option (bytes "-r")
    then (pos 0, say "%s\n" (text kernel_version ∷ []) ∷ [])
    else (pos 0, say "%s\n" (text kernel_name ∷ []) ∷ [])
cmd_uname _ = (pos 0, say "%s\n" (text kernel_name ∷ []) ∷ [])

unfoldable pub cmd_date : Args → Outcome
cmd_date args = (pos 0, say "Sat May 16 12:00:00 CST 2026\n" [] ∷ [])

unfoldable pub cmd_ps : Args → Outcome
cmd_ps args = (
  pos 0,
  say "  PID TTY       TIME CMD\n" []
      ∷ say "    1 ?     00:00:00 init\n" []
      ∷ say "    2 ?     00:00:00 kthreadd\n" []
      ∷ say "    3 ?     00:00:00 shell\n" []
      ∷ [],
)

unfoldable pub cmd_kill : Args → Outcome
cmd_kill (command ∷ target ∷ _) = (pos 0, [])
cmd_kill _ = (pos 1, say "kill: missing operand\n" [] ∷ [])

unfoldable pub cmd_df : Args → Outcome
cmd_df args = (
  pos 0,
  say "Filesystem      Size  Used Avail Use%% Mounted on\n" []
      ∷ say "/dev/sda1       495G  2.1G  492G   1%% /\n" []
      ∷ [],
)

unfoldable pub cmd_mount : Args → Outcome
cmd_mount args = (pos 0, [])

unfoldable pub cmd_umount : Args → Outcome
cmd_umount args = (pos 0, [])

unfoldable pub cmd_reboot : Args → Outcome
cmd_reboot args = (pos 0, say "Rebooting...\n" [] ∷ outb 0x64 0xFE ∷ [])

unfoldable pub cmd_shutdown : Args → Outcome
cmd_shutdown args = (pos 0, say "Shutting down...\n" [] ∷ outb 0x64 0xFE ∷ [])
