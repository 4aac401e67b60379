-- ===== src/Shell/Stubs.antt =====
-- kernel/shell.c: the commands from `apt-get` on. `args` begins with the name of the command.
use vaelen.Prelude.{
  ℕ, ◌+◌, ◌*◌, ◌%◌, ◌^◌, Bool, true, false, if◌then◌else◌, List, [], ◌∷◌, none, some, length,
  get_or,
}
use vaelen.Prelude.Int.{pos, negsuc}
use vaelen.Prelude.Text.{bytes}
use vaelen.Printf.{text}
use vaelen.Strings.Numbers.{atoi}
use vaelen.Shell.Calls.{sleep, Outcome, Args, say, equal}
use vaelen.Shell.Table.{Entry, commands}
use vaelen.Shell.Basic.{find_entry}

-- `apt-get install` with the arguments behind it, and the argument of `apt-get search`.
unfoldable pub install : Args → Outcome
install [] = (pos 1, say "apt-get: missing package name\n" [] ∷ [])
install (package_name ∷ _) = (
  pos 0,
  say "Reading package lists... Done\n" []
      ∷ say "Building dependency tree... Done\n" []
      ∷ say "The following NEW packages will be installed:\n" []
      ∷ say "  %s\n" (text package_name ∷ [])
      ∷ say "0 upgraded, 1 newly installed, 0 to remove.\n" []
      ∷ say "Installing %s... Done\n" (text package_name ∷ [])
      ∷ [],
)

abbrev first_or_empty : Args → List ℕ
first_or_empty [] = []
first_or_empty (arg ∷ _) = arg

unfoldable pub cmd_aptget : Args → Outcome
unfolding install
cmd_aptget (command ∷ action ∷ rest) =
    if equal action (bytes "update")
    then (
      pos 0,
      say "Get:1 http://vaelen.org stable InRelease\n" []
          ∷ say "Reading package lists... Done\n" []
          ∷ [],
    )
    else if equal action (bytes "install")
    then install rest
    else if equal action (bytes "remove")
    then (pos 0, say "Removing package... Done\n" [] ∷ [])
    else if equal action (bytes "upgrade")
    then (pos 0, say "0 upgraded, 0 newly installed, 0 to remove.\n" [] ∷ [])
    else if equal action (bytes "search")
    then (pos 0, say "Searching for '%s'...\n" (text (first_or_empty rest) ∷ []) ∷ [])
    else (pos 0, [])
cmd_aptget _ = (
  pos 1,
  say "apt-get: missing command\n" []
      ∷ say "Usage: apt-get [update|install|remove|upgrade|search]\n" []
      ∷ [],
)

unfoldable pub cmd_dpkg : Args → Outcome
cmd_dpkg args = (pos 0, say "dpkg: package manager stub\n" [] ∷ [])

unfoldable pub cmd_systemctl : Args → Outcome
cmd_systemctl args = (pos 0, say "systemctl: service manager stub\n" [] ∷ [])

unfoldable pub cmd_man : Args → Outcome
cmd_man (command ∷ page ∷ _) = (pos 0, say "No manual entry for %s\n" (text page ∷ []) ∷ [])
cmd_man _ = (pos 1, say "What manual page do you want?\n" [] ∷ [])

unfoldable pub cmd_hostname : Args → Outcome
cmd_hostname args = (pos 0, say "vaelen\n" [] ∷ [])

unfoldable pub cmd_ifconfig : Args → Outcome
cmd_ifconfig args = (pos 0, say "lo: flags=73<UP,LOOPBACK,RUNNING>  mtu 65536\n" [] ∷ [])

unfoldable pub cmd_ping : Args → Outcome
cmd_ping args = (pos 0, say "ping: network unavailable\n" [] ∷ [])

unfoldable pub cmd_wget : Args → Outcome
cmd_wget args = (pos 0, say "wget: network unavailable\n" [] ∷ [])

unfoldable pub cmd_curl : Args → Outcome
cmd_curl args = (pos 0, say "curl: network unavailable\n" [] ∷ [])

unfoldable pub cmd_ssh : Args → Outcome
cmd_ssh args = (pos 0, say "ssh: network unavailable\n" [] ∷ [])

unfoldable pub cmd_useradd : Args → Outcome
cmd_useradd args = (pos 0, [])

unfoldable pub cmd_passwd : Args → Outcome
cmd_passwd args = (pos 0, [])

unfoldable pub cmd_su : Args → Outcome
cmd_su args = (pos 0, say "su: not implemented\n" [] ∷ [])

unfoldable pub cmd_chmod : Args → Outcome
cmd_chmod args = (pos 0, [])

unfoldable pub cmd_chown : Args → Outcome
cmd_chown args = (pos 0, [])

unfoldable pub cmd_tar : Args → Outcome
cmd_tar args = (pos 0, say "tar: archive utility stub\n" [] ∷ [])

unfoldable pub cmd_gzip : Args → Outcome
cmd_gzip args = (pos 0, say "gzip: compression stub\n" [] ∷ [])

unfoldable pub cmd_find : Args → Outcome
cmd_find args = (pos 0, say "find: search stub\n" [] ∷ [])

unfoldable pub cmd_grep : Args → Outcome
cmd_grep args = (pos 0, say "grep: search stub\n" [] ∷ [])

unfoldable pub cmd_wc : Args → Outcome
cmd_wc args = (pos 0, say "0 0 0\n" [] ∷ [])

unfoldable pub cmd_head : Args → Outcome
cmd_head args = (pos 0, [])

unfoldable pub cmd_tail : Args → Outcome
cmd_tail args = (pos 0, [])

unfoldable pub cmd_sort : Args → Outcome
cmd_sort args = (pos 0, [])

unfoldable pub cmd_uniq : Args → Outcome
cmd_uniq args = (pos 0, [])

unfoldable pub cmd_diff : Args → Outcome
cmd_diff args = (pos 0, [])

unfoldable pub cmd_ln : Args → Outcome
cmd_ln args = (pos 0, [])

abbrev pub is_listed : List ℕ → List Entry → Bool
is_listed name table = elim (find_entry name table) [ none ↦ false | some e ↦ true ]

unfoldable pub cmd_which : Args → Outcome
unfolding find_entry
cmd_which (command ∷ name ∷ _) =
    if is_listed name commands
    then (pos 0, say "/usr/bin/%s\n" (text name ∷ []) ∷ [])
    else (pos 1, [])
cmd_which _ = (pos 0, [])

unfoldable pub cmd_whereis : Args → Outcome
cmd_whereis args = (pos 0, [])

unfoldable pub cmd_env : Args → Outcome
cmd_env args = (
  pos 0,
  say "PATH=/usr/local/bin:/usr/bin:/bin\n" []
      ∷ say "HOME=/root\n" []
      ∷ say "USER=root\n" []
      ∷ say "SHELL=/bin/sh\n" []
      ∷ say "TERM=vaelen\n" []
      ∷ [],
)

unfoldable pub cmd_export : Args → Outcome
cmd_export args = (pos 0, [])

unfoldable pub cmd_source : Args → Outcome
cmd_source args = (pos 0, [])

unfoldable pub cmd_alias : Args → Outcome
cmd_alias args = (pos 0, [])

unfoldable pub cmd_unalias : Args → Outcome
cmd_unalias args = (pos 0, [])

unfoldable pub cmd_type_cmd : Args → Outcome
cmd_type_cmd args = (pos 0, [])

unfoldable pub cmd_exit : Args → Outcome
cmd_exit args = (negsuc 0, say "logout\n" [] ∷ [])

-- `atoi` of an argument, which is at 0 here; the rounds are enough for its bytes.
abbrev atoi_of : List ℕ → ℕ
atoi_of arg = elim (atoi (length arg + 2) 0 (λ p. get_or arg p 0)) [ none ↦ 0 | some n ↦ n ]

unfoldable pub cmd_sleep_cmd : Args → Outcome
cmd_sleep_cmd (command ∷ delay ∷ _) = (pos 0, sleep (atoi_of delay * 1000 % 2 ^ 32) ∷ [])
cmd_sleep_cmd _ = (pos 1, say "sleep: missing operand\n" [] ∷ [])

unfoldable pub cmd_true_cmd : Args → Outcome
cmd_true_cmd args = (pos 0, [])

unfoldable pub cmd_false_cmd : Args → Outcome
cmd_false_cmd args = (pos 1, [])
