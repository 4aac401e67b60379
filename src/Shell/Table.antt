-- ===== src/Shell/Table.antt =====
-- kernel/shell.c: the table of commands.
use vaelen.Prelude.{ℕ, List, [], ◌∷◌}
use vaelen.Prelude.Text.{bytes}

-- The functions that the table points to.
pub data Command : Type 0 where
  cmd_help cmd_clear cmd_echo cmd_ls cmd_cd cmd_mkdir : Command
  cmd_rm cmd_cat cmd_touch cmd_cp cmd_mv cmd_pwd : Command
  cmd_whoami cmd_uname cmd_date cmd_ps cmd_kill cmd_free : Command
  cmd_df cmd_mount cmd_umount cmd_reboot cmd_shutdown cmd_aptget : Command
  cmd_dpkg cmd_systemctl cmd_man cmd_history_cmd cmd_hostname cmd_ifconfig : Command
  cmd_ping cmd_wget cmd_curl cmd_ssh cmd_useradd cmd_passwd : Command
  cmd_su cmd_chmod cmd_chown cmd_tar cmd_gzip cmd_find : Command
  cmd_grep cmd_wc cmd_head cmd_tail cmd_sort cmd_uniq : Command
  cmd_diff cmd_ln cmd_which cmd_whereis cmd_env cmd_export : Command
  cmd_source cmd_alias cmd_unalias cmd_type_cmd cmd_exit cmd_sleep_cmd : Command
  cmd_true_cmd cmd_false_cmd : Command

-- An entry of `commands`.
pub record Entry : Type 0 where
  pub name : List ℕ
  pub desc : List ℕ
  pub func : Command

abbrev entry : List ℕ → List ℕ → Command → Entry
entry name desc func = record { name = name; desc = desc; func = func }

-- The entries in front of the null one that ends the table.
abbrev pub commands : List Entry
commands =
    entry (bytes "help") (bytes "Show available commands") cmd_help
    ∷ entry (bytes "clear") (bytes "Clear the terminal screen") cmd_clear
    ∷ entry (bytes "echo") (bytes "Display a line of text") cmd_echo
    ∷ entry (bytes "ls") (bytes "List directory contents") cmd_ls
    ∷ entry (bytes "cd") (bytes "Change the current directory") cmd_cd
    ∷ entry (bytes "mkdir") (bytes "Create directories") cmd_mkdir
    ∷ entry (bytes "rm") (bytes "Remove files or directories") cmd_rm
    ∷ entry (bytes "cat") (bytes "Concatenate and display files") cmd_cat
    ∷ entry (bytes "touch") (bytes "Create empty files") cmd_touch
    ∷ entry (bytes "cp") (bytes "Copy files and directories") cmd_cp
    ∷ entry (bytes "mv") (bytes "Move/rename files") cmd_mv
    ∷ entry (bytes "pwd") (bytes "Print working directory") cmd_pwd
    ∷ entry (bytes "whoami") (bytes "Print current user") cmd_whoami
    ∷ entry (bytes "uname") (bytes "Print system information") cmd_uname
    ∷ entry (bytes "date") (bytes "Display or set system date") cmd_date
    ∷ entry (bytes "ps") (bytes "Report process status") cmd_ps
    ∷ entry (bytes "kill") (bytes "Terminate processes") cmd_kill
    ∷ entry (bytes "free") (bytes "Display memory usage") cmd_free
    ∷ entry (bytes "df") (bytes "Report filesystem usage") cmd_df
    ∷ entry (bytes "mount") (bytes "Mount filesystems") cmd_mount
    ∷ entry (bytes "umount") (bytes "Unmount filesystems") cmd_umount
    ∷ entry (bytes "reboot") (bytes "Reboot the system") cmd_reboot
    ∷ entry (bytes "shutdown") (bytes "Shutdown the system") cmd_shutdown
    ∷ entry (bytes "apt-get") (bytes "Package manager") cmd_aptget
    ∷ entry (bytes "dpkg") (bytes "Debian package manager") cmd_dpkg
    ∷ entry (bytes "systemctl") (bytes "System service manager") cmd_systemctl
    ∷ entry (bytes "man") (bytes "Manual pages") cmd_man
    ∷ entry (bytes "history") (bytes "Command history") cmd_history_cmd
    ∷ entry (bytes "hostname") (bytes "Show/set hostname") cmd_hostname
    ∷ entry (bytes "ifconfig") (bytes "Network interface config") cmd_ifconfig
    ∷ entry (bytes "ping") (bytes "Network connectivity test") cmd_ping
    ∷ entry (bytes "wget") (bytes "Download files") cmd_wget
    ∷ entry (bytes "curl") (bytes "Transfer data from URLs") cmd_curl
    ∷ entry (bytes "ssh") (bytes "Secure shell client") cmd_ssh
    ∷ entry (bytes "useradd") (bytes "Add user account") cmd_useradd
    ∷ entry (bytes "passwd") (bytes "Change password") cmd_passwd
    ∷ entry (bytes "su") (bytes "Switch user") cmd_su
    ∷ entry (bytes "chmod") (bytes "Change file permissions") cmd_chmod
    ∷ entry (bytes "chown") (bytes "Change file ownership") cmd_chown
    ∷ entry (bytes "tar") (bytes "Archive utility") cmd_tar
    ∷ entry (bytes "gzip") (bytes "Compress files") cmd_gzip
    ∷ entry (bytes "find") (bytes "Search for files") cmd_find
    ∷ entry (bytes "grep") (bytes "Search text patterns") cmd_grep
    ∷ entry (bytes "wc") (bytes "Word/line/byte count") cmd_wc
    ∷ entry (bytes "head") (bytes "Show first lines") cmd_head
    ∷ entry (bytes "tail") (bytes "Show last lines") cmd_tail
    ∷ entry (bytes "sort") (bytes "Sort lines of text") cmd_sort
    ∷ entry (bytes "uniq") (bytes "Remove duplicate lines") cmd_uniq
    ∷ entry (bytes "diff") (bytes "Compare files") cmd_diff
    ∷ entry (bytes "ln") (bytes "Create links") cmd_ln
    ∷ entry (bytes "which") (bytes "Locate command") cmd_which
    ∷ entry (bytes "whereis") (bytes "Locate binary/source") cmd_whereis
    ∷ entry (bytes "env") (bytes "Show environment") cmd_env
    ∷ entry (bytes "export") (bytes "Set environment variable") cmd_export
    ∷ entry (bytes "source") (bytes "Execute script in shell") cmd_source
    ∷ entry (bytes "alias") (bytes "Create command alias") cmd_alias
    ∷ entry (bytes "unalias") (bytes "Remove alias") cmd_unalias
    ∷ entry (bytes "type") (bytes "Display command type") cmd_type_cmd
    ∷ entry (bytes "exit") (bytes "Exit the shell") cmd_exit
    ∷ entry (bytes "sleep") (bytes "Delay for specified time") cmd_sleep_cmd
    ∷ entry (bytes "true") (bytes "Return success") cmd_true_cmd
    ∷ entry (bytes "false") (bytes "Return failure") cmd_false_cmd
    ∷ []
