-- ===== src/Arch/Syscall/Numbers.antt =====
-- include/syscall.h: the numbers of the system calls that arch/x86_64/syscall.c answers.
use vaelen.Prelude.{ℕ}

abbrev pub exit : ℕ
exit = 1

abbrev pub fork : ℕ
fork = 2

abbrev pub read : ℕ
read = 3

abbrev pub write : ℕ
write = 4

abbrev pub open_path : ℕ
open_path = 5

abbrev pub close : ℕ
close = 6

abbrev pub unlink : ℕ
unlink = 10

abbrev pub time : ℕ
time = 13

abbrev pub getpid : ℕ
getpid = 20

abbrev pub kill : ℕ
kill = 37

abbrev pub mkdir : ℕ
mkdir = 39

abbrev pub brk : ℕ
brk = 45
