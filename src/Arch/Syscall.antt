-- ===== src/Arch/Syscall.antt =====
-- arch/x86_64/syscall.c: the system calls, on the tasks, the files and the console.
mod Tests
pub mod Numbers
pub mod Effect
pub mod Fork
use vaelen.Arch.Syscall.Numbers
use vaelen.Prelude.{
  ℕ, zero, suc, ◌+◌, ◌-◌, ◌^◌, Bool, true, false, ◌||◌, not, ltb, ◌==◌, if◌then◌else◌, List, [],
  ◌∷◌, Option, none, some,
}
use vaelen.Prelude.Int.{ℤ, pos, negsuc}
use vaelen.Mm.Heap.{Ptr, null}
use vaelen.Task
use vaelen.Task.{Task, Tasks, Fresh, Outcome, runs, halts, find_task, on_tasks, at_task}
use vaelen.Fs
use vaelen.Fs.{Files, Memory}
use vaelen.Drivers.Vga
use vaelen.Drivers.Vga.{Console}

-- What the system calls work on.
pub record Kernel : Type 0 where
  pub tasks : Tasks
  pub files : Files
  pub console : Console

-- A call that returns a number, or one that halts the machine.
pub data Result : Type 0 where
  returned : ℤ → Kernel → Result
  halted : Kernel → Result

-- `(int)` of a register.
abbrev pub int_of : ℕ → ℤ
int_of w = if ltb w (2 ^ 31) then pos w else negsuc (2 ^ 32 - 1 - w)

-- The `n` bytes at `p`.
abbrev pub bytes_at : Memory → Ptr → ℕ → List ℕ
bytes_at m p zero = []
bytes_at m p (suc n) = m p ∷ bytes_at m (p + 1) n

-- The rounds of `for (i = 0; i < len; i++)`.
abbrev pub rounds : ℤ → ℕ
rounds (pos n) = n
rounds (negsuc n) = 0

-- `sys_write`, with `len` as a register.
unfoldable pub sys_write : Memory → ℤ → Ptr → ℕ → Kernel → Result
sys_write m (pos fd) buf len k =
    if fd == 1 || fd == 2
    then returned (int_of len)
        (record k { console = Vga.write (bytes_at m buf (rounds (int_of len))) k.console })
    else returned (int_of (Fs.write (pos fd) 0 len buf k.files)) k
sys_write m fd buf len k = returned (int_of (Fs.write fd 0 len buf k.files)) k

unfoldable pub sys_read : ℤ → Ptr → ℕ → Kernel → Result
sys_read fd buf len k = returned (int_of (Fs.read fd 0 len buf k.files)) k

unfoldable pub sys_open : Memory → Ptr → ℕ → Kernel → Result
sys_open m path flags k =
    let (fd, files) = Fs.open_path m path flags k.files in returned fd (record k { files = files })

unfoldable pub sys_close : ℤ → Kernel → Result
sys_close fd k = let (r, files) = Fs.close fd k.files in returned r (record k { files = files })

unfoldable pub sys_mkdir : Ptr → ℕ → Kernel → Result
sys_mkdir path mode k = returned (Fs.mkdir path mode) k

unfoldable pub sys_unlink : Ptr → Kernel → Result
sys_unlink path k = returned (Fs.unlink path) k

-- A field of the task at `p`, 0 for no task.
abbrev pub field_at : Ptr → (Task → ℕ) → Tasks → ℕ
field_at p field s = elim (find_task p s.task_list) [ none ↦ 0 | some t ↦ field t ]

unfoldable pub sys_getpid : Kernel → ℤ
sys_getpid k =
    if k.tasks.current_task == null
    then pos 0
    else int_of (field_at k.tasks.current_task (λ t. t.pid) k.tasks)

abbrev pub set_brk : ℕ → Tasks → Tasks
set_brk addr s = on_tasks (at_task s.current_task (λ t. record t { brk = addr })) s

abbrev pub brk_of : Kernel → ℤ
brk_of k = int_of (field_at k.tasks.current_task (λ t. t.brk) k.tasks)

unfoldable pub sys_brk : ℕ → Kernel → Result
sys_brk addr k =
    let changed = if addr == 0 then k else record k { tasks = set_brk addr k.tasks } in
    if k.tasks.current_task == null then returned (pos 0) k else returned (brk_of changed) changed

unfoldable pub sys_fork : Fresh → Kernel → Result
sys_fork new k =
    let (child, tasks) = Task.fork k.tasks new in
    returned (if child == null then pos 0 else int_of (field_at child (λ t. t.pid) tasks))
      (record k { tasks = tasks })

-- `sys_exit`, and the return of `syscall_handler` behind it.
abbrev pub after_exit : Kernel → Outcome → Result
after_exit k (halts s) = halted (record k { tasks = s })
after_exit k (runs s) = returned (pos 0) (record k { tasks = s })

unfoldable pub sys_exit : ℤ → Kernel → Result
sys_exit code k = after_exit k (Task.exit code k.tasks)

abbrev pub sys_time : ℤ
sys_time = pos 0

abbrev pub sys_kill : ℤ → ℤ → ℤ
sys_kill pid sig = negsuc 0

-- `syscall_handler`, for the memory where paths and bytes are read, and the addresses that `task_fork`
-- gets from the allocators. The numbers are those of include/syscall.h, in the order of the switch:
-- SYS_WRITE, READ, OPEN, CLOSE, MKDIR, UNLINK, GETPID, BRK, FORK, EXIT, TIME and KILL.
unfoldable pub syscall_handler : Memory → Fresh → ℕ → ℕ → ℕ → ℕ → Kernel → Result
syscall_handler m new eax ebx ecx edx k =
    if eax == Numbers.write
    then sys_write m (int_of ebx) ecx edx k
    else if eax == Numbers.read
    then sys_read (int_of ebx) ecx edx k
    else if eax == Numbers.open_path
    then sys_open m ebx ecx k
    else if eax == Numbers.close
    then sys_close (int_of ebx) k
    else if eax == Numbers.mkdir
    then sys_mkdir ebx ecx k
    else if eax == Numbers.unlink
    then sys_unlink ebx k
    else if eax == Numbers.getpid
    then returned (sys_getpid k) k
    else if eax == Numbers.brk
    then sys_brk ebx k
    else if eax == Numbers.fork
    then sys_fork new k
    else if eax == Numbers.exit
    then sys_exit (int_of ebx) k
    else if eax == Numbers.time
    then returned sys_time k
    else if eax == Numbers.kill
    then returned (sys_kill (int_of ebx) (int_of ecx)) k
    else returned (negsuc 0) k
