-- ===== src/Arch/Syscall/Fork.antt =====
-- The pids that the system calls of arch/x86_64/syscall.c report around a fork.
use vaelen.Prelude.{
  refl, ==_same, ==_differ, ℕ, ◌≡◌, ◌≢◌, ap, Bool, false, ◌==◌, if◌then◌else◌, none, some,
}
use vaelen.Prelude.Int.{ℤ, pos}
use vaelen.Mm.Heap.{Ptr, null}
use vaelen.Task.{Task, Tasks, Fresh, find_task, child_of, enlist}
use vaelen.Task.Fork.{fork-child}
use vaelen.Fs.{Memory}
use vaelen.Arch.Syscall.{Kernel, returned, int_of, field_at, sys_getpid, sys_fork, syscall_handler}

-- The kernel with the task at `p` running.
abbrev pub running_at : Ptr → Kernel → Kernel
running_at p k = record k { tasks = record (k.tasks) { current_task = p } }

forked : Fresh → Task → Kernel → Kernel
forked new t k = record k { tasks = enlist k.tasks (child_of k.tasks new t) }

-- The pid that is read at an address where the newest task lies, or another one.
pid_at : Ptr → Tasks → ℕ
pid_at p s = field_at p (λ t. t.pid) s

pid_at-newest :
    (s : Tasks) (new : Fresh) (t : Task)
    → pid_at new.task (enlist s (child_of s new t)) ≡ s.next_pid
unfolding pid_at find_task child_of
pid_at-newest s new t =
    ap
      (λ (here : Bool).
        elim (if here then some (child_of s new t) else find_task new.task s.task_list) [
          | none ↦ 0
          | some u ↦ u.pid
        ])
      (==_same new.task new.task refl)

pid_at-else :
    (s : Tasks) (new : Fresh) (t : Task) (p : Ptr)
    → new.task ≢ p
    → pid_at p (enlist s (child_of s new t)) ≡ pid_at p s
unfolding pid_at find_task child_of
pid_at-else s new t p other =
    ap
      (λ (here : Bool). elim (if here then some (child_of s new t) else find_task p s.task_list) [
        | none ↦ 0
        | some u ↦ u.pid
      ])
      (==_differ new.task p other)

-- The answer for a task at `p` with a pid.
answer : Ptr → ℕ → ℤ
answer p pid = if p == null then pos 0 else int_of pid

answer-task : (p : Ptr) (pid pid' : ℕ) → p ≢ null → pid ≡ pid' → answer p pid ≡ int_of pid'
unfolding answer
answer-task p pid pid' ne e = rw (==_differ p null ne) (ap (λ n. int_of n) e)

sys_fork-child :
    (new : Fresh) (t : Task) (k : Kernel)
    → new.task ≢ null
    → (k.tasks.current_task == null) ≡ false
    → find_task k.tasks.current_task k.tasks.task_list ≡ some t
    → sys_fork new k ≡ returned (int_of k.tasks.next_pid) (forked new t k)
unfolding sys_fork forked answer pid_at
sys_fork-child new t k placed current found = rw (fork-child k.tasks new t current found) (
    ap (λ n. returned n (forked new t k))
      (answer-task new.task _ k.tasks.next_pid placed (pid_at-newest k.tasks new t)))

getpid-child :
    (new : Fresh) (t : Task) (k : Kernel)
    → new.task ≢ null
    → sys_getpid (running_at new.task (forked new t k)) ≡ int_of k.tasks.next_pid
unfolding sys_getpid forked answer pid_at
getpid-child new t k placed =
    answer-task new.task (pid_at new.task (enlist k.tasks (child_of k.tasks new t)))
      k.tasks.next_pid placed (pid_at-newest k.tasks new t)

getpid-parent :
    (new : Fresh) (t : Task) (k : Kernel)
    → new.task ≢ k.tasks.current_task
    → sys_getpid (forked new t k) ≡ sys_getpid k
unfolding sys_getpid forked answer pid_at
getpid-parent new t k other =
    ap (answer k.tasks.current_task) (pid_at-else k.tasks new t k.tasks.current_task other)

-- SYS_FORK of a current task, for a new task at an address of its own, returns the next pid; that is
-- the number that SYS_GETPID answers when the child runs, and the parent's pid is what it was.
pub syscall_handler-fork :
    (m : Memory) (new : Fresh) (ebx ecx edx : ℕ) (t : Task) (k : Kernel)
    → new.task ≢ null
    → new.task ≢ k.tasks.current_task
    → k.tasks.current_task ≢ null
    → find_task k.tasks.current_task k.tasks.task_list ≡ some t
    → (k' : Kernel) × (syscall_handler m new 2 ebx ecx edx k
        ≡ returned (int_of k.tasks.next_pid) k')
      × (syscall_handler m new 20 ebx ecx edx (running_at new.task k')
          ≡ returned (int_of k.tasks.next_pid) (running_at new.task k'))
      × (sys_getpid k' ≡ sys_getpid k)
unfolding syscall_handler
syscall_handler-fork m new ebx ecx edx t k placed other current found = (
  forked new t k,
  sys_fork-child new t k placed (==_differ _ null current) found,
  ap (λ pid. returned pid (running_at new.task (forked new t k))) (getpid-child new t k placed),
  getpid-parent new t k other,
)
