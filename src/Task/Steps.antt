-- ===== src/Task/Steps.antt =====
-- What can happen to the tasks of kernel/task.c: calls of its functions, and timer interrupts.
use vaelen.Prelude.{ℕ, ◌+◌, ◌^◌, ◌<◌, ◌≡◌, ◌≢◌, List, [], ◌∷◌, map, All}
use vaelen.Prelude.Int.{ℤ}
use vaelen.Mm.Heap.{Ptr, null}
use vaelen.Task.{
  Task, Tasks, Fresh, runs, create, fork, exit, yield_task, sleep, wake, timer_handler,
}

-- A call that returns, or an interrupt. The allocator gives no null pointer (it panics instead),
-- and the pids have not run out.
pub data Step (s : Tasks) (s' : Tasks) : Type 0 where
  created :
      (new : Fresh) (name : List ℕ) (entry : ℕ) (priority : ℤ)
      → new.task ≢ null
      → s.next_pid + 1 < 2 ^ 32
      → s' ≡ (create s new name entry priority).2
      → Step s s'
  forked :
      (new : Fresh) → new.task ≢ null → s.next_pid + 1 < 2 ^ 32 → s' ≡ (fork s new).1 → Step s s'
  exited : (code : ℤ) → exit code s ≡ runs s' → Step s s'
  yielded : yield_task s ≡ runs s' → Step s s'
  slept : (ticks : ℕ) → sleep ticks s ≡ runs s' → Step s s'
  woken : (p : Ptr) → s' ≡ wake p s → Step s s'
  interrupted : (timer_ticks : ℕ) → s' ≡ (timer_handler (timer_ticks, s)).1 → Step s s'

pub data Reach (s : Tasks) : Tasks → Type 0 where
  start : Reach s s
  next : {t u : Tasks} → Reach s t → Step t u → Reach s u

pub All-map :
    (P Q : Task → Type 0) (f : Task → Task) (ts : List Task)
    → ((t : Task) → P t → Q (f t))
    → All P ts
    → All Q (map f ts)
All-map P Q f [] h a = tt
All-map P Q f (t ∷ ts) h a = (h t a.0, All-map P Q f ts h a.1)
