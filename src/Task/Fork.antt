-- ===== src/Task/Fork.antt =====
-- What `task_fork` of kernel/task.c returns when there is a current task.
use vaelen.Prelude.{◌≡◌, refl, false, some, ◌==◌}
use vaelen.Mm.Heap.{null}
use vaelen.Task.{Task, Tasks, Fresh, fork, fork_from, child_of, enlist, find_task}

pub fork-child :
    (s : Tasks) (new : Fresh) (t : Task)
    → (s.current_task == null) ≡ false
    → find_task s.current_task s.task_list ≡ some t
    → fork s new ≡ (new.task, enlist s (child_of s new t))
unfolding fork fork_from
fork-child s new t current found = rw current rw found refl
