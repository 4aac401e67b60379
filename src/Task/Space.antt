-- ===== src/Task/Space.antt =====
-- kernel/task.c beside kernel/mm.c: what `task_create` and `task_fork` take from the heap, and the page
-- directory that `task_schedule` switches to.
pub mod First
mod Tests
use vaelen.Prelude.{ℕ, ◌+◌, ◌*◌, Bool, true, false, ◌==◌, if◌then◌else◌, Option, none, some, List}
use vaelen.Prelude.Int.{ℤ}
use vaelen.Mm.Heap.{Ptr, null, Heap, Outcome, returns, panics, hangs, kmalloc}
use vaelen.Mm.Paging.{
  Paging, Result, finished, panicked, unfinished, ◌>>=◌, heap_exhausted, switch_page_directory,
}
use vaelen.Mm.Paging.Clone.{Copies, clone_directory}
use vaelen.Task
use vaelen.Task.{
  Task, Context, Tasks, Fresh, stack_size, context_size, create, fork, find_task, schedule,
}

-- `sizeof(task_t)`
abbrev pub task_size : ℕ
task_size = 4 + 32 + 4 + context_size + 4 * 4 + 3 * 4 + 2 * 4 + 3 * 4

unfoldable pub after_kmalloc : Paging → Outcome → Result Ptr
after_kmalloc s (returns p heap) = finished p (record s { heap = heap })
after_kmalloc s panics = panicked heap_exhausted
after_kmalloc s hangs = unfinished

-- `kmalloc`, with its panic.
abbrev pub take : ℕ → ℕ → Paging → Result Ptr
take fuel size s = after_kmalloc s (kmalloc fuel s.heap size)

-- `task->page_directory->physical_addr`
abbrev pub physical_of : Ptr → Paging → ℕ
physical_of directory s = (s.directories directory).physical_addr

-- The three, once the directory is cloned.
abbrev pub with_clone : Ptr → Ptr → Ptr × Copies → Paging → Result Fresh
with_clone task stack (directory, copies) s =
    finished
      (record {
        task = task;
        stack = stack;
        directory = directory;
        physical = physical_of directory s;
      })
      s

abbrev pub with_stack : ℕ → (Ptr → Paging → Paging) → Ptr → Ptr → Paging → Result Fresh
with_stack fuel scribble task stack s = clone_directory fuel scribble s >>= with_clone task stack

-- What the rest of `task_create` gets, in the order of its calls: the task, its stack and a clone of
-- the directory.
unfoldable pub fresh_to_create : ℕ → (Ptr → Paging → Paging) → Paging → Result Fresh
unfolding after_kmalloc
fresh_to_create fuel scribble s =
    take fuel task_size s >>= (λ task s'. take fuel stack_size s' >>= with_stack fuel scribble task)

-- `task_fork` takes the stack last.
unfoldable pub fresh_to_fork : ℕ → (Ptr → Paging → Paging) → Paging → Result Fresh
unfolding after_kmalloc
fresh_to_fork fuel scribble s = take fuel task_size s >>= (λ task s₁.
    clone_directory fuel scribble s₁ >>= (λ cloned s₂. take fuel stack_size s₂ >>= (λ stack s₃.
      finished
        (record {
          task = task;
          stack = stack;
          directory = cloned.0;
          physical = physical_of cloned.0 s₂;
        })
        s₃)))

module _ (fuel : ℕ) (scribble : Ptr → Paging → Paging) where
  -- `task_create` as a whole.
  unfoldable pub create_task : List ℕ → ℕ → ℤ → Tasks → Paging → Result (Task × Context × Tasks)
  unfolding fresh_to_create
  create_task name entry priority tasks s =
      fresh_to_create fuel scribble s
      >>= (λ new s'. finished (create tasks new name entry priority) s')

  -- `task_fork` as a whole.
  unfoldable pub fork_task : Tasks → Paging → Result (Ptr × Tasks)
  unfolding fresh_to_fork
  fork_task tasks s =
      if tasks.current_task == null
      then finished (null, tasks) s
      else fresh_to_fork fuel scribble s >>= (λ new s'. finished (fork tasks new) s')

-- `next_task->page_directory`, where `idle` is that of the task that `idle_task` points to.
abbrev pub directory_of : Ptr → Option Task → Ptr
directory_of idle none = idle
directory_of idle (some t) = t.page_directory

-- What `task_schedule` does to paging when it does not halt.
unfoldable pub after_schedule : Ptr → Ptr → Task.Outcome → Paging → Task.Outcome × Paging
after_schedule idle old (Task.halts tasks) s = (Task.halts tasks, s)
after_schedule idle old (Task.runs tasks) s = (
  Task.runs tasks,
  if tasks.current_task == old
      then s
      else switch_page_directory (directory_of idle (find_task tasks.current_task tasks.task_list))
          s,
)

-- `task_schedule` as a whole.
unfoldable pub schedule_task : Ptr → Tasks → Paging → Task.Outcome × Paging
unfolding after_schedule
schedule_task idle tasks s = after_schedule idle tasks.current_task (schedule tasks) s
