-- ===== src/Task/Space/First.antt =====
-- The first task of kernel/task.c: what `task_create` gives it, and what `task_schedule` loads for it.
use vaelen.Prelude.{
  ==_same, ==_differ, ℕ, ◌≡◌, ◌≢◌, refl, ap, ◌∙◌, Bool, if◌then◌else◌, Option, none, some, List,
}
use vaelen.Prelude.Int.{ℤ}
use vaelen.Mm.Heap.{Ptr, null, Heap, Outcome, returns, kmalloc, kmalloc_ap}
use vaelen.Mm.Paging.{
  Paging, Result, finished, panicked, unfinished, ◌>>=◌, directory_size, switch_page_directory,
}
use vaelen.Mm.Paging.Clone.{Copies}
use vaelen.Mm.Paging.Clone.Tables.{put, first_tables}
use vaelen.Mm.Paging.Clone.Whole.{clone_directory-shared}
use vaelen.Task
use vaelen.Task.{
  Task, Context, Tasks, Fresh, stack_size, create, schedule, pick, prefer, tick, switch_to, resume,
  new_task, find_task, initial_frame,
}
use vaelen.Task.Space.{
  task_size, after_kmalloc, take, with_stack, with_clone, fresh_to_create, create_task,
  after_schedule, schedule_task,
}

-- The current task and CR3 behind a `task_schedule` that returns.
abbrev pub loaded : Task.Outcome × Paging → Option (Ptr × ℕ)
loaded (Task.halts tasks, s) = none
loaded (Task.runs tasks, s) = some (tasks.current_task, s.cr3)

-- The same, where `task_schedule` follows a `task_create`.
abbrev pub switched : Ptr → Result (Task × Context × Tasks) → Option (Ptr × ℕ)
switched idle (finished (t, frame, tasks) s) = loaded (schedule_task idle tasks s)
switched idle (panicked message) = none
switched idle unfinished = none

module _ (fuel : ℕ) (scribble : Ptr → Paging → Paging) (s : Paging) (task stack dir : Ptr)
    (h₁ h₂ h₃ : Heap) where
  new : Fresh
  new = record { task = task; stack = stack; directory = dir; physical = 0 }

  made : Paging
  made = put dir (first_tables 1024 (s.directories s.kernel_directory)) (record s { heap = h₃ })

  made-physical : (made.directories dir).physical_addr ≡ 0
  unfolding made
  made-physical =
      ap
        (λ (b : Bool).
          (if b
            then first_tables 1024 (s.directories s.kernel_directory)
            else s.directories dir).physical_addr)
        (==_same dir dir refl)

  fresh_to_create-shared :
      kmalloc fuel s.heap task_size ≡ returns task h₁
      → kmalloc fuel h₁ stack_size ≡ returns stack h₂
      → kmalloc_ap fuel h₂ directory_size ≡ returns dir h₃
      → scribble dir (record s { heap = h₃ }) ≡ record s { heap = h₃ }
      → dir ≢ s.kernel_directory
      → s.current_directory ≡ s.kernel_directory
      → fresh_to_create fuel scribble s ≡ finished new made
  unfolding fresh_to_create new made
  fresh_to_create-shared out₁ out₂ out₃ missed apart current =
      ap
        (λ (o : Outcome).
          after_kmalloc s o >>= (λ t s'. take fuel stack_size s' >>= with_stack fuel scribble t))
        out₁
      ∙ ap
          (λ (o : Outcome).
            after_kmalloc (record s { heap = h₁ }) o >>= with_stack fuel scribble task)
          out₂
      ∙ ap (λ (r : Result (Ptr × Copies)). r >>= with_clone task stack)
          (clone_directory-shared fuel scribble (record s { heap = h₂ }) dir h₃ out₃ missed apart
            current)
      ∙ ap (λ (n : ℕ). finished (record new { physical = n }) made) made-physical

-- The tasks when the first one is made, and `task_schedule` then.
module _ (idle : Ptr) (blank : Tasks) (new : Fresh) (name : List ℕ) (entry : ℕ) (priority : ℤ) where
  only : Task
  only = new_task (Task.init blank) new name entry priority

  schedule_task-first :
      (s : Paging)
      → new.task ≢ null
      → switched idle (finished (create (Task.init blank) new name entry priority) s)
        ≡ some (new.task, (s.directories new.directory).physical_addr)
  unfolding create Task.init schedule_task after_schedule schedule resume pick prefer tick switch_to
      new_task find_task switch_page_directory
  schedule_task-first s there =
      rw (==_differ new.task 0 there) rw (==_same new.task new.task refl) rw
        (==_same new.task new.task refl) rw (==_differ new.task 0 there) refl

-- The first task: when `kmalloc` has room for it, for its stack and for its directory, and the current
-- directory is the kernel's, `task_create` makes it, and `task_schedule` then runs it with CR3 set
-- to 0, whatever its directory's address is. The room for the directory is not the kernel's, and
-- the write of `mm_clone_directory` through the pointer that is not set hits nothing that counts.
pub create_task-first :
    (fuel : ℕ) (scribble : Ptr → Paging → Paging) (s : Paging) (task stack dir idle : Ptr)
    (h₁ h₂ h₃ : Heap) (blank : Tasks) (name : List ℕ) (entry : ℕ) (priority : ℤ)
    → kmalloc fuel s.heap task_size ≡ returns task h₁
    → kmalloc fuel h₁ stack_size ≡ returns stack h₂
    → kmalloc_ap fuel h₂ directory_size ≡ returns dir h₃
    → scribble dir (record s { heap = h₃ }) ≡ record s { heap = h₃ }
    → task ≢ null
    → dir ≢ s.kernel_directory
    → s.current_directory ≡ s.kernel_directory
    → switched idle (create_task fuel scribble name entry priority (Task.init blank) s)
      ≡ some (task, 0)
unfolding create_task new
create_task-first fuel scribble s task stack dir idle h₁ h₂ h₃ blank name entry priority out₁ out₂
      out₃ missed there apart current =
    ap
      (λ (r : Result Fresh).
        switched idle
          (r >>= (λ new s'. finished (create (Task.init blank) new name entry priority) s')))
      (fresh_to_create-shared fuel scribble s task stack dir h₁ h₂ h₃ out₁ out₂ out₃ missed apart
        current)
    ∙ schedule_task-first idle blank (new fuel scribble s task stack dir h₁ h₂ h₃) name entry
        priority _ there
    ∙ ap (λ (n : ℕ). some (task, n)) (made-physical fuel scribble s task stack dir h₁ h₂ h₃)
