-- ===== src/Task/Space/Tests.antt =====
-- The first task on a heap that has not been used.
use vaelen.Prelude.{◌≡◌, refl, some, [], ◌∷◌, arith}
use vaelen.Prelude.Int.{pos}
use vaelen.Mm.Heap.{
  Heap, Outcome, returns, panics, hangs, kmalloc, kmalloc_p, kmalloc_ap, serve, set_up, find_hole,
  carve, split,
}
use vaelen.Mm.Paging.{directory_size}
use vaelen.Mm.Paging.Tests.{mapped}
use vaelen.Task
use vaelen.Task.{Tasks, stack_size}
use vaelen.Task.Space.{task_size, create_task}
use vaelen.Task.Space.First.{switched, create_task-first}

abbrev heap_of : Outcome → Heap
heap_of (returns p h) = h
heap_of panics = mapped.heap
heap_of hangs = mapped.heap

abbrev heap₁ : Heap
heap₁ = heap_of (kmalloc 9 mapped.heap task_size)

abbrev heap₂ : Heap
heap₂ = heap_of (kmalloc 9 heap₁ stack_size)

abbrev heap₃ : Heap
heap₃ = heap_of (kmalloc_ap 9 heap₂ directory_size)

first_served : kmalloc 9 mapped.heap task_size ≡ returns 0xD0000010 heap₁
unfolding kmalloc kmalloc_p kmalloc_ap serve set_up find_hole carve split
first_served = refl

second_served : kmalloc 9 heap₁ stack_size ≡ returns 0xD00000BC heap₂
unfolding kmalloc kmalloc_p kmalloc_ap serve set_up find_hole carve split
second_served = refl

third_served : kmalloc_ap 9 heap₂ directory_size ≡ returns 0xD00020CC heap₃
unfolding kmalloc kmalloc_p kmalloc_ap serve set_up find_hole carve split
third_served = refl

abbrev no_tasks : Tasks
no_tasks = record { task_list = []; current_task = 7; idle_task = 0; next_pid = 9; task_count = 3 }

create_task-first_example :
    switched 0 (create_task 9 (λ dir s. s) (b'a' ∷ []) 0x100500 (pos 1) (Task.init no_tasks) mapped)
    ≡ some (0xD0000010, 0)
create_task-first_example =
    create_task-first 9 (λ dir s. s) mapped 0xD0000010 0xD00000BC 0xD00020CC 0 heap₁ heap₂ heap₃
      no_tasks (b'a' ∷ []) 0x100500 (pos 1) first_served second_served third_served refl
      (omega arith) (omega arith) refl
