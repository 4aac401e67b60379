-- ===== src/Task.antt =====
-- kernel/task.c and include/task.h: the tasks, their states and the scheduler; and the interrupt
-- handler of drivers/timer.c, which counts their sleep down.
pub mod Fork
pub mod Pick
pub mod Sleep
pub mod Steps
pub mod Single
pub mod Listing
pub mod Space
pub mod Pids
mod Tests
use vaelen.Prelude.{
  ℕ, zero, suc, ◌+◌, ◌-◌, ◌*◌, ◌%◌, ◌^◌, Bool, true, false, not, ◌&&◌, ◌||◌, Option, none, some,
  List, [], ◌∷◌, map, ◌==◌, ltb, if◌then◌else◌,
}
use vaelen.Prelude.Int.{ℤ, pos, ltb_ℤ}
use vaelen.Mm.Heap.{Ptr, null, kernel_heap_size}
use vaelen.Mm.Frames.{kernel_heap_start}

-- `task_state_t`
pub data TaskState : Type 0 where
  running ready blocked sleeping zombie stopped : TaskState

-- `task_context_t`
pub record Context : Type 0 where
  pub eax : ℕ
  pub ebx : ℕ
  pub ecx : ℕ
  pub edx : ℕ
  pub esi : ℕ
  pub edi : ℕ
  pub esp : ℕ
  pub ebp : ℕ
  pub eip : ℕ
  pub eflags : ℕ
  pub cr3 : ℕ
  pub ss : ℕ
  pub cs : ℕ
  pub ds : ℕ
  pub es : ℕ
  pub fs : ℕ
  pub gs : ℕ

-- `task_t`. `address` is where the structure lies; its `next` is its place in the list.
pub record Task : Type 0 where
  pub address : Ptr
  pub pid : ℕ
  pub name : List ℕ
  pub state : TaskState
  pub context : Context
  pub page_directory : Ptr
  pub kernel_stack : Ptr
  pub kernel_stack_top : ℕ
  pub user_stack : Ptr
  pub sleep_ticks : ℕ
  pub priority : ℤ
  pub exit_code : ℤ
  pub parent : Ptr
  pub heap_start : ℕ
  pub heap_end : ℕ
  pub brk : ℕ

-- The static variables of task.c; `task_list` is what `task_list_head` leads to.
pub record Tasks : Type 0 where
  pub task_list : List Task
  pub current_task : Ptr
  pub idle_task : Ptr
  pub next_pid : ℕ
  pub task_count : ℕ

-- What `kmalloc` and `mm_clone_directory` return to `task_create` and `task_fork`: the addresses of
-- the task, its stack and its page directory, and the physical address of the last.
pub record Fresh : Type 0 where
  pub task : Ptr
  pub stack : Ptr
  pub directory : Ptr
  pub physical : ℕ

abbrev u32 : ℕ → ℕ
u32 n = n % 2 ^ 32

abbrev pub stack_size : ℕ
stack_size = 8192

-- 17 registers of 4 bytes.
abbrev pub context_size : ℕ
context_size = 68

abbrev pub no_context : Context
no_context = record {
  eax = 0;
  ebx = 0;
  ecx = 0;
  edx = 0;
  esi = 0;
  edi = 0;
  esp = 0;
  ebp = 0;
  eip = 0;
  eflags = 0;
  cr3 = 0;
  ss = 0;
  cs = 0;
  ds = 0;
  es = 0;
  fs = 0;
  gs = 0;
}

unfoldable pub init : Tasks → Tasks
init s = record s { task_list = []; current_task = null; next_pid = 1; task_count = 0 }

-- `strncpy(task->name, name, TASK_NAME_MAX - 1)` over zeroed memory, for the bytes before the end.
unfoldable pub copy_name : ℕ → List ℕ → List ℕ
copy_name zero name = []
copy_name (suc n) [] = []
copy_name (suc n) (c ∷ cs) = if c == 0 then [] else c ∷ copy_name n cs

-- What `task_create` writes at the top of the new kernel stack.
unfoldable pub initial_frame : ℕ → Context
initial_frame entry = record no_context {
  eip = entry;
  eflags = 0x202;
  cs = 0x08;
  ss = 0x10;
  ds = 0x10;
  es = 0x10;
  fs = 0x10;
  gs = 0x10;
}

unfoldable pub new_task : Tasks → Fresh → List ℕ → ℕ → ℤ → Task
unfolding copy_name
new_task s new name entry priority = record {
  address = new.task;
  pid = s.next_pid;
  name = copy_name 31 name;
  state = ready;
  context = record no_context {
    esp = u32 (u32 (new.stack + stack_size) + 2 ^ 32 - context_size);
    eip = entry;
    cr3 = new.physical;
  };
  page_directory = new.directory;
  kernel_stack = new.stack;
  kernel_stack_top = u32 (new.stack + stack_size);
  user_stack = null;
  sleep_ticks = 0;
  priority = priority;
  exit_code = pos 0;
  parent = null;
  heap_start = 0;
  heap_end = 0;
  brk = kernel_heap_start + kernel_heap_size;
}

-- A task is put in front of the list, with the next pid.
abbrev pub enlist : Tasks → Task → Tasks
enlist s t = record s {
  task_list = t ∷ s.task_list;
  next_pid = u32 (s.next_pid + 1);
  task_count = u32 (s.task_count + 1);
}

-- The new task, what is written on its stack, and the new state.
unfoldable pub create : Tasks → Fresh → List ℕ → ℕ → ℤ → Task × Context × Tasks
unfolding new_task initial_frame
create s new name entry priority =
    let t = new_task s new name entry priority in (t, initial_frame entry, enlist s t)

-- `*p` for a task of the list.
unfoldable pub find_task : Ptr → List Task → Option Task
find_task p [] = none
find_task p (t ∷ ts) = if t.address == p then some t else find_task p ts

unfoldable pub child_of : Tasks → Fresh → Task → Task
child_of s new t = record t {
  address = new.task;
  pid = s.next_pid;
  state = ready;
  parent = t.address;
  page_directory = new.directory;
  context = record (t.context) { cr3 = new.physical };
  kernel_stack = new.stack;
  kernel_stack_top = u32 (new.stack + stack_size);
}

fork_from : Tasks → Fresh → Option Task → Ptr × Tasks
unfolding child_of
fork_from s new none = (null, s)
fork_from s new (some t) = (new.task, enlist s (child_of s new t))

-- `task_fork`, with the address that it returns.
unfoldable pub fork : Tasks → Fresh → Ptr × Tasks
unfolding fork_from find_task
fork s new =
    if s.current_task == null
    then (null, s)
    else fork_from s new (find_task s.current_task s.task_list)

abbrev pub is_running : TaskState → Bool
is_running running = true
is_running _ = false

abbrev pub is_sleeping : TaskState → Bool
is_sleeping sleeping = true
is_sleeping _ = false

abbrev pub is_runnable : TaskState → Bool
is_runnable ready = true
is_runnable running = true
is_runnable _ = false

-- An assignment to the task at `p`.
abbrev pub at_task : Ptr → (Task → Task) → Task → Task
at_task p f t = if t.address == p then f t else t

abbrev pub on_tasks : (Task → Task) → Tasks → Tasks
on_tasks f s = record s { task_list = map f s.task_list }

abbrev pub to_state : TaskState → Task → Task
to_state q t = record t { state = q }

-- One task's share of the countdown, as `task_schedule` and `timer_handler` write it.
unfoldable pub tick : Task → Task
tick t =
    if is_sleeping t.state && ltb 0 t.sleep_ticks
    then record t {
      sleep_ticks = t.sleep_ticks - 1;
      state = if t.sleep_ticks - 1 == 0 then ready else t.state;
    }
    else t

-- `next_task` after a look at one task.
unfoldable pub prefer : Task → Option Task → Option Task
prefer t none = if is_runnable t.state then some t else none
prefer t (some b) = if is_runnable t.state && ltb_ℤ b.priority t.priority then some t else some b

-- The loop of `task_schedule`: the task to run, and the tasks with their sleep counted down.
unfoldable pub pick : List Task → Option Task → Option Task
unfolding prefer
pick [] best = best
pick (t ∷ ts) best = pick ts (prefer t best)

-- `for (;;) hlt`, or a return with the new state.
pub data Outcome : Type 0 where
  halts : Tasks → Outcome
  runs : Tasks → Outcome

abbrev pub demote : Task → Task
demote t = if is_running t.state then to_state ready t else t

-- `if (p && p->state == TASK_RUNNING) p->state = TASK_READY;`
abbrev pub demote_at : Ptr → Task → Task
demote_at p t = if p == null then t else at_task p demote t

-- The end of `task_schedule`, from the comparison of `next_task` with `current_task`.
unfoldable pub switch_to : Ptr → Tasks → Tasks
switch_to p s = if p == s.current_task then s else record s {
  task_list = map (λ t. demote_at s.current_task (at_task p (to_state running) t)) s.task_list;
  current_task = p;
}

resume : Tasks → Option Task → Outcome
unfolding switch_to
resume s none = if s.idle_task == null then halts s else runs (switch_to s.idle_task s)
resume s (some t) = runs (switch_to t.address s)

unfoldable pub schedule : Tasks → Outcome
unfolding resume pick tick
schedule s = resume (on_tasks tick s) (pick s.task_list none)

-- `current_task->f = …; task_schedule();` where there is a current task.
abbrev pub leave : (Task → Task) → Tasks → Outcome
leave f s =
    if s.current_task == null then runs s else schedule (on_tasks (at_task s.current_task f) s)

unfoldable pub exit : ℤ → Tasks → Outcome
unfolding schedule
exit code = leave (λ t. record t { state = zombie; exit_code = code })

unfoldable pub yield_task : Tasks → Outcome
unfolding schedule
yield_task s = schedule s

unfoldable pub sleep : ℕ → Tasks → Outcome
unfolding schedule
sleep ticks = leave (λ t. record t { sleep_ticks = ticks; state = sleeping })

unfoldable pub wake : Ptr → Tasks → Tasks
wake p = on_tasks (
    at_task p (λ t. if is_sleeping t.state then record t { state = ready; sleep_ticks = 0 } else t))

abbrev pub get_current : Tasks → Ptr
get_current s = s.current_task

abbrev pub get_list_head : Tasks → List Task
get_list_head s = s.task_list

unfoldable pub get_by_pid : ℕ → List Task → Option Task
get_by_pid pid [] = none
get_by_pid pid (t ∷ ts) = if t.pid == pid then some t else get_by_pid pid ts

-- `timer_handler` of drivers/timer.c: the tick count and the tasks.
unfoldable pub timer_handler : ℕ × Tasks → ℕ × Tasks
unfolding tick
timer_handler (timer_ticks, s) = (u32 (timer_ticks + 1), on_tasks tick s)
