-- ===== src/Task/Tests.antt =====
-- Runs of the scheduler, and its theorems at concrete states.
use vaelen.Prelude.{ℕ, ◌≡◌, refl, none, some, [], ◌∷◌, arith}
use vaelen.Prelude.Int.{pos}
use vaelen.Mm.Heap.{null}
use vaelen.Task.{
  Task, TaskState, running, ready, sleeping, zombie, Tasks, Fresh, no_context, halts, runs, create,
  schedule, exit, timer_handler, yield_task, sleep, find_task, pick, switch_to,
}
use vaelen.Task.Steps.{Reach, start, next, created, interrupted, yielded}
use vaelen.Task.Single.{OnlyCurrentRuns, Reach-OnlyCurrentRuns}
use vaelen.Task.Pids.{IsNumbered, Reach-IsNumbered}
use vaelen.Task.Sleep.{no_round, sleep-Rounds}
use vaelen.Task.Sleep
use vaelen.Task.Pick.{IsBest, pick-IsBest}

abbrev task : ℕ → ℕ → TaskState → ℕ → ℕ → Task
task address pid state priority ticks = record {
  address = address;
  pid = pid;
  name = [];
  state = state;
  context = no_context;
  page_directory = 0;
  kernel_stack = 0;
  kernel_stack_top = 0;
  user_stack = 0;
  sleep_ticks = ticks;
  priority = pos priority;
  exit_code = pos 0;
  parent = 0;
  heap_start = 0;
  heap_end = 0;
  brk = 0;
}

-- Three tasks, the running one last in the list, the first asleep for three ticks.
abbrev three : Tasks
three = record {
  task_list = task 300 3 sleeping 9 3 ∷ task 200 2 ready 5 0 ∷ task 100 1 running 4 0 ∷ [];
  current_task = 100;
  idle_task = null;
  next_pid = 4;
  task_count = 3;
}

-- The higher priority wins, and the sleeper is counted down.
abbrev scheduled : Tasks
scheduled = record three {
  task_list = task 300 3 sleeping 9 2 ∷ task 200 2 running 5 0 ∷ task 100 1 ready 4 0 ∷ [];
  current_task = 200;
}

schedule-three : schedule three ≡ runs scheduled
unfolding schedule switch_to
schedule-three = refl

nobody_left :
    exit (pos 0) (record three { task_list = task 100 1 running 4 0 ∷ [] })
    ≡ halts (record three { task_list = task 100 1 zombie 4 0 ∷ [] })
unfolding exit
nobody_left = refl

abbrev block_of : Fresh
block_of = record { task = 400; stack = 5000; directory = 600; physical = 700 }

three-more : Reach three (timer_handler (0, (create scheduled block_of [] 0 (pos 1)).2)).1
unfolding yield_task
three-more =
    next
      (next (next start (yielded schedule-three))
        (created block_of [] 0 (pos 1) (omega arith) (omega arith) refl))
      (interrupted 0 refl)

three-OnlyCurrentRuns : OnlyCurrentRuns three
three-OnlyCurrentRuns = (
  record { current = λ e. cc; placed = omega arith },
  (
    record { current = λ e. cc; placed = omega arith },
    (record { current = λ e. refl; placed = omega arith }, tt),
  ),
)

Reach-OnlyCurrentRuns_example :
    OnlyCurrentRuns (timer_handler (0, (create scheduled block_of [] 0 (pos 1)).2)).1
Reach-OnlyCurrentRuns_example = Reach-OnlyCurrentRuns three-more three-OnlyCurrentRuns

three-IsNumbered : IsNumbered three
three-IsNumbered = record { falling = omega arith; counted = refl }

Reach-IsNumbered_example :
    IsNumbered (timer_handler (0, (create scheduled block_of [] 0 (pos 1)).2)).1
Reach-IsNumbered_example = Reach-IsNumbered three-more three-IsNumbered

-- The running task of the three goes to sleep for two ticks; `task_schedule` counts the first.
abbrev one_left : Tasks
one_left = record three {
  task_list = task 300 3 sleeping 9 2 ∷ task 200 2 running 5 0 ∷ task 100 1 sleeping 4 1 ∷ [];
  current_task = 200;
}

sleep-three : sleep 2 three ≡ runs one_left
unfolding sleep schedule switch_to
sleep-three = refl

find_task-three : find_task 100 three.task_list ≡ some (task 100 1 running 4 0)
unfolding find_task
find_task-three = refl

sleep-Rounds_example :
    (t' : Task) × (find_task 100 (timer_handler (0, one_left)).1.task_list ≡ some t')
    × (t'.sleep_ticks ≡ 0)
    × (t'.state ≡ ready)
sleep-Rounds_example =
    sleep-Rounds three one_left 2 (task 100 1 running 4 0) (omega arith) refl find_task-three
      sleep-three 1 (timer_handler (0, one_left)).1 (omega arith)
      (Sleep.interrupted 0 no_round refl)

pick-IsBest_example : IsBest three.task_list (pick three.task_list none)
pick-IsBest_example = pick-IsBest three.task_list
