-- ===== src/Task/Listing.antt =====
-- kernel/task.c: `task_list`, which prints the tasks.
use vaelen.Prelude.{ℕ, ◌-◌, ◌%◌, ◌^◌, ◌<◌, ◌≡◌, refl, Option, some, List, [], ◌∷◌, ◌++◌, arith}
use vaelen.Prelude.Int.{ℤ, pos, negsuc}
use vaelen.Prelude.Text.{bytes}
use vaelen.Strings.{Bytes}
use vaelen.Strings.Numbers.{itoa}
use vaelen.Strings.Numbers.Decimal.{decimal_text, itoa-Holds}
use vaelen.Printf.{puts, ◌>>=◌}
use vaelen.Printf.Numbers.{puts-Holds, length-decimal_text}
use vaelen.Task.{Task, TaskState, running, ready, blocked, sleeping, zombie, stopped}

-- `states[task->state]`
abbrev pub state_name : TaskState → List ℕ
state_name running = bytes "RUN"
state_name ready = bytes "RDY"
state_name blocked = bytes "BLK"
state_name sleeping = bytes "SLP"
state_name zombie = bytes "ZMB"
state_name stopped = bytes "STP"

-- An `int` as a word.
abbrev pub word_of : ℤ → ℕ
word_of (pos n) = n % 2 ^ 32
word_of (negsuc n) = 2 ^ 32 - 1 - n

-- `vga_puts(itoa(n, buf, 10))`, for what `buf` of 80 bytes holds before.
unfoldable pub put_number : Bytes → ℕ → Option (List ℕ)
put_number buf n = puts 80 0 (itoa n 0 10 buf)

-- What a round of the loop prints.
abbrev pub row : Bytes → Task → Option (List ℕ)
row buf t = do
  pid ← put_number buf t.pid
  priority ← put_number (itoa t.pid 0 10 buf) (word_of t.priority)
  some (
      pid
      ++ bytes "   "
      ++ t.name
      ++ bytes "  "
      ++ state_name t.state
      ++ bytes "  "
      ++ priority
      ++ bytes "\n")

unfoldable pub rows : Bytes → List Task → Option (List ℕ)
unfolding put_number
rows buf [] = some []
rows buf (t ∷ ts) = do first ← row buf t; rest ← rows buf ts; some (first ++ rest)

abbrev pub heading : List ℕ
heading =
    bytes "PID   NAME                STATE     PRI\n"
    ++ bytes "----  ------------------- --------- ---\n"

-- `task_list`: what it prints, for what its buffer holds.
unfoldable pub task_list : Bytes → List Task → Option (List ℕ)
unfolding rows
task_list buf ts = do table ← rows buf ts; some (heading ++ table)

put_number-decimal : (buf : Bytes) (n : ℕ) → n < 2 ^ 32 → put_number buf n ≡ some (decimal_text n)
unfolding put_number
put_number-decimal buf n small =
    puts-Holds (decimal_text n) 80 0 (itoa n 0 10 buf) (omega (arith, length-decimal_text n small))
      (itoa-Holds n 0 buf)

-- The line of a task: its pid, name, state and priority.
abbrev pub line : Task → List ℕ
line t =
    decimal_text t.pid
    ++ bytes "   "
    ++ t.name
    ++ bytes "  "
    ++ state_name t.state
    ++ bytes "  "
    ++ decimal_text (word_of t.priority)
    ++ bytes "\n"

abbrev pub lines : List Task → List ℕ
lines [] = []
lines (t ∷ ts) = line t ++ lines ts

abbrev pub AllWords : List Task → Type 0
AllWords [] = Unit {0}
AllWords (t ∷ ts) = (t.pid < 2 ^ 32) × AllWords ts

word_of-word : (z : ℤ) → word_of z < 2 ^ 32
word_of-word (pos n) = omega arith
word_of-word (negsuc n) = omega arith

rows-lines : (buf : Bytes) (ts : List Task) → AllWords ts → rows buf ts ≡ some (lines ts)
unfolding rows
rows-lines buf [] words = refl
rows-lines buf (t ∷ ts) (word, words) =
    rw (put_number-decimal buf t.pid word) rw
      (put_number-decimal (itoa t.pid 0 10 buf) (word_of t.priority) (word_of-word t.priority)) rw
      (rows-lines buf ts words) refl

-- `task_list` prints two lines of heading and then a line for each task, in the order of the list, with
-- its pid and its priority in decimal, whatever its buffer holds, and it ends.
pub task_list-lines :
    (buf : Bytes) (ts : List Task) → AllWords ts → task_list buf ts ≡ some (heading ++ lines ts)
unfolding task_list
task_list-lines buf ts words = rw (rows-lines buf ts words) refl
