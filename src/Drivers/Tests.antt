-- ===== src/Drivers/Tests.antt =====
-- The drivers' theorems at concrete states.
use mathlib.Core.Bool.{xor}
use vaelen.Prelude.{List}
use vaelen.Prelude.{
  ◌+◌, ◌*◌, ◌/◌, some, ℕ, ◌≡◌, refl, true, [], ◌∷◌, ◌++◌, arith, if◌then◌else◌, ◌==◌, ◌≤◌,
}
use vaelen.Drivers.Keyboard.{Keyboard, blank, handler}
use vaelen.Drivers.Keyboard.{decode}
use vaelen.Drivers.Keyboard.Stream.{Event, press, look, run, due, run-due}
use vaelen.Drivers.Keyboard.Queue.{IsRing, contents, enqueue, typed, handler-Queue}
use vaelen.Drivers.Timer.{Timer, timer_sleep, at_tick, timer_sleep-reached}
use vaelen.Drivers.Vga.{Console, putchar}
use vaelen.Drivers.Vga.Written.{Written}
use vaelen.Drivers.Vga.Cursor.{OnScreen, position, cursor_bytes, putchar-OnScreen}
use vaelen.Drivers.Vga.Plain.{Typed, putchar-Typed}

-- The characters h and i wait at the end of the buffer and at its start.
abbrev two_waiting : Keyboard
two_waiting = record blank {
  kb_buffer = λ i. if i == 255 then 104 else 105;
  kb_buf_head = 255;
  kb_buf_tail = 1;
  kb_buf_count = 2;
  caps_lock = true;
}

two_waiting-IsRing : IsRing two_waiting
two_waiting-IsRing = record {
  head_bound = omega arith;
  count_bound = omega arith;
  tail_place = refl;
}

handler-Queue_example :
    IsRing (handler 0x1E two_waiting)
    × (contents (handler 0x1E two_waiting)
        ≡ enqueue (typed two_waiting 0x1E) (contents two_waiting))
handler-Queue_example = handler-Queue two_waiting 0x1E two_waiting-IsRing (omega arith)

abbrev last_cell : Console
last_cell = record { vga_color = 7; vga_buffer = λ p. p; cursor_x = 79; cursor_y = 24; ports = [] }

last_cell-OnScreen : OnScreen last_cell
last_cell-OnScreen = record { column = omega arith; row = omega arith }

putchar-OnScreen_example :
    OnScreen (putchar 9 last_cell)
    × ((p : ℕ) → 2000 ≤ p → (putchar 9 last_cell).vga_buffer p ≡ last_cell.vga_buffer p)
    × ((putchar 9 last_cell).ports
        ≡ last_cell.ports ++ cursor_bytes (position (putchar 9 last_cell)))
putchar-OnScreen_example = putchar-OnScreen 9 last_cell last_cell-OnScreen

putchar-Typed_example : Typed 65 last_cell (putchar 65 last_cell)
putchar-Typed_example =
    putchar-Typed 65 last_cell (omega arith, omega arith, omega arith, omega arith)
      last_cell-OnScreen

-- A text over the end of the first line.
abbrev line_end : Console
line_end = record { vga_color = 7; vga_buffer = λ p. p; cursor_x = 78; cursor_y = 0; ports = [] }

-- 100 ticks in a second, of which seven have passed.
abbrev seventh_tick : Timer
seventh_tick = record { timer_ticks = 7; timer_frequency = 100 }

timer_sleep-reached_example :
    timer_sleep 250 (250 * 100 / 1000 + 4) seventh_tick
    ≡ some (at_tick (7 + 250 * 100 / 1000) seventh_tick)
timer_sleep-reached_example = timer_sleep-reached 250 4 seventh_tick (omega arith) (omega arith)

-- The key of a, a look, Shift and the same key, and two looks.
abbrev keys_and_looks : List Event
keys_and_looks = press 0x1E ∷ look ∷ press 0x2A ∷ press 0x1E ∷ press 0xAA ∷ look ∷ look ∷ []

run-due_example :
    IsRing (run keys_and_looks blank).1
    × ((run keys_and_looks blank).0 ++ contents (run keys_and_looks blank).1
        ≡ due keys_and_looks blank)
run-due_example =
    run-due keys_and_looks blank
      (record { head_bound = omega arith; count_bound = omega arith; tail_place = refl })
      (omega arith, (omega arith, (omega arith, (omega arith, tt)))) (omega arith)

due_keys : due keys_and_looks blank ≡ 97 ∷ 65 ∷ []
unfolding decode xor
due_keys = refl
