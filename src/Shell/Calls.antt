-- ===== src/Shell/Calls.antt =====
-- What the commands of kernel/shell.c get and do.
use Prim.Native.String.{String}
use vaelen.Prelude.{ℕ, List}
use vaelen.Prelude.Int.{ℤ}
use vaelen.Prelude.Text.{bytes}
pub use vaelen.Prelude.Text.{equal}
use vaelen.Printf.{Arg}

-- A call that the shell makes: of `printf` with a format and its arguments, of `vga_clear`, of
-- `outb`, of `timer_sleep`, of `vga_putchar` and of `vga_setcolor`.
pub data Call : Type 0 where
  print : List ℕ → List Arg → Call
  clear : Call
  outb : ℕ → ℕ → Call
  sleep : ℕ → Call
  putchar : ℕ → Call
  set_color : ℕ → Call

-- What a command returns, and the calls that it makes, in order.
abbrev pub Outcome : Type 0
Outcome = ℤ × List Call

-- `args`, without the null pointer at its end.
abbrev pub Args : Type 0
Args = List (List ℕ)

abbrev pub say : String → List Arg → Call
say format args = print (bytes format) args
