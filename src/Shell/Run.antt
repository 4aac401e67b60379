-- ===== src/Shell/Run.antt =====
-- kernel/shell.c: `shell_execute` and the loop of `shell_run`.
pub mod Ends
pub mod Exit
use vaelen.Prelude.{
  ℕ, zero, suc, Bool, true, false, ltb, if◌then◌else◌, List, [], ◌∷◌, ◌++◌, map, Option, none, some,
}
use vaelen.Prelude.Int.{ℤ, pos, negsuc, ltb_ℤ}
use vaelen.Prelude.Text.{bytes}
use vaelen.Mm.Frames.{Frames}
use vaelen.Printf.{text}
use vaelen.Shell.Calls.{Call, putchar, set_color, Outcome, Args, say}
use vaelen.Shell.Table.{commands}
use vaelen.Shell.Basic.{kernel_name, kernel_version, kernel_codename}
use vaelen.Shell.Dispatch.{History, run_named}
use vaelen.Shell.Line.{Read, max_line, get_line, split}

unfoldable pub run_args : Args → Frames → History → Outcome
run_args [] frames h = (pos 0, [])
run_args (name ∷ args) frames h = run_named name commands frames h (name ∷ args)

unfoldable pub execute : List ℕ → Frames → History → Outcome
unfolding run_args
execute line frames h = run_args (split line) frames h

-- The shell has returned, waits for a key, or has used up its rounds; with the calls it has made.
pub data Session : Type 0 where
  returned waits unfinished : List Call → Session

abbrev pub with_calls : List Call → Session → Session
with_calls calls (returned more) = returned (calls ++ more)
with_calls calls (waits more) = waits (calls ++ more)
with_calls calls (unfinished more) = unfinished (calls ++ more)

-- What follows `shell_execute`; `next` is the next round.
unfoldable pub after_command : Outcome → Session → Session
after_command (status, calls) next =
    if ltb_ℤ status (pos 0)
    then returned (calls ++ (say "\nVaelen Linux shell terminated.\n" [] ∷ []))
    else with_calls calls next

-- What follows `shell_getline` in a round.
unfoldable pub after_line : Frames → Read → Session → Session
unfolding after_command
after_line frames r next = with_calls (map putchar r.echoed) (obey r.line)
  where
    obey : List ℕ → Session
    obey [] = next
    obey (c ∷ cs) = after_command (execute (c ∷ cs) frames r.shell) next

abbrev pub prompt : Call
prompt = say "root@vaelen:~# " []

-- The loop of `shell_run`, in at most `fuel` rounds, for the keys that will be typed.
unfoldable pub rounds : ℕ → Frames → List ℕ → History → Session
unfolding after_line
rounds zero frames keys h = unfinished []
rounds (suc fuel) frames keys h = elim (get_line max_line keys h) [
  | none ↦ waits (prompt ∷ [])
  | some r ↦ with_calls (prompt ∷ []) (after_line frames r (rounds fuel frames r.unread r.shell))
]

abbrev pub banner : List ℕ
banner =
    bytes
      "\n  \\  /  _  | |    ___  _ __  \n   \\/  /_\\ | |   / _ \\| '_ \\ \n   /  / _ \\| |__|  __/| | | |\n  /  /_/ \\_\\____\\___||_| |_|\n\n"

-- The calls of `shell_run` in front of its loop.
abbrev pub opening : List Call
opening =
    set_color 0x07
    ∷ say "%s" (text banner ∷ [])
    ∷ say "%s v%s (%s) - Kernel built for physical hardware\n"
        (text kernel_name ∷ text kernel_version ∷ text kernel_codename ∷ [])
    ∷ say "Type 'help' for a list of available commands.\n\n" []
    ∷ []

unfoldable pub shell_run : ℕ → Frames → List ℕ → History → Session
unfolding rounds
shell_run fuel frames keys h = with_calls opening (rounds fuel frames keys h)
