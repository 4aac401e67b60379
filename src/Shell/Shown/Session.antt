-- ===== src/Shell/Shown/Session.antt =====
-- What `shell_run` of kernel/shell.c puts on the screen.
use vaelen.Prelude.{
  ℕ, zero, suc, ◌^◌, ◌<◌, ◌≡◌, refl, Bool, true, false, if◌then◌else◌, List, [], ◌∷◌, map, Option,
  none, some,
}
use vaelen.Prelude.Int.{pos, ltb_ℤ}
use vaelen.Strings.{Bytes}
use vaelen.Mm.Frames.{Frames}
use vaelen.Drivers.Vga.{Console}
use vaelen.Shell.Calls.{Call, putchar, Outcome, Args, equal}
use vaelen.Shell.Table.{Entry, commands}
use vaelen.Shell.Dispatch.{History, run_named, call}
use vaelen.Shell.Line.{Read, get_line, max_line, split}
use vaelen.Shell.Run.{
  Session, returned, waits, unfinished, with_calls, run_args, execute, after_command, after_line,
  rounds, shell_run, prompt, opening,
}
use vaelen.Shell.Shown.{show, Shown, all_typed, show-Shown, all_typed-++}
use vaelen.Shell.Shown.Commands.{types, types-if, types-call}

-- The calls of a session that has returned, waits for a key, or has used up its rounds.
abbrev pub calls_of : Session → List Call
calls_of (returned calls) = calls
calls_of (waits calls) = calls
calls_of (unfinished calls) = calls

types-run_named :
    (name : List ℕ) (table : List Entry) (frames : Frames) (h : History) (args : Args)
    → frames.total_memory < 2 ^ 32
    → types (run_named name table frames h args) ≡ true
unfolding run_named
types-run_named name [] frames h args word_size = refl
types-run_named name (e ∷ es) frames h args word_size =
    types-if (equal name e.name) (call e.func frames h args) (run_named name es frames h args)
      (types-call e.func frames h args word_size) (types-run_named name es frames h args word_size)

module _ (frames : Frames) (word_size : frames.total_memory < 2 ^ 32) where
  types-execute : (line : List ℕ) (h : History) → types (execute line frames h) ≡ true
  unfolding execute run_args
  types-execute line h = go (split line)
    where
      go : (args : Args) → types (run_args args frames h) ≡ true
      go [] = refl
      go (name ∷ args) = types-run_named name commands frames h (name ∷ args) word_size

  typed-with_calls :
      (calls : List Call) (session : Session)
      → all_typed calls ≡ true
      → all_typed (calls_of session) ≡ true
      → all_typed (calls_of (with_calls calls session)) ≡ true
  typed-with_calls calls (returned more) e e' = all_typed-++ calls more e e'
  typed-with_calls calls (waits more) e e' = all_typed-++ calls more e e'
  typed-with_calls calls (unfinished more) e e' = all_typed-++ calls more e e'

  typed-if :
      (b : Bool) (s t : Session)
      → all_typed (calls_of s) ≡ true
      → all_typed (calls_of t) ≡ true
      → all_typed (calls_of (if b then s else t)) ≡ true
  typed-if true s t e e' = e
  typed-if false s t e e' = e'

  typed-after_command :
      (o : Outcome) (next : Session)
      → types o ≡ true
      → all_typed (calls_of next) ≡ true
      → all_typed (calls_of (after_command o next)) ≡ true
  unfolding after_command
  typed-after_command (status, calls) next e e' =
      typed-if (ltb_ℤ status (pos 0)) _ _ (all_typed-++ calls _ e refl)
        (typed-with_calls calls next e e')

  typed-echoed : (cs : List ℕ) → all_typed (map putchar cs) ≡ true
  typed-echoed [] = refl
  typed-echoed (c ∷ cs) = typed-echoed cs

  typed-after_line :
      (r : Read) (next : Session)
      → all_typed (calls_of next) ≡ true
      → all_typed (calls_of (after_line frames r next)) ≡ true
  unfolding after_line
  typed-after_line r next e = go r.line
    where
      go :
          (line : List ℕ)
          → all_typed (calls_of (after_line frames (record r { line = line }) next)) ≡ true
      go [] = typed-with_calls (map putchar r.echoed) next (typed-echoed r.echoed) e
      go (c ∷ cs) = typed-with_calls (map putchar r.echoed) _ (typed-echoed r.echoed) (
          typed-after_command (execute (c ∷ cs) frames r.shell) next
            (types-execute (c ∷ cs) r.shell) e)

  typed-read :
      (o : Option Read) (next : Read → Session)
      → ((r : Read) → all_typed (calls_of (next r)) ≡ true)
      → all_typed (
          calls_of (elim o [
            | none ↦ waits (prompt ∷ [])
            | some r ↦ with_calls (prompt ∷ []) (after_line frames r (next r))
          ]))
        ≡ true
  typed-read none next e = refl
  typed-read (some r) next e =
      typed-with_calls (prompt ∷ []) (after_line frames r (next r)) refl
        (typed-after_line r (next r) (e r))

  typed-rounds :
      (fuel : ℕ) (keys : List ℕ) (h : History)
      → all_typed (calls_of (rounds fuel frames keys h)) ≡ true
  unfolding rounds
  typed-rounds zero keys h = refl
  typed-rounds (suc fuel) keys h =
      typed-read (get_line max_line keys h) (λ r. rounds fuel frames r.unread r.shell)
        (λ r. typed-rounds fuel r.unread r.shell)

-- Whatever lines are typed, every call that `shell_run` makes, of all commands, can be shown: no
-- `printf` reads an argument that it was not given or one of the other kind, or behind its
-- format, whatever the stack holds. The memory that `free` prints is a word.
pub shell_run-Shown :
    (stack : Bytes) (fuel : ℕ) (frames : Frames) (keys : List ℕ) (h : History) (v : Console)
    → frames.total_memory < 2 ^ 32
    → Shown (show stack (calls_of (shell_run fuel frames keys h)) v)
unfolding shell_run
shell_run-Shown stack fuel frames keys h v word_size = show-Shown stack _ v (
    typed-with_calls frames word_size opening (rounds fuel frames keys h) refl
      (typed-rounds frames word_size fuel keys h))
