-- ===== src/Shell/Run/Exit.antt =====
-- Which command makes the loop of `shell_run` in kernel/shell.c end.
use vaelen.Prelude.{
  ℕ, Bool, true, false, ◌&&◌, ◌≡◌, refl, sym, ap, ◌∙◌, if◌then◌else◌, List, [], ◌∷◌, arith,
  Bool-cases, inl, inr, Option, some, none, ◌&&◌, not,
}
use vaelen.Prelude.Text.{bytes, equal_sound}
use vaelen.Mm.Frames.{Frames}
use vaelen.Shell.Line.{split}
use vaelen.Shell.Calls.{Outcome, Args, equal}
use vaelen.Shell.Table.{Entry, commands}
use vaelen.Shell.Dispatch.{History, call, run_named}
use vaelen.Shell.Run.{execute, run_args}
use vaelen.Shell.Run.Ends.{ends, is_exit, ends-call}
use vaelen.Shell.Basic.{find_entry}

abbrev is_some : Option Entry → Bool
is_some none = false
is_some (some e) = true

-- In the table, the function of an entry is `cmd_exit` just when its name is exit.
all_named : List Entry → Bool
all_named [] = true
all_named (e ∷ es) =
    (if is_exit e.func then equal e.name (bytes "exit") else not (equal e.name (bytes "exit")))
    && all_named es

named_entry :
    (a b rest : Bool) → ((if a then b else not b) && rest) ≡ true → (a ≡ b) × (rest ≡ true)
named_entry true true true all = (refl, refl)
named_entry false false true all = (refl, refl)
named_entry true false rest all = ground arith
named_entry true true false all = ground arith
named_entry false true rest all = ground arith
named_entry false false false all = ground arith

ends-if_found :
    (b want : Bool) (r s : Outcome) (e : Entry) (found : Option Entry)
    → (b ≡ true → ends r ≡ want)
    → ends s ≡ (want && is_some found)
    → ends (if b then r else s) ≡ (want && is_some (if b then some e else found))
ends-if_found true true r s e found here there = here refl
ends-if_found true false r s e found here there = here refl
ends-if_found false want r s e found here there = there

ends-run_named :
    (name : List ℕ) (table : List Entry) (frames : Frames) (h : History) (args : Args)
    → all_named table ≡ true
    → ends (run_named name table frames h args)
      ≡ (equal name (bytes "exit") && is_some (find_entry name table))
unfolding run_named find_entry all_named
ends-run_named name [] frames h args named = ground arith
ends-run_named name (e ∷ es) frames h args named =
    ends-if_found (equal name e.name) (equal name (bytes "exit")) (call e.func frames h args)
      (run_named name es frames h args) e (find_entry name es)
      (λ same.
        ends-call e.func frames h args
        ∙ entry_is.0
        ∙ ap (λ word. equal word (bytes "exit")) (sym (equal_sound name e.name same)))
      (ends-run_named name es frames h args entry_is.1)
  where
    entry_is : (is_exit e.func ≡ equal e.name (bytes "exit")) × (all_named es ≡ true)
    entry_is = named_entry (is_exit e.func) (equal e.name (bytes "exit")) (all_named es) named

exit_entry : is_some (find_entry (bytes "exit") commands) ≡ true
unfolding find_entry
exit_entry = refl

exit_listed :
    (name : List ℕ)
    → (equal name (bytes "exit") && is_some (find_entry name commands)) ≡ equal name (bytes "exit")
exit_listed name = elim (Bool-cases (equal name (bytes "exit"))) [
  | inl same ↦ rw same (
      ap (λ word. is_some (find_entry word commands)) (equal_sound name (bytes "exit") same)
      ∙ exit_entry)
  | inr other ↦ rw other refl
]

commands_named : all_named commands ≡ true
unfolding all_named
commands_named = refl

-- The first word of a line is exit.
unfoldable pub first_is_exit : Args → Bool
first_is_exit [] = false
first_is_exit (name ∷ args) = equal name (bytes "exit")

-- `shell_execute` returns a negative number, on which `shell_run` ends, exactly for the lines whose
-- first word is exit.
pub execute-exit :
    (line : List ℕ) (frames : Frames) (h : History)
    → ends (execute line frames h) ≡ first_is_exit (split line)
unfolding execute run_args first_is_exit
execute-exit line frames h = go (split line)
  where
    go : (args : Args) → ends (run_args args frames h) ≡ first_is_exit args
    go [] = refl
    go (name ∷ args) =
        ends-run_named name commands frames h (name ∷ args) commands_named ∙ exit_listed name
