-- ===== src/Shell/Line/Recall.antt =====
-- The lines that `shell_getline` of kernel/shell.c remembers, and the command `history`.
use Prim.Native.Nat.{min}
use vaelen.Prelude.{
  ==_same, ==_differ, ℕ, zero, suc, ◌+◌, ◌%◌, ◌≤◌, ◌<◌, ◌≡◌, ◌≢◌, refl, ap, sym, ◌∙◌, List, [], ◌∷◌,
  ◌++◌, length, get_or, arith, ℕ_discrete, subst, ap₂,
}
use mathlib.Core.List.{append-nil}
use vaelen.Prelude.Int.{pos}
use vaelen.Printf.{word, text}
use vaelen.Shell.Calls.{Call, Args, say}
use vaelen.Shell.Dispatch.{History, max_history, history_from, cmd_history_cmd}
use vaelen.Shell.Line.{remember}

-- The history after lines that were typed one after another.
abbrev pub remember_all : List (List ℕ) → History → History
remember_all [] h = h
remember_all (line ∷ lines) h = remember_all lines (remember line h)

abbrev pub AllWritten : List (List ℕ) → Type 0
AllWritten [] = Unit {0}
AllWritten (line ∷ lines) = (line ≢ []) × AllWritten lines

-- The lines with their numbers, as `history` is to print them.
abbrev pub numbered : ℕ → List (List ℕ) → List Call
numbered n [] = []
numbered n (line ∷ lines) = say "  %d  %s\n" (word n ∷ text line ∷ []) ∷ numbered (n + 1) lines

-- The slots from 0 on hold `lines`, and as many are counted.
record Recalls (lines : List (List ℕ)) (h : History) : Type 0 where
  counted : h.hist_count ≡ length lines
  slots : (k : ℕ) → k < length lines → h.history k ≡ get_or lines k []

get_or-++-left :
    (xs ys : List (List ℕ)) (k : ℕ) → k < length xs → get_or (xs ++ ys) k [] ≡ get_or xs k []
get_or-++-left [] ys k h = absurd (omega arith)
get_or-++-left (x ∷ xs) ys zero h = refl
get_or-++-left (x ∷ xs) ys (suc k) h = get_or-++-left xs ys k (omega arith)

get_or-++-last : (xs : List (List ℕ)) (y : List ℕ) → get_or (xs ++ (y ∷ [])) (length xs) [] ≡ y
get_or-++-last [] y = refl
get_or-++-last (x ∷ xs) y = get_or-++-last xs y

length-++-last : (xs : List (List ℕ)) (y : List ℕ) → length (xs ++ (y ∷ [])) ≡ length xs + 1
length-++-last [] y = refl
length-++-last (x ∷ xs) y = omega (arith, length-++-last xs y)

++-assoc_last :
    (xs : List (List ℕ)) (y : List ℕ) (ys : List (List ℕ)) → (xs ++ (y ∷ [])) ++ ys ≡ xs ++ (y ∷ ys)
++-assoc_last [] y ys = refl
++-assoc_last (x ∷ xs) y ys = ap (λ zs. x ∷ zs) (++-assoc_last xs y ys)

remember-Recalls :
    (lines : List (List ℕ)) (line : List ℕ) (h : History)
    → Recalls lines h
    → line ≢ []
    → length lines < 50
    → Recalls (lines ++ (line ∷ [])) (remember line h)
remember-Recalls lines [] h r written small = absurd (written refl)
remember-Recalls lines (c ∷ cs) h r written small = record {
  counted = omega (arith, r.counted, length-++-last lines (c ∷ cs));
  slots = slot;
}
  where
    place : h.hist_count % max_history ≡ length lines
    place = omega (arith, r.counted)

    slot :
        (k : ℕ)
        → k < length (lines ++ ((c ∷ cs) ∷ []))
        → (remember (c ∷ cs) h).history k ≡ get_or (lines ++ ((c ∷ cs) ∷ [])) k []
    slot k under = elim (ℕ_discrete (h.hist_count % max_history) k) [
      | yes here ↦ rw (==_same _ _ here) (
          sym (get_or-++-last lines (c ∷ cs))
          ∙ ap (λ (j : ℕ). get_or (lines ++ ((c ∷ cs) ∷ [])) j []) (sym place ∙ here))
      | no other ↦ rw (==_differ _ _ other) (
          r.slots k (before k under other)
          ∙ sym (get_or-++-left lines ((c ∷ cs) ∷ []) k (before k under other)))
    ]
      where
        before :
            (k : ℕ)
            → k < length (lines ++ ((c ∷ cs) ∷ []))
            → h.hist_count % max_history ≢ k
            → k < length lines
        before k under other = ground (arith, place, length-++-last lines (c ∷ cs))

remember_all-Recalls :
    (rest lines : List (List ℕ)) (h : History)
    → Recalls lines h
    → AllWritten rest
    → length lines + length rest ≤ 50
    → Recalls (lines ++ rest) (remember_all rest h)
remember_all-Recalls [] lines h r written small =
    subst (λ ls. Recalls ls h) (sym (append-nil lines)) r
remember_all-Recalls (line ∷ rest) lines h r (here, written) small =
    subst (λ ls. Recalls ls (remember_all rest (remember line h))) (++-assoc_last lines line rest)
      (remember_all-Recalls rest (lines ++ (line ∷ [])) (remember line h)
        (remember-Recalls lines line h r here (omega arith)) written
        (omega (arith, length-++-last lines line)))

-- The loop of `history` from `i` on, over slots that hold `lines`.
history_from-numbered :
    (lines : List (List ℕ)) (h : History) (i : ℕ)
    → i + length lines ≤ 50
    → ((k : ℕ) → k < length lines → h.history (i + k) ≡ get_or lines k [])
    → history_from h i (length lines) ≡ numbered (i + 1) lines
unfolding history_from
history_from-numbered [] h i small slots = refl
history_from-numbered (line ∷ lines) h i small slots =
    ap₂ (λ (s : List ℕ) (calls : List Call). say "  %d  %s\n" (word (i + 1) ∷ text s ∷ []) ∷ calls)
      (ap h.history (omega arith) ∙ slots 0 (omega arith))
      (history_from-numbered lines h (i + 1) (omega arith)
        (λ k under. ap h.history (omega arith) ∙ slots (suc k) (omega arith)))

-- After at most 50 lines, none of them empty, `history` prints exactly those lines, in the order in
-- which they were typed and numbered from 1; the history was empty before, and its slots may
-- have held anything.
pub cmd_history_cmd-numbered :
    (lines : List (List ℕ)) (h : History) (args : Args)
    → h.hist_count ≡ 0
    → AllWritten lines
    → length lines ≤ 50
    → cmd_history_cmd (remember_all lines h) args ≡ (pos 0, numbered 1 lines)
unfolding cmd_history_cmd
cmd_history_cmd-numbered lines h args empty written small =
    ap (λ (n : ℕ). (pos 0, history_from (remember_all lines h) 0 n)) count
    ∙ ap (λ (calls : List Call). (pos 0, calls))
        (history_from-numbered lines (remember_all lines h) 0 (omega arith)
          (λ k under. ap (remember_all lines h).history (omega arith) ∙ recalled.slots k under))
  where
    recalled : Recalls lines (remember_all lines h)
    recalled =
        remember_all-Recalls lines [] h
          (record { counted = empty; slots = λ k under. absurd (omega arith) }) written
          (omega arith)

    count : min (remember_all lines h).hist_count max_history ≡ length lines
    count = ground (arith, recalled.counted)
