-- ===== src/Shell/Line/Words.antt =====
-- The words that `shell_execute` of kernel/shell.c finds in a line.
use vaelen.Prelude.{
  ℕ, zero, suc, ◌-◌, ◌<◌, ◌≡◌, refl, ap, sym, ◌∙◌, Bool, true, false, List, [], ◌∷◌, ◌++◌, map,
  length, take, All, arith,
}
use vaelen.Shell.Line.{between, within, max_args, is_blank, scan, split}

-- A word, and what stands between it and the word before.
pub record Piece : Type 0 where
  pub gap : List ℕ
  pub initial : ℕ
  pub remaining : List ℕ

abbrev pub word : Piece → List ℕ
word p = p.initial ∷ p.remaining

abbrev pub Blank : ℕ → Type 0
Blank c = is_blank c ≡ true

abbrev pub Plain : ℕ → Type 0
Plain c = is_blank c ≡ false

abbrev pub IsPiece : Piece → Type 0
IsPiece p = All Blank p.gap × Plain p.initial × All Plain p.remaining

-- A word that is not the first one.
abbrev pub Apart : Piece → Type 0
Apart p = (0 < length p.gap) × IsPiece p

-- The line of some words and what stands behind the last one.
abbrev pub spread : List Piece → List ℕ → List ℕ
spread [] trailing = trailing
spread (p ∷ ps) trailing = p.gap ++ (word p ++ spread ps trailing)

append-snoc : (xs ys : List ℕ) (c : ℕ) → (xs ++ (c ∷ [])) ++ ys ≡ xs ++ (c ∷ ys)
append-snoc [] ys c = refl
append-snoc (x ∷ xs) ys c = ap (λ cs. x ∷ cs) (append-snoc xs ys c)

append-nil : (xs : List ℕ) → xs ++ [] ≡ xs
append-nil [] = refl
append-nil (x ∷ xs) = ap (λ cs. x ∷ cs) (append-nil xs)

scan-no_room : (cs : List ℕ) → scan cs between 0 ≡ []
unfolding scan
scan-no_room [] = refl
scan-no_room (c ∷ cs) = refl

scan-Blank_between : (c n : ℕ) (cs : List ℕ) → Blank c → scan (c ∷ cs) between n ≡ scan cs between n
unfolding scan
scan-Blank_between c zero cs blank = sym (scan-no_room cs)
scan-Blank_between c (suc n) cs blank =
    ap
      (λ (b : Bool). elim b [
        | true ↦ scan cs between (suc n)
        | false ↦ scan cs (within (c ∷ [])) n
      ])
      blank

scan-Plain_between :
    (c n : ℕ) (cs : List ℕ) → Plain c → scan (c ∷ cs) between (suc n) ≡ scan cs (within (c ∷ [])) n
unfolding scan
scan-Plain_between c n cs plain =
    ap
      (λ (b : Bool). elim b [
        | true ↦ scan cs between (suc n)
        | false ↦ scan cs (within (c ∷ [])) n
      ])
      plain

scan-Blank_within :
    (c n : ℕ) (read cs : List ℕ)
    → Blank c
    → scan (c ∷ cs) (within read) n ≡ read ∷ scan cs between n
unfolding scan
scan-Blank_within c n read cs blank =
    ap
      (λ (b : Bool). elim b [
        | true ↦ read ∷ scan cs between n
        | false ↦ scan cs (within (read ++ (c ∷ []))) n
      ])
      blank

scan-Plain_within :
    (c n : ℕ) (read cs : List ℕ)
    → Plain c
    → scan (c ∷ cs) (within read) n ≡ scan cs (within (read ++ (c ∷ []))) n
unfolding scan
scan-Plain_within c n read cs plain =
    ap
      (λ (b : Bool). elim b [
        | true ↦ read ∷ scan cs between n
        | false ↦ scan cs (within (read ++ (c ∷ []))) n
      ])
      plain

scan-blanks :
    (gap : List ℕ) (n : ℕ) (cs : List ℕ)
    → All Blank gap
    → scan (gap ++ cs) between n ≡ scan cs between n
scan-blanks [] n cs blank = refl
scan-blanks (c ∷ gap) n cs (here, rest) =
    scan-Blank_between c n (gap ++ cs) here ∙ scan-blanks gap n cs rest

scan-Plain :
    (cs : List ℕ) (n : ℕ) (read rest : List ℕ)
    → All Plain cs
    → scan (cs ++ rest) (within read) n ≡ scan rest (within (read ++ cs)) n
scan-Plain [] n read rest plain = ap (λ w. scan rest (within w) n) (sym (append-nil read))
scan-Plain (c ∷ cs) n read rest (here, more) =
    scan-Plain_within c n read (cs ++ rest) here
    ∙ scan-Plain cs n (read ++ (c ∷ [])) rest more
    ∙ ap (λ w. scan rest (within w) n) (append-snoc read cs c)

-- A word that begins, when there is room for it.
scan-word :
    (p : Piece) (n : ℕ) (rest : List ℕ)
    → Plain p.initial
    → All Plain p.remaining
    → scan (word p ++ rest) between (suc n) ≡ scan rest (within (word p)) n
scan-word p n rest here more =
    scan-Plain_between p.initial n (p.remaining ++ rest) here
    ∙ scan-Plain p.remaining n (p.initial ∷ []) rest more

scan-trailing :
    (n : ℕ) (read trailing : List ℕ)
    → All Blank trailing
    → scan trailing (within read) n ≡ read ∷ []
unfolding scan
scan-trailing n read [] blank = refl
scan-trailing n read (c ∷ trailing) (here, blank) =
    scan-Blank_within c n read trailing here ∙ ap (λ words. read ∷ words) (blanks trailing blank)
  where
    blanks : (cs : List ℕ) → All Blank cs → scan cs between n ≡ []
    blanks [] blank = refl
    blanks (d ∷ cs) (here, blank) = scan-Blank_between d n cs here ∙ blanks cs blank

-- A word ends where a gap begins.
scan-gap :
    (gap : List ℕ) (n : ℕ) (read rest : List ℕ)
    → 0 < length gap
    → All Blank gap
    → scan (gap ++ rest) (within read) n ≡ read ∷ scan rest between n
scan-gap [] n read rest apart blank = absurd (omega arith)
scan-gap (c ∷ gap) n read rest apart (here, blank) =
    scan-Blank_within c n read (gap ++ rest) here
    ∙ ap (λ words. read ∷ words) (scan-blanks gap n rest blank)

scan-spread :
    (ps : List Piece) (n : ℕ) (read trailing : List ℕ)
    → All Apart ps
    → All Blank trailing
    → scan (spread ps trailing) (within read) n ≡ read ∷ take n (map word ps)
scan-spread [] zero read trailing apart blank = scan-trailing zero read trailing blank
scan-spread [] (suc n) read trailing apart blank = scan-trailing (suc n) read trailing blank
scan-spread (p ∷ ps) zero read trailing ((apart, (gap, here, more)), rest) blank =
    scan-gap p.gap zero read (word p ++ spread ps trailing) apart gap
    ∙ ap (λ words. read ∷ words) (scan-no_room (word p ++ spread ps trailing))
scan-spread (p ∷ ps) (suc n) read trailing ((apart, (gap, here, more)), rest) blank =
    scan-gap p.gap (suc n) read (word p ++ spread ps trailing) apart gap
    ∙ ap (λ words. read ∷ words)
        (scan-word p n (spread ps trailing) here more
          ∙ scan-spread ps n (word p) trailing rest blank)

-- A line of words that blanks separate, with blanks before and behind them or not, is split into its
-- words, of which those behind the 31st are left out.
pub split-spread :
    (p : Piece) (ps : List Piece) (trailing : List ℕ)
    → IsPiece p
    → All Apart ps
    → All Blank trailing
    → split (spread (p ∷ ps) trailing) ≡ take (max_args - 1) (map word (p ∷ ps))
unfolding split
split-spread p ps trailing (gap, here, more) rest blank =
    scan-blanks p.gap (max_args - 1) (word p ++ spread ps trailing) gap
    ∙ scan-word p (max_args - 2) (spread ps trailing) here more
    ∙ scan-spread ps (max_args - 2) (word p) trailing rest blank
