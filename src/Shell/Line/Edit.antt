-- ===== src/Shell/Line/Edit.antt =====
-- The line that `shell_getline` of kernel/shell.c reads: its bounds, the keys that type it, and the
-- characters that are echoed.
use vaelen.Prelude.{
  ℕ, ◌-◌, ◌≤◌, ◌<◌, ◌≡◌, refl, ap, ◌∙◌, Bool, true, false, ◌&&◌, ◌||◌, ltb, leb, ◌==◌,
  if◌then◌else◌, List, [], ◌∷◌, ◌++◌, length, length-append, All, Option, some, arith, ltb→lt,
  ==_iff, ◌⊎◌, inl, inr,
}
use vaelen.Shell.Dispatch.{History}
use vaelen.Shell.Line.{Read, max_line, drop_last, remember, edit, get_line}

abbrev pub has : ℕ → List ℕ → Bool
has x [] = false
has x (c ∷ cs) = c == x || has x cs

abbrev pub Printable : ℕ → Type 0
Printable c = (b' ' ≤ c) × (c ≤ b'~')

abbrev pub is_printable : ℕ → Bool
is_printable c = leb b' ' c && leb c b'~'

-- A line after one more character: a backspace takes the last character away, if there is one, a
-- printable character is put at the end, and any other is passed over.
abbrev pub written : List ℕ → ℕ → List ℕ
written text c =
    if c == 8 then drop_last text else if is_printable c then text ++ (c ∷ []) else text

-- What a sequence of characters makes of a line.
unfoldable pub typed : List ℕ → List ℕ → List ℕ
typed text [] = text
typed text (c ∷ cs) = typed (written text c) cs

typed-snoc : (text cs : List ℕ) (c : ℕ) → typed text (cs ++ (c ∷ [])) ≡ written (typed text cs) c
unfolding typed
typed-snoc text [] c = refl
typed-snoc text (d ∷ cs) c = typed-snoc (written text d) cs c

-- Where the reading stops: behind the first newline, or once the line is full.
abbrev pub Stops : ℕ → List ℕ → List ℕ → Type 0
Stops limit used line =
    ((front : List ℕ) × (used ≡ front ++ (b'\n' ∷ [])) × (has b'\n' front ≡ false))
    ⊎ ((has b'\n' used ≡ false) × (length line ≡ limit))

Stops-cons :
    (limit c : ℕ) (used line : List ℕ)
    → (c == b'\n') ≡ false
    → Stops limit used line
    → Stops limit (c ∷ used) line
Stops-cons limit c used line more (inl (front, e, none_before)) =
    inl (c ∷ front, ap (λ cs. c ∷ cs) e, rw more none_before)
Stops-cons limit c used line more (inr (none_used, full)) = inr (rw more none_used, full)

-- What a line read from `keys` has, where `buf` is in the buffer already.
pub Kept : ℕ → List ℕ → List ℕ → Read → Type 0
Kept limit buf keys r =
    (length r.line ≤ limit)
    × All Printable r.line
    × (typed [] r.echoed ≡ r.line)
    × ((used : List ℕ) × ((used ++ r.unread) ≡ keys)
        × (typed buf used ≡ r.line)
        × Stops limit used r.line)

pub Reads : ℕ → List ℕ → List ℕ → Option Read → Type 0
Reads limit buf keys o = (r : Read) × (o ≡ some r) × Kept limit buf keys r

Reads-if :
    (limit : ℕ) (buf keys : List ℕ) (b : Bool) (x y : Option Read)
    → (b ≡ true → Reads limit buf keys x)
    → (b ≡ false → Reads limit buf keys y)
    → Reads limit buf keys (if b then x else y)
Reads-if limit buf keys true x y then_ else_ = then_ refl
Reads-if limit buf keys false x y then_ else_ = else_ refl

Reads-cons :
    (limit c : ℕ) (buf buf' keys : List ℕ) (o : Option Read)
    → (c == b'\n') ≡ false
    → written buf c ≡ buf'
    → Reads limit buf' keys o
    → Reads limit buf (c ∷ keys) o
unfolding Reads Kept typed
Reads-cons limit c buf buf' keys o more step
      (r, e, (short, printable, shown, (used, split, made, stops))) =
    (
      r,
      e,
      (
        short,
        printable,
        shown,
        (
          c ∷ used,
          ap (λ cs. c ∷ cs) split,
          ap (λ text. typed text used) step ∙ made,
          Stops-cons limit c used r.line more stops,
        ),
      ),
    )

length-drop_last : (cs : List ℕ) → length (drop_last cs) ≤ length cs
unfolding drop_last
length-drop_last [] = omega arith
length-drop_last (c ∷ []) = omega arith
length-drop_last (c ∷ d ∷ cs) = omega (arith, length-drop_last (d ∷ cs))

drop_last-Printable : (cs : List ℕ) → All Printable cs → All Printable (drop_last cs)
unfolding drop_last
drop_last-Printable [] all = tt
drop_last-Printable (c ∷ []) all = tt
drop_last-Printable (c ∷ d ∷ cs) all = (all.0, drop_last-Printable (d ∷ cs) all.1)

append-Printable :
    (cs : List ℕ) (c : ℕ) → All Printable cs → Printable c → All Printable (cs ++ (c ∷ []))
append-Printable [] c all here = (here, tt)
append-Printable (d ∷ cs) c all here = (all.0, append-Printable cs c all.1 here)

shorter : (limit : ℕ) (buf : List ℕ) → length buf ≤ limit → length (drop_last buf) ≤ limit
shorter limit buf short = omega (arith, length-drop_last buf)

room_for_one :
    (limit : ℕ) (buf : List ℕ) (c : ℕ) → length buf < limit → length (buf ++ (c ∷ [])) ≤ limit
room_for_one limit buf c room = omega (arith, length-append buf (c ∷ []))

module _ (c : ℕ) (text : List ℕ) where
  written-newline : (c == b'\n') ≡ true → written text c ≡ text
  written-newline ends = ap (written text) ((==_iff c b'\n').0 ends)

  written-erase : (c == 8) ≡ true → written text c ≡ drop_last text
  written-erase erase = rw erase refl

  written-plain : (c == 8) ≡ false → is_printable c ≡ true → written text c ≡ text ++ (c ∷ [])
  written-plain other plain = rw other rw plain refl

  written-odd : (c == 8) ≡ false → is_printable c ≡ false → written text c ≡ text
  written-odd other odd = rw other rw odd refl

drop_last-empty : (cs : List ℕ) → ltb 0 (length cs) ≡ false → drop_last cs ≡ cs
unfolding drop_last
drop_last-empty [] e = refl
drop_last-empty (c ∷ cs) e = absurd (ground arith)

edit-Reads :
    (limit : ℕ) (keys buf echoed : List ℕ) (h : History)
    → has b'\n' keys ≡ true
    → length buf ≤ limit
    → All Printable buf
    → typed [] echoed ≡ buf
    → Reads limit buf keys (edit limit keys buf echoed h)
unfolding edit Reads Kept typed
edit-Reads limit [] buf echoed h newline short printable shown = ground arith
edit-Reads limit (c ∷ keys) buf echoed h newline short printable shown =
    Reads-if limit buf (c ∷ keys) (ltb (length buf) limit) _ _
      (λ room.
        Reads-if limit buf (c ∷ keys) (c == b'\n') _ _
          (λ ends. (
            record {
              line = buf;
              unread = keys;
              echoed = echoed ++ (b'\n' ∷ []);
              shell = remember buf h;
            },
            refl,
            (
              short,
              printable,
              typed-snoc [] echoed b'\n' ∙ shown,
              (
                c ∷ [],
                refl,
                written-newline c buf ends,
                inl ([], ap (λ k. k ∷ []) ((==_iff c b'\n').0 ends), refl),
              ),
            ),
          ))
          (λ more.
            Reads-if limit buf (c ∷ keys) (c == 8) _ _
              (λ erase.
                Reads-if limit buf (c ∷ keys) (ltb 0 (length buf)) _ _
                  (λ some_left.
                    Reads-cons limit c buf (drop_last buf) keys _ more (written-erase c buf erase) (
                      edit-Reads limit keys (drop_last buf) (echoed ++ (8 ∷ [])) h (ground arith)
                        (shorter limit buf short) (drop_last-Printable buf printable)
                        (typed-snoc [] echoed 8 ∙ ap drop_last shown)))
                  (λ empty.
                    Reads-cons limit c buf buf keys _ more
                      (written-erase c buf erase ∙ drop_last-empty buf empty)
                      (edit-Reads limit keys buf echoed h (ground arith) short printable shown)))
              (λ other.
                Reads-if limit buf (c ∷ keys) (is_printable c) _ _
                  (λ plain.
                    Reads-cons limit c buf (buf ++ (c ∷ [])) keys _ more
                      (written-plain c buf other plain)
                      (edit-Reads limit keys (buf ++ (c ∷ [])) (echoed ++ (c ∷ [])) h (ground arith)
                        (room_for_one limit buf c (ltb→lt _ _ room))
                        (append-Printable buf c printable (ground arith, ground arith))
                        (typed-snoc [] echoed c
                          ∙ written-plain c (typed [] echoed) other plain
                          ∙ ap (λ cs. cs ++ (c ∷ [])) shown)))
                  (λ odd.
                    Reads-cons limit c buf buf keys _ more (written-odd c buf other odd)
                      (edit-Reads limit keys buf echoed h (ground arith) short printable shown)))))
      (λ full. (
        record { line = buf; unread = c ∷ keys; echoed = echoed; shell = h },
        refl,
        (short, printable, shown, ([], refl, refl, inr (refl, ground (arith, full)))),
      ))

-- When a newline is among the keys, `shell_getline` returns, with a line of at most 511 printable
-- characters. The keys are those that it has used, in front, and those that it has not read; it
-- stops behind the first newline, or before one when the line has 511 characters. The line is what
-- the used keys type, a backspace taking the last character away and any other key that is not
-- printable doing nothing; and the characters that it echoes type the same line.
pub get_line-Reads :
    (keys : List ℕ) (h : History)
    → has b'\n' keys ≡ true
    → Reads (max_line - 1) [] keys (get_line max_line keys h)
unfolding get_line typed
get_line-Reads keys h newline = edit-Reads (max_line - 1) keys [] [] h newline (omega arith) tt refl
