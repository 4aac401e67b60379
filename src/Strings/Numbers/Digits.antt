-- ===== src/Strings/Numbers/Digits.antt =====
-- What `itoa` of lib/string.c leaves in memory, byte by byte.
use vaelen.Prelude.{
  ℕ, zero, suc, ◌+◌, ◌-◌, ◌*◌, ◌/◌, ◌%◌, ◌≤◌, ◌<◌, ◌≡◌, ap, ◌∙◌, false, ◌&&◌, ltb, leb, ◌==◌,
  if◌then◌else◌, update, List, [], ◌∷◌, length, get_or, arith, Bool-cases, inl, inr, ℕ_discrete,
  dec_lt, ltb→lt,
}
use vaelen.Strings.{Bytes}
use vaelen.Strings.Numbers.{emit, swap_ends, digit_char}

-- The digits of `v`, the lowest first, and the number that such digits stand for.
unfoldable pub digits : ℕ → ℕ → ℕ → List ℕ
digits zero v base = []
digits (suc fuel) v base =
    let rest = digits fuel (v / base) base in (v % base) ∷ (if v / base == 0 then [] else rest)

-- Memory with the characters of the digits in a row from `p` on.
abbrev pub row : ℕ → List ℕ → Bytes → Bytes
row p [] m = m
row p (d ∷ ds) m = row (p + 1) ds (update m p (digit_char d))

pub emit-row :
    (fuel v base p : ℕ) (m : Bytes)
    → emit fuel v base p m ≡ (p + length (digits fuel v base), row p (digits fuel v base) m)
unfolding emit digits
emit-row zero v base p m = ap (λ (q : ℕ). (q, m)) (omega arith)
emit-row (suc fuel) v base p m = elim (Bool-cases (v / base == 0)) [
  | inl e ↦ rw e (ap (λ (q : ℕ). (q, update m p (digit_char (v % base)))) (omega arith))
  | inr e ↦ rw e (
      emit-row fuel (v / base) base (p + 1) (update m p (digit_char (v % base)))
      ∙ ap
          (λ (q : ℕ).
            (q, row (p + 1) (digits fuel (v / base) base) (update m p (digit_char (v % base)))))
          (omega arith))
]

get_or-pred : (d : ℕ) (ds : List ℕ) (k : ℕ) → 0 < k → get_or (d ∷ ds) k 0 ≡ get_or ds (k - 1) 0
get_or-pred d ds zero h = absurd (omega arith)
get_or-pred d ds (suc k) h = ap (λ (j : ℕ). get_or ds j 0) (omega arith)

pub row-at :
    (ds : List ℕ) (p q : ℕ) (m : Bytes)
    → row p ds m q
      ≡ (if leb p q && ltb q (p + length ds) then digit_char (get_or ds (q - p) 0) else m q)
row-at [] p q m = ground arith
row-at (d ∷ ds) p q m = row-at ds (p + 1) q (update m p (digit_char d)) ∙ elim (dec_lt p q) [
  | yes lt ↦ ground (
    arith,
    get_or-pred d ds (q - p),
    ap (λ (k : ℕ). get_or ds k 0) {x = q - p - 1} {y = q - (p + 1)} (omega arith),
  )
  | no ge ↦ elim (ℕ_discrete p q) [
    | yes e ↦ ground (arith, ap (λ (k : ℕ). get_or (d ∷ ds) k 0) {x = q - p} {y = 0} (omega arith))
    | no ne ↦ ground arith
  ]
]

-- `m` with the bytes from `lo` to `hi` in reverse.
abbrev pub mirrored : ℕ → ℕ → Bytes → Bytes
mirrored lo hi m q = if leb lo q && leb q hi then m (lo + hi - q) else m q

mirrored-middle : (lo hi q : ℕ) (m : Bytes) → hi ≤ lo → m q ≡ mirrored lo hi m q
mirrored-middle lo hi q m h = elim (ℕ_discrete (lo + hi - q) q) [
  | yes e ↦ ground (arith, ap m e)
  | no ne ↦ ground arith
]

mirrored-ends :
    (lo hi q : ℕ) (m : Bytes)
    → lo < hi
    → mirrored (lo + 1) (hi - 1) (update (update m lo (m hi)) hi (m lo)) q ≡ mirrored lo hi m q
mirrored-ends lo hi q m h = elim (ℕ_discrete lo q) [
  | yes e ↦ ground (arith, ap m {x = hi} {y = lo + hi - q} (omega arith))
  | no ne ↦ elim (ℕ_discrete hi q) [
    | yes e ↦ ground (arith, ap m {x = lo} {y = lo + hi - q} (omega arith))
    | no ne' ↦ ground (arith, ap m {x = lo + 1 + (hi - 1) - q} {y = lo + hi - q} (omega arith))
  ]
]

pub swap_ends-mirrored :
    (fuel lo hi q : ℕ) (m : Bytes)
    → hi ≤ lo + 2 * fuel
    → swap_ends fuel lo hi m q ≡ mirrored lo hi m q
unfolding swap_ends
swap_ends-mirrored zero lo hi q m h = mirrored-middle lo hi q m (omega arith)
swap_ends-mirrored (suc fuel) lo hi q m h = elim (Bool-cases (ltb lo hi)) [
  | inl lt ↦ rw lt (
      swap_ends-mirrored fuel (lo + 1) (hi - 1) q (update (update m lo (m hi)) hi (m lo))
        (omega arith)
      ∙ mirrored-ends lo hi q m (ltb→lt lo hi lt))
  | inr ge ↦ rw ge (mirrored-middle lo hi q m (not_below lo hi ge))
]
  where
    not_below : (a b : ℕ) → ltb a b ≡ false → b ≤ a
    not_below a b e = ground arith
