-- ===== src/Strings/Numbers/Text.antt =====
-- The bytes that `itoa` of lib/string.c writes: the digits, highest first, behind a sign.
use vaelen.Prelude.{
  ℕ, zero, suc, ◌+◌, ◌-◌, ◌/◌, ◌≤◌, ◌<◌, ◌≡◌, refl, ap, ◌∙◌, true, ◌&&◌, ltb, leb, ◌==◌,
  if◌then◌else◌, update, List, length, get_or, arith, Bool-cases, inl, inr,
}
use vaelen.Strings.{Bytes}
use vaelen.Strings.Numbers.{is_negative, negate, digit_char, emit, finish, itoa}
use vaelen.Strings.Numbers.Digits.{digits, row, row-at, emit-row, mirrored, swap_ends-mirrored}

pub length-digits : (fuel v base : ℕ) → length (digits fuel v base) ≤ fuel
unfolding digits
length-digits zero v base = omega arith
length-digits (suc fuel) v base = elim (Bool-cases (v / base == 0)) [
  | inl e ↦ rw e (omega arith)
  | inr e ↦ rw e (omega (arith, length-digits fuel (v / base) base))
]

pub digits-nonempty : (fuel v base : ℕ) → 0 < length (digits (suc fuel) v base)
unfolding digits
digits-nonempty fuel v base = omega arith

pub digit_bound : (fuel v j : ℕ) → get_or (digits fuel v 10) j 0 < 10
unfolding digits
digit_bound zero v j = omega arith
digit_bound (suc fuel) v zero = omega arith
digit_bound (suc fuel) v (suc j) = elim (Bool-cases (v / 10 == 0)) [
  | inl e ↦ rw e (omega arith)
  | inr e ↦ rw e (digit_bound fuel (v / 10) j)
]

-- Memory with digits from `p` on, the highest first, and a terminator behind them.
abbrev pub text_of : ℕ → List ℕ → Bytes → Bytes
text_of p ds m q =
    if leb p q && ltb q (p + length ds)
    then digit_char (get_or ds (p + length ds - 1 - q) 0)
    else if q == p + length ds
    then 0
    else m q

mirrored-row :
    (p q n : ℕ) (ds : List ℕ) (m : Bytes)
    → n ≡ length ds
    → 0 < n
    → mirrored p (p + n - 1) (update (row p ds m) (p + n) 0) q ≡ text_of p ds m q
mirrored-row p q n ds m e lo = elim (Bool-cases (leb p q && ltb q (p + n))) [
  | inl within ↦ ground (
    arith,
    row-at ds p (p + (p + n - 1) - q) m,
    ap (λ (k : ℕ). digit_char (get_or ds k 0)) {x = p + (p + n - 1) - q - p}
        {y = p + length ds - 1 - q} (omega arith),
  )
  | inr outside ↦ ground (arith, row-at ds p q m)
]

finish-text_of :
    (p q : ℕ) (ds : List ℕ) (m : Bytes)
    → 0 < length ds
    → length ds ≤ 32
    → finish p (p + length ds, row p ds m) q ≡ text_of p ds m q
finish-text_of p q ds m lo hi =
    swap_ends-mirrored 32 p (p + length ds - 1) q (update (row p ds m) (p + length ds) 0)
      (omega arith)
    ∙ mirrored-row p q (length ds) ds m refl lo

-- What `itoa` writes for a number in base 10: a sign, and the digits behind it.
abbrev pub sign_of : ℕ → ℕ
sign_of value = if is_negative value then 1 else 0

abbrev pub magnitude : ℕ → ℕ
magnitude value = if is_negative value then negate value else value

abbrev pub decimal : ℕ → List ℕ
decimal value = digits 32 (magnitude value) 10

unfoldable pub signed : ℕ → ℕ → Bytes → Bytes
signed value str m = if is_negative value then update m str b'-' else m

pub finish-emit :
    (v base p q : ℕ) (m : Bytes)
    → finish p (emit 32 v base p m) q ≡ text_of p (digits 32 v base) m q
finish-emit v base p q m =
    ap (λ (r : ℕ × Bytes). finish p r q) (emit-row 32 v base p m)
    ∙ finish-text_of p q (digits 32 v base) m (digits-nonempty 31 v base) (length-digits 32 v base)

pub itoa-text_of :
    (value str q : ℕ) (m : Bytes)
    → itoa value str 10 m q ≡ text_of (str + sign_of value) (decimal value) (signed value str m) q
unfolding itoa signed
itoa-text_of value str q m = elim (Bool-cases (is_negative value)) [
  | inl e ↦ rw e (finish-emit (negate value) 10 (str + 1) q (update m str b'-'))
  | inr e ↦ rw e (
      finish-emit value 10 str q m
      ∙ ap (λ (p : ℕ). text_of p (digits 32 value 10) m q) (omega arith))
]

pub text_end : (p : ℕ) (ds : List ℕ) (m : Bytes) → text_of p ds m (p + (length ds - 0)) ≡ 0
text_end p ds m = ground arith

pub text_digit :
    (p : ℕ) (ds : List ℕ) (m : Bytes) (j : ℕ)
    → j < length ds
    → get_or ds j 0 < 10
    → text_of p ds m (p + (length ds - suc j)) ≡ 48 + get_or ds j 0
text_digit p ds m j h small = ground (
  arith,
  ap (λ (k : ℕ). get_or ds k 0) {x = p + length ds - 1 - (p + (length ds - suc j))} {y = j}
      (omega arith),
)

pub text_before : (p q : ℕ) (ds : List ℕ) (m : Bytes) → q < p → text_of p ds m q ≡ m q
text_before p q ds m h = ground arith

pub minus_sign :
    (value str : ℕ) (m : Bytes) → is_negative value ≡ true → itoa value str 10 m str ≡ b'-'
unfolding signed
minus_sign value str m e =
    itoa-text_of value str str m
    ∙ text_before (str + sign_of value) str (decimal value) (signed value str m) (ground arith)
    ∙ rw e ground arith
