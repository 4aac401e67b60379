-- ===== src/Strings/Numbers/Bounds.antt =====
-- How much of the caller's buffer `itoa` of lib/string.c writes.
use native.Mathlib.Nat.{pow-suc, pow-zero, div-lt_iff_lt-mul}
use vaelen.Prelude.{
  ℕ, zero, suc, ◌+◌, ◌/◌, ◌^◌, ◌≤◌, ◌<◌, ◌≡◌, ◌∙◌, false, ◌&&◌, ◌||◌, ltb, ◌==◌, update, length,
  arith, Bool-cases, inl, inr, ◌⊎◌,
}
use vaelen.Strings.{Bytes}
use vaelen.Strings.Numbers.{is_negative, negate, emit, finish, itoa}
use vaelen.Strings.Numbers.Digits.{digits}
use vaelen.Strings.Numbers.Text.{finish-emit}

quotient-le : (v base b : ℕ) → 0 < b → b ≤ base → v / base ≤ v / b
quotient-le v base b pos h = grind arith

quotient-lt : (v base b k : ℕ) → 0 < b → b ≤ base → v < b ^ suc k → v / base < b ^ k
quotient-lt v base b k pos h small =
    let quotient : v / b < b ^ k = (div-lt_iff_lt-mul pos).1 (omega (arith, pow-suc b k)) in
    omega (arith, quotient-le v base b pos h)

-- A number below `b ^ (k + 1)` has at most `k + 1` digits to any base from `b` on.
pub length-digits-le :
    (fuel v base b k : ℕ) → 0 < b → b ≤ base → v < b ^ suc k → length (digits fuel v base) ≤ suc k
unfolding digits
length-digits-le zero v base b k pos h small = omega arith
length-digits-le (suc fuel) v base b k pos h small = elim (Bool-cases (v / base == 0)) [
  | inl e ↦ rw e (omega arith)
  | inr e ↦ rw e (
      more (λ j. length-digits-le fuel (v / base) base b j pos h) k
        (quotient-lt v base b k pos h small) e)
]
  where
    more :
        ((j : ℕ) → v / base < b ^ suc j → length (digits fuel (v / base) base) ≤ suc j)
        → (j : ℕ) → v / base < b ^ j
        → (v / base == 0) ≡ false
        → suc (length (digits fuel (v / base) base)) ≤ suc j
    more shorter zero lt e = absurd (ground (arith, pow-zero b))
    more shorter (suc j) lt e = omega (arith, shorter j lt)

outside :
    (v base p q k : ℕ) (m : Bytes)
    → length (digits 32 v base) ≤ k
    → (q < p) ⊎ (p + k < q)
    → finish p (emit 32 v base p m) q ≡ m q
outside v base p q k m short apart = finish-emit v base p q m ∙ ground (arith, short)

-- To a base from 8 to 36, `itoa` of any `int` writes at most 12 bytes, terminator and sign
-- included: the bytes in front of the buffer and those from the thirteenth on keep their values.
-- The 32 bytes of `printf_number` are enough.
pub itoa-bounded :
    (value str base q : ℕ) (m : Bytes)
    → value < 2 ^ 32
    → 8 ≤ base
    → base ≤ 36
    → (q < str) ⊎ (str + 12 ≤ q)
    → itoa value str base m q ≡ m q
unfolding itoa
itoa-bounded value str base q m word lo hi apart =
    rw (valid base lo hi) elim (Bool-cases (is_negative value && base == 10)) [
      | inl e ↦ rw e (
          outside (negate value) base (str + 1) q 10 (update m str b'-')
            (length-digits-le 32 (negate value) base 10 9 (omega arith) (ground arith)
              (ground arith))
            (ground arith)
          ∙ ground arith)
      | inr e ↦ rw e (
          outside value base str q 11 m
            (length-digits-le 32 value base 8 10 (omega arith) lo (omega arith)) (ground arith))
    ]
  where
    valid : (b : ℕ) → 8 ≤ b → b ≤ 36 → (ltb b 2 || ltb 36 b) ≡ false
    valid b lo hi = ground arith
