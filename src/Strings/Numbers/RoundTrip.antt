-- ===== src/Strings/Numbers/RoundTrip.antt =====
-- `atoi` reads back what `itoa` writes in decimal.
use native.Mathlib.Nat.{pow-suc}
use vaelen.Prelude.{
  ℕ, zero, suc, ◌+◌, ◌-◌, ◌*◌, ◌/◌, ◌%◌, ◌^◌, ◌≤◌, ◌<◌, ◌≡◌, refl, ap, ◌∙◌, true, false, ◌&&◌, leb,
  ◌==◌, List, [], ◌∷◌, length, get_or, arith, Bool-cases, inl, inr, some,
}
use vaelen.Strings.{Bytes}
use vaelen.Strings.Numbers.{is_negative, negate, itoa, read_digits, atoi}
use vaelen.Strings.Numbers.Text.{
  length-digits, digits-nonempty, digit_bound, text_of, sign_of, magnitude, decimal, signed,
  itoa-text_of, text_end, text_digit, minus_sign,
}
use vaelen.Strings.Numbers.Digits.{digits}

-- The number that decimal digits stand for, the lowest first; and without the first `j` of them.
abbrev number : List ℕ → ℕ
number [] = 0
number (d ∷ ds) = d + 10 * number ds

abbrev number_from : List ℕ → ℕ → ℕ
number_from [] j = 0
number_from (d ∷ ds) zero = d + 10 * number ds
number_from (d ∷ ds) (suc j) = number_from ds j

number_from-zero : (ds : List ℕ) → number_from ds 0 ≡ number ds
number_from-zero [] = refl
number_from-zero (d ∷ ds) = refl

number_from-length : (ds : List ℕ) → number_from ds (length ds) ≡ 0
number_from-length [] = refl
number_from-length (d ∷ ds) = number_from-length ds

number_from-step :
    (ds : List ℕ) (j : ℕ)
    → j < length ds
    → number_from ds j ≡ get_or ds j 0 + 10 * number_from ds (suc j)
number_from-step [] j h = absurd (omega arith)
number_from-step (d ∷ ds) zero h = omega (arith, number_from-zero ds)
number_from-step (d ∷ ds) (suc j) h = number_from-step ds j (omega arith)

number-digits : (fuel v : ℕ) → v < 2 ^ fuel → number (digits fuel v 10) ≡ v
unfolding digits
number-digits zero v h = omega arith
number-digits (suc fuel) v h = elim (Bool-cases (v / 10 == 0)) [
  | inl e ↦ rw e (ground arith)
  | inr e ↦
      rw e
        (omega (arith, pow-suc 2 fuel, number-digits fuel (v / 10) (omega (arith, pow-suc 2 fuel))))
]

is_digit : (d : ℕ) → d < 10 → (leb 48 (48 + d) && leb (48 + d) 57) ≡ true
is_digit d h = ground arith

-- Reading on from the digit that has `j` digits behind it, itself among them.
module _ (p : ℕ) (ds : List ℕ) (m₀ m : Bytes) (text : (q : ℕ) → m q ≡ text_of p ds m₀ q)
    (small : (k : ℕ) → get_or ds k 0 < 10) where
  read_digits-text_of :
      (fuel j r : ℕ)
      → j ≤ length ds
      → j < fuel
      → r ≡ number_from ds j % 2 ^ 32
      → read_digits fuel (p + (length ds - j)) r m ≡ some (number ds % 2 ^ 32)
  unfolding read_digits
  read_digits-text_of zero j r le enough e = absurd (omega arith)
  read_digits-text_of (suc fuel) zero r le enough e =
      rw (text (p + (length ds - 0)) ∙ text_end p ds m₀)
        (ap some (e ∙ ap (λ (n : ℕ). n % 2 ^ 32) (number_from-zero ds)))
  read_digits-text_of (suc fuel) (suc j) r le enough e =
      rw (text (p + (length ds - suc j)) ∙ text_digit p ds m₀ j le (small j)) rw
        (is_digit (get_or ds j 0) (small j))
        (ap (λ (q : ℕ). read_digits fuel q ((r * 10 + (48 + get_or ds j 0 - 48)) % 2 ^ 32) m)
            (omega arith)
          ∙ read_digits-text_of fuel j ((r * 10 + (48 + get_or ds j 0 - 48)) % 2 ^ 32) (omega arith)
              (omega arith) (omega (arith, e, number_from-step ds j le)))

  read_digits-all :
      (fuel : ℕ) → length ds < fuel → read_digits fuel p 0 m ≡ some (number ds % 2 ^ 32)
  read_digits-all fuel enough =
      ap (λ (q : ℕ). read_digits fuel q 0 m) (omega arith)
      ∙ read_digits-text_of fuel (length ds) 0 (omega arith) enough
          (omega (arith, number_from-length ds))

  first_digit : 0 < length ds → m p ≡ 48 + get_or ds (length ds - 1) 0
  first_digit h =
      text p
      ∙ ap (text_of p ds m₀) (omega arith)
      ∙ text_digit p ds m₀ (length ds - 1) (omega arith) (small (length ds - 1))

atoi-minus :
    (fuel str r : ℕ) (m : Bytes)
    → m str ≡ b'-'
    → read_digits (suc fuel) (str + 1) 0 m ≡ some r
    → atoi (suc fuel) str m ≡ some (negate r)
unfolding atoi
atoi-minus fuel str r m e read = rw e rw e rw read refl

atoi-digit :
    (fuel str r d : ℕ) (m : Bytes)
    → d < 10
    → m str ≡ 48 + d
    → read_digits (suc fuel) str 0 m ≡ some r
    → atoi (suc fuel) str m ≡ some r
unfolding atoi
atoi-digit fuel str r d m small e read =
    rw e rw (not_sign d 32 (omega arith)) rw e rw (not_sign d 45 (omega arith)) rw
      (not_sign d 43 (omega arith)) rw read refl
  where
    not_sign : (n c : ℕ) → c < 48 → (48 + n == c) ≡ false
    not_sign n c h = ground arith

-- The text of a number in decimal is behind its sign, and reads as its magnitude.
module _ (value str fuel : ℕ) (m : Bytes) (word : value < 2 ^ 32) (enough : 33 ≤ suc fuel) where
  magnitude_read :
      read_digits (suc fuel) (str + sign_of value) 0 (itoa value str 10 m)
      ≡ some (magnitude value % 2 ^ 32)
  magnitude_read =
      read_digits-all (str + sign_of value) (decimal value) (signed value str m)
        (itoa value str 10 m) (λ q. itoa-text_of value str q m) (digit_bound 32 (magnitude value))
        (suc fuel) (omega (arith, length-digits 32 (magnitude value) 10))
      ∙ ap (λ (n : ℕ). some (n % 2 ^ 32))
          (number-digits 32 (magnitude value) (magnitude_bound value word))
    where
      magnitude_bound : (v : ℕ) → v < 2 ^ 32 → magnitude v < 2 ^ 32
      magnitude_bound v h = ground arith

  first_byte :
      itoa value str 10 m (str + sign_of value)
      ≡ 48 + get_or (decimal value) (length (decimal value) - 1) 0
  first_byte =
      first_digit (str + sign_of value) (decimal value) (signed value str m) (itoa value str 10 m)
        (λ q. itoa-text_of value str q m) (digit_bound 32 (magnitude value))
        (digits-nonempty 31 (magnitude value) 10)

-- `atoi` reads back every `int` from the decimal text that `itoa` writes for it, the least one
-- included, wherever the text stands; 33 rounds suffice.
pub atoi-itoa :
    (value str fuel : ℕ) (m : Bytes)
    → value < 2 ^ 32
    → 33 ≤ fuel
    → atoi fuel str (itoa value str 10 m) ≡ some value
atoi-itoa value str zero m word enough = absurd (omega arith)
atoi-itoa value str (suc fuel) m word enough = elim (Bool-cases (is_negative value)) [
  | inl e ↦
      atoi-minus fuel str (magnitude value % 2 ^ 32) (itoa value str 10 m)
        (minus_sign value str m e) (shift (str + 1) (ground arith) read)
      ∙ ap some (negated value word e)
  | inr e ↦
      atoi-digit fuel str (magnitude value % 2 ^ 32) _ (itoa value str 10 m)
        (digit_bound 32 (magnitude value) (length (decimal value) - 1))
        (ap (itoa value str 10 m) {x = str} (ground arith)
          ∙ first_byte value str fuel m word enough)
        (shift str (ground arith) read)
      ∙ ap some (kept value word e)
]
  where
    read :
        read_digits (suc fuel) (str + sign_of value) 0 (itoa value str 10 m)
        ≡ some (magnitude value % 2 ^ 32)
    read = magnitude_read value str fuel m word enough

    shift :
        (q : ℕ)
        → q ≡ str + sign_of value
        → read_digits (suc fuel) (str + sign_of value) 0 (itoa value str 10 m)
          ≡ some (magnitude value % 2 ^ 32)
        → read_digits (suc fuel) q 0 (itoa value str 10 m) ≡ some (magnitude value % 2 ^ 32)
    shift q e r = ap (λ (k : ℕ). read_digits (suc fuel) k 0 (itoa value str 10 m)) e ∙ r

    negated : (v : ℕ) → v < 2 ^ 32 → is_negative v ≡ true → negate (magnitude v % 2 ^ 32) ≡ v
    negated v h e = ground arith

    kept : (v : ℕ) → v < 2 ^ 32 → is_negative v ≡ false → magnitude v % 2 ^ 32 ≡ v
    kept v h e = ground arith
