-- ===== src/Strings/Numbers/Decimal.antt =====
-- The string that `itoa` of lib/string.c leaves for a number in base 10.
use vaelen.Prelude.{
  ℕ, suc, ◌+◌, ◌-◌, ◌<◌, ◌≡◌, ap, sym, subst, ◌∙◌, Bool, true, false, if◌then◌else◌, List, [], ◌∷◌,
  length, get_or, arith, Bool-cases, inl, inr,
}
use vaelen.Strings.{Bytes}
use vaelen.Strings.Chars.Compare.{Holds}
use vaelen.Strings.Numbers.{is_negative, digit_char, itoa}
use vaelen.Strings.Numbers.Text.{
  sign_of, magnitude, decimal, signed, text_of, itoa-text_of, text_end, text_digit, minus_sign,
  digit_bound,
}

-- The characters of digits, the highest first, in front of `acc`.
abbrev pub high_first : List ℕ → List ℕ → List ℕ
high_first [] acc = acc
high_first (d ∷ ds) acc = high_first ds (digit_char d ∷ acc)

-- An `int` in decimal: a minus sign if it is negative, and its magnitude.
abbrev pub decimal_text : ℕ → List ℕ
decimal_text value =
    if is_negative value
    then b'-' ∷ high_first (decimal value) []
    else high_first (decimal value) []

-- Memory at `p`, with the characters of `ds`, the highest first, in front of what `acc` stands for.
Holds-high_first :
    (ds acc : List ℕ) (p : ℕ) (m : Bytes)
    → ((k : ℕ) → get_or ds k 0 < 10)
    → ((j : ℕ) → j < length ds → m (p + (length ds - suc j)) ≡ 48 + get_or ds j 0)
    → Holds m (p + length ds) acc
    → Holds m p (high_first ds acc)
Holds-high_first [] acc p m small text rest = subst (λ q. Holds m q acc) (omega arith) rest
Holds-high_first (d ∷ ds) acc p m small text rest =
    Holds-high_first ds (digit_char d ∷ acc) p m (λ k. small (suc k))
      (λ j h. ap m (omega arith) ∙ text (suc j) (omega arith))
      (
        ap m (omega arith) ∙ text 0 (omega arith) ∙ ground (arith, small 0),
        ground (arith, small 0),
        subst (λ q. Holds m q acc) (omega arith) rest,
      )

magnitude-Holds :
    (value str : ℕ) (m : Bytes)
    → Holds (itoa value str 10 m) (str + sign_of value) (high_first (decimal value) [])
magnitude-Holds value str m =
    Holds-high_first (decimal value) [] (str + sign_of value) (itoa value str 10 m)
      (digit_bound 32 (magnitude value))
      (λ j h.
        itoa-text_of value str (str + sign_of value + (length (decimal value) - suc j)) m
        ∙ text_digit (str + sign_of value) (decimal value) (signed value str m) j h
            (digit_bound 32 (magnitude value) j))
      (itoa-text_of value str (str + sign_of value + length (decimal value)) m
        ∙ ap (text_of (str + sign_of value) (decimal value) (signed value str m)) (omega arith)
        ∙ text_end (str + sign_of value) (decimal value) (signed value str m))

-- After `itoa` in base 10 the string at `str` is the number in decimal.
pub itoa-Holds : (value str : ℕ) (m : Bytes) → Holds (itoa value str 10 m) str (decimal_text value)
itoa-Holds value str m = elim (Bool-cases (is_negative value)) [
  | inl e ↦ subst (Holds (itoa value str 10 m) str) (sym (negative_text value e)) (
    minus_sign value str m e,
    omega arith,
    subst (λ q. Holds (itoa value str 10 m) q (high_first (decimal value) [])) (ground arith)
        (magnitude-Holds value str m),
  )
  | inr e ↦ subst (Holds (itoa value str 10 m) str) (sym (other_text value e)) (
      subst (λ q. Holds (itoa value str 10 m) q (high_first (decimal value) [])) (ground arith)
        (magnitude-Holds value str m))
]
  where
    negative_text :
        (v : ℕ) → is_negative v ≡ true → decimal_text v ≡ b'-' ∷ high_first (decimal v) []
    negative_text v e =
        ap (λ (b : Bool). if b then b'-' ∷ high_first (decimal v) [] else high_first (decimal v) [])
          e

    other_text : (v : ℕ) → is_negative v ≡ false → decimal_text v ≡ high_first (decimal v) []
    other_text v e =
        ap (λ (b : Bool). if b then b'-' ∷ high_first (decimal v) [] else high_first (decimal v) [])
          e
