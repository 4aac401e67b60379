-- ===== src/Printf/Numbers.antt =====
-- The numbers that `printf` of lib/printf.c prints.
use vaelen.Prelude.{
  ==_differ, ℕ, zero, suc, ◌+◌, ◌-◌, ◌^◌, ◌≤◌, ◌<◌, ◌≡◌, ◌≢◌, refl, ap, sym, ◌∙◌, Bool, true, false,
  if◌then◌else◌, List, [], ◌∷◌, ◌++◌, length, Option, some, arith, Bool-cases, inl, inr,
}
use vaelen.Strings.{Bytes}
use vaelen.Strings.Chars.Compare.{Holds, strlen-Holds}
use vaelen.Strings.Numbers.{is_negative, negate, digit_char, itoa}
use vaelen.Strings.Numbers.Digits.{digits}
use vaelen.Strings.Numbers.Text.{magnitude, decimal}
use vaelen.Strings.Numbers.Bounds.{length-digits-le}
use vaelen.Strings.Numbers.Decimal.{high_first, decimal_text, itoa-Holds}
use vaelen.Printf.{puts, padding, pad_char, printf_number, printf_signed, Arg, word, convert, ◌>>=◌}

pub puts-Holds :
    (cs : List ℕ) (fuel p : ℕ) (m : Bytes)
    → length cs < fuel
    → Holds m p cs
    → puts fuel p m ≡ some cs
unfolding puts
puts-Holds cs zero p m h holds = absurd (omega arith)
puts-Holds [] (suc fuel) p m h holds = rw holds refl
puts-Holds (c ∷ cs) (suc fuel) p m h (e, ne, rest) =
    rw e rw (==_differ c 0 ne) rw (puts-Holds cs fuel (p + 1) m (omega arith) rest) refl

length-high_first : (ds acc : List ℕ) → length (high_first ds acc) ≡ length ds + length acc
length-high_first [] acc = omega arith
length-high_first (d ∷ ds) acc = omega (arith, length-high_first ds (digit_char d ∷ acc))

length-decimal : (num : ℕ) → num < 2 ^ 32 → length (decimal num) ≤ 10
length-decimal num h =
    length-digits-le 32 (magnitude num) 10 10 9 (omega arith) (omega arith) (small num h)
  where
    small : (n : ℕ) → n < 2 ^ 32 → magnitude n < 10 ^ 10
    small n h = ground arith

length-sign : (b : Bool) (t : List ℕ) → length (if b then b'-' ∷ t else t) ≤ suc (length t)
length-sign true t = omega arith
length-sign false t = omega arith

pub length-decimal_text : (num : ℕ) → num < 2 ^ 32 → length (decimal_text num) < 32
length-decimal_text num h = omega (
  arith,
  length-sign (is_negative num) (high_first (decimal num) []),
  length-high_first (decimal num) [],
  length-decimal num h,
)

-- The text of a number, on the right of `width` characters.
abbrev pub aligned : List ℕ → ℕ → Bool → List ℕ
aligned text width pad_zero = padding (length text) width (pad_char pad_zero) ++ text

pub printf_number-aligned :
    (buf : Bytes) (num width : ℕ) (pad_zero : Bool)
    → num < 2 ^ 32
    → printf_number buf num 10 width pad_zero ≡ some (aligned (decimal_text num) width pad_zero)
unfolding printf_number
printf_number-aligned buf num width pad_zero h =
    let holds = itoa-Holds num 0 buf in
    let short = length-decimal_text num h in
    rw (strlen-Holds (decimal_text num) 32 0 (itoa num 0 10 buf) short holds) rw
      (puts-Holds (decimal_text num) 32 0 (itoa num 0 10 buf) short holds) refl

-- What `%d` prints: a negative number has its sign in front of the padding.
abbrev pub signed_text : ℕ → ℕ → Bool → List ℕ
signed_text num width pad_zero =
    if is_negative num
    then b'-' ∷ aligned (high_first (decimal num) []) (width - 1) pad_zero
    else aligned (high_first (decimal num) []) width pad_zero

decimal_text-unsigned :
    (num : ℕ) → is_negative num ≡ false → decimal_text num ≡ high_first (decimal num) []
decimal_text-unsigned num e =
    ap (λ (b : Bool). if b then b'-' ∷ high_first (decimal num) [] else high_first (decimal num) [])
      e

-- Except for the least `int`, the magnitude of a negative number is not negative.
decimal_text-negate :
    (num : ℕ)
    → num < 2 ^ 32
    → num ≢ 2 ^ 31
    → is_negative num ≡ true
    → decimal_text (negate num) ≡ high_first (decimal num) []
decimal_text-negate num h ne e =
    decimal_text-unsigned (negate num) (positive num h ne e)
    ∙ ap (λ (v : ℕ). high_first (digits 32 v 10) []) (same num h ne e)
  where
    positive :
        (n : ℕ) → n < 2 ^ 32 → n ≢ 2 ^ 31 → is_negative n ≡ true → is_negative (negate n) ≡ false
    positive n h ne e = ground arith

    same :
        (n : ℕ)
        → n < 2 ^ 32
        → n ≢ 2 ^ 31
        → is_negative n ≡ true
        → magnitude (negate n) ≡ magnitude n
    same n h ne e = ground arith

printf_signed-signed_text :
    (buf : Bytes) (num width : ℕ) (pad_zero : Bool)
    → num < 2 ^ 32
    → num ≢ 2 ^ 31
    → printf_signed buf num width pad_zero ≡ some (signed_text num width pad_zero)
unfolding printf_signed
printf_signed-signed_text buf num width pad_zero h ne = elim (Bool-cases (is_negative num)) [
  | inl e ↦
      ap (λ (b : Bool). if b then minus else plus) e
      ∙ ap (λ (o : Option (List ℕ)). o >>= λ text. some (b'-' ∷ text))
          (printf_number-aligned buf (negate num) (width - 1) pad_zero (negate_bound num)
            ∙ ap (λ (t : List ℕ). some (aligned t (width - 1) pad_zero))
                (decimal_text-negate num h ne e))
      ∙ sym (ap answer e)
  | inr e ↦
      ap (λ (b : Bool). if b then minus else plus) e
      ∙ printf_number-aligned buf num width pad_zero h
      ∙ ap (λ (t : List ℕ). some (aligned t width pad_zero)) (decimal_text-unsigned num e)
      ∙ sym (ap answer e)
]
  where
    minus : Option (List ℕ)
    minus = printf_number buf (negate num) 10 (width - 1) pad_zero >>= λ text. some (b'-' ∷ text)

    plus : Option (List ℕ)
    plus = printf_number buf num 10 width pad_zero

    answer : Bool → Option (List ℕ)
    answer b = some (
        if b
        then b'-' ∷ aligned (high_first (decimal num) []) (width - 1) pad_zero
        else aligned (high_first (decimal num) []) width pad_zero)

    negate_bound : (n : ℕ) → negate n < 2 ^ 32
    negate_bound n = omega arith

-- The conversions `d` and `u`, with any width and padding, of a number other than the least `int`:
-- `d` prints its decimal digits on the right, a minus sign in front of the padding. `u` prints the
-- same number signed as well, so one from 2^31 on comes out negative.
pub convert-decimal :
    (buf : Bytes) (num width : ℕ) (pad_zero : Bool) (args : List Arg)
    → num < 2 ^ 32
    → num ≢ 2 ^ 31
    → (convert buf width pad_zero b'd' (word num ∷ args)
        ≡ some (signed_text num width pad_zero, args))
      × (convert buf width pad_zero b'u' (word num ∷ args)
          ≡ some (aligned (decimal_text num) width pad_zero, args))
unfolding convert
convert-decimal buf num width pad_zero args h ne = (
  rw (printf_signed-signed_text buf num width pad_zero h ne) refl,
  rw (printf_number-aligned buf num width pad_zero h) refl,
)
