-- ===== src/Stdlib/Strtol.antt =====
-- `strtol` of lib/stdlib.c against `atoi` of lib/string.c.
use vaelen.Prelude.{
  ℕ, zero, suc, ◌+◌, ◌-◌, ◌*◌, ◌%◌, ◌^◌, ◌≡◌, refl, ap, ◌∙◌, Bool, true, false, ◌&&◌, leb, ◌==◌,
  if◌then◌else◌, Option, none, some, arith,
}
use vaelen.Strings.{Bytes}
use vaelen.Strings.Numbers
use vaelen.Strings.Numbers.{skip_spaces, read_digits, times_sign, atoi}
use vaelen.Stdlib.{next_digit, read_number, negated, from_sign, strtol}

abbrev pub result : Option (ℕ × ℕ) → Option ℕ
result none = none
result (some (n, end)) = some n

-- In base 10 only the decimal digits go on.
next_digit-ten :
    (c : ℕ) → next_digit 10 c ≡ (if leb b'0' c && leb c b'9' then some (c - b'0') else none)
next_digit-ten c = ground arith

-- One round of the loop, for what `next_digit` says.
step : ℕ → ℕ → ℕ → Bytes → Option ℕ → Option (ℕ × ℕ)
step fuel s n m none = some (n, s)
step fuel s n m (some d) = read_number fuel (s + 1) ((n * 10 + d) % 2 ^ 32) 10 m

read_number-step :
    (fuel s n : ℕ) (m : Bytes)
    → read_number (suc fuel) s n 10 m ≡ step fuel s n m (next_digit 10 (m s))
unfolding read_number step
read_number-step fuel s n m = go (next_digit 10 (m s))
  where
    go :
        (o : Option ℕ)
        → (elim o [
          | none ↦ some (n, s)
          | some d ↦ read_number fuel (s + 1) ((n * 10 + d) % 2 ^ 32) 10 m
        ])
          ≡ step fuel s n m o
    go none = refl
    go (some d) = refl

read_number-ten :
    (fuel s n : ℕ) (m : Bytes) → result (read_number fuel s n 10 m) ≡ read_digits fuel s n m
unfolding read_number read_digits step
read_number-ten zero s n m = refl
read_number-ten (suc fuel) s n m =
    ap result (read_number-step fuel s n m ∙ ap (step fuel s n m) (next_digit-ten (m s)))
    ∙ split (leb b'0' (m s) && leb (m s) b'9')
        (read_number-ten fuel (s + 1) ((n * 10 + (m s - b'0')) % 2 ^ 32) m)
  where
    split :
        (b : Bool)
        → (result (read_number fuel (s + 1) ((n * 10 + (m s - b'0')) % 2 ^ 32) 10 m)
            ≡ read_digits fuel (s + 1) ((n * 10 + (m s - b'0')) % 2 ^ 32) m)
        → result (step fuel s n m (if b then some (m s - b'0') else none))
          ≡ (if b then read_digits fuel (s + 1) ((n * 10 + (m s - b'0')) % 2 ^ 32) m else some n)
    split true e = e
    split false e = refl

result-negated : (o : Option (ℕ × ℕ)) → result (negated o) ≡ times_sign true (result o)
result-negated none = refl
result-negated (some (n, end)) = refl

-- The choice of a sign, for what either function reads behind it and from it on.
result-signed :
    (minus plus : Bool) (n₁ n₀ : Option (ℕ × ℕ)) (d₁ d₀ : Option ℕ)
    → result n₁ ≡ d₁
    → result n₀ ≡ d₀
    → result (if minus then negated n₁ else if plus then n₁ else n₀)
      ≡ (if minus then times_sign true d₁ else if plus then d₁ else d₀)
result-signed true plus n₁ n₀ d₁ d₀ behind from = result-negated n₁ ∙ ap (times_sign true) behind
result-signed false true n₁ n₀ d₁ d₀ behind from = behind
result-signed false false n₁ n₀ d₁ d₀ behind from = from

-- In base 10 `strtol` gives what `atoi` gives, whatever memory holds, with the same number of rounds.
pub strtol-atoi : (fuel s : ℕ) (m : Bytes) → result (strtol fuel s 10 m) ≡ atoi fuel s m
unfolding strtol atoi
strtol-atoi fuel s m = go (skip_spaces fuel s m)
  where
    go : (o : Option ℕ) → result (from_sign fuel 10 m o) ≡ Numbers.from_sign fuel m o
    go none = refl
    go (some p) =
        result-signed (m p == b'-') (m p == b'+') _ _ _ _ (read_number-ten fuel (p + 1) 0 m)
          (read_number-ten fuel p 0 m)
