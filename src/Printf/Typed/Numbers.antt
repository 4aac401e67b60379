-- ===== src/Printf/Typed/Numbers.antt =====
-- That `printf` of lib/printf.c has a text for every number.
use vaelen.Prelude.{
  ==_same, ℕ, zero, suc, ◌+◌, ◌-◌, ◌^◌, ◌<◌, ◌≤◌, ◌≡◌, refl, ap, sym, subst, ◌∙◌, Bool, true, false,
  ◌&&◌, ◌==◌, Option, some, List, [], ◌∷◌, ◌++◌, length, arith, Bool-cases, inl, inr,
}
use vaelen.Strings.{Bytes}
use vaelen.Strings.Chars.{strlen, length_from}
use vaelen.Strings.Numbers.{itoa, finish, emit, is_negative, negate}
use vaelen.Strings.Numbers.Digits.{digits}
use vaelen.Strings.Numbers.Text.{finish-emit, text_end}
use vaelen.Strings.Numbers.Bounds.{length-digits-le}
use vaelen.Printf.{puts, printf_number, printf_signed, ◌>>=◌, padding, pad_char}
use vaelen.Printf.Numbers.{printf_number-aligned}
use vaelen.Printf.Typed.{Prints, Prints-bind}

-- A string that ends within the fuel.
length_from-ends :
    (k fuel s len : ℕ) (m : Bytes)
    → m (s + len + k) ≡ 0
    → k < fuel
    → (n : ℕ) × (length_from fuel s len m ≡ some n)
unfolding length_from
length_from-ends k zero s len m e enough = absurd (omega arith)
length_from-ends zero (suc fuel) s len m e enough =
    rw (==_same (m (s + len)) 0 (ap m {x = s + len} {y = s + len + 0} (omega arith) ∙ e))
      (len, refl)
length_from-ends (suc k) (suc fuel) s len m e enough = elim (Bool-cases (m (s + len) == 0)) [
  | inl here ↦ rw here (len, refl)
  | inr there ↦
      rw there (length_from-ends k fuel s (len + 1) m (ap m (omega arith) ∙ e) (omega arith))
]

puts-Prints : (k fuel p : ℕ) (m : Bytes) → m (p + k) ≡ 0 → k < fuel → Prints (puts fuel p m)
unfolding puts
puts-Prints k zero p m e enough = absurd (omega arith)
puts-Prints zero (suc fuel) p m e enough =
    rw (==_same (m p) 0 (ap m {x = p} {y = p + 0} (omega arith) ∙ e)) ([], refl)
puts-Prints (suc k) (suc fuel) p m e enough = elim (Bool-cases (m p == 0)) [
  | inl here ↦ rw here ([], refl)
  | inr there ↦ rw there (
      Prints-bind (puts fuel (p + 1) m) (λ rest. some (m p ∷ rest))
        (puts-Prints k fuel (p + 1) m (ap m (omega arith) ∙ e) (omega arith))
        (λ rest. (m p ∷ rest, refl)))
]

-- The digits in a base from 8 on leave room in the buffer for the end of the text.
short : (n base : ℕ) → n < 2 ^ 32 → 8 ≤ base → length (digits 32 n base) < 32
short n base small large =
    omega (arith, length-digits-le 32 n base 8 10 (omega arith) large (omega arith))

-- A number in a base in which `itoa` writes no sign.
printf_number-Prints :
    (buf : Bytes) (num base w : ℕ) (pad_zero : Bool)
    → length (digits 32 num base) < 32
    → itoa num 0 base buf ≡ finish 0 (emit 32 num base 0 buf)
    → Prints (printf_number buf num base w pad_zero)
unfolding printf_number strlen
printf_number-Prints buf num base w pad_zero short e =
    subst (λ (m : Bytes). Prints (printed m)) (sym e)
      (let (len, found) = length_from-ends last 32 0 0 done end short in
        let (out, shown) = puts-Prints last 32 0 done end short in
        (padding len w (pad_char pad_zero) ++ out, rw found rw shown refl))
  where
    last : ℕ
    last = length (digits 32 num base)

    done : Bytes
    done = finish 0 (emit 32 num base 0 buf)

    end : done (0 + last) ≡ 0
    end =
        ap done {x = 0 + last} {y = 0 + (last - 0)} (omega arith)
        ∙ finish-emit num base 0 (0 + (last - 0)) buf
        ∙ text_end 0 (digits 32 num base) buf

    printed : Bytes → Option (List ℕ)
    printed m = do
      len ← strlen 32 0 m
      out ← puts 32 0 m
      some (padding len w (pad_char pad_zero) ++ out)

module _ (buf : Bytes) (w : ℕ) (pad_zero : Bool) where
  pub decimal-Prints : (n : ℕ) → n < 2 ^ 32 → Prints (printf_number buf n 10 w pad_zero)
  decimal-Prints n small = (_, printf_number-aligned buf n w pad_zero small)

  unsigned : (b : Bool) → (b && false) ≡ false
  unsigned true = refl
  unsigned false = refl

  pub hexadecimal-Prints : (n : ℕ) → n < 2 ^ 32 → Prints (printf_number buf n 16 w pad_zero)
  unfolding itoa
  hexadecimal-Prints n small =
      printf_number-Prints buf n 16 w pad_zero (short n 16 small (omega arith))
        (rw (unsigned (is_negative n)) refl)

  pub octal-Prints : (n : ℕ) → n < 2 ^ 32 → Prints (printf_number buf n 8 w pad_zero)
  unfolding itoa
  octal-Prints n small =
      printf_number-Prints buf n 8 w pad_zero (short n 8 small (omega arith))
        (rw (unsigned (is_negative n)) refl)

pub signed-Prints :
    (buf : Bytes) (w : ℕ) (pad_zero : Bool) (n : ℕ)
    → n < 2 ^ 32
    → Prints (printf_signed buf n w pad_zero)
unfolding printf_signed
signed-Prints buf w pad_zero n small = elim (Bool-cases (is_negative n)) [
  | inl minus ↦ rw minus (
      Prints-bind (printf_number buf (negate n) 10 (w - 1) pad_zero) (λ out. some (b'-' ∷ out))
        (decimal-Prints buf (w - 1) pad_zero (negate n) (omega arith)) (λ out. (b'-' ∷ out, refl)))
  | inr plus ↦ rw plus (decimal-Prints buf w pad_zero n small)
]
