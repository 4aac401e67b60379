-- ===== src/Printf/Typed.antt =====
-- lib/printf.c: the arguments that a format takes, read from the format alone.
pub mod Numbers
pub mod Convert
pub mod Run
use vaelen.Prelude.{
  ==_same, ℕ, zero, suc, ◌+◌, ◌-◌, ◌*◌, ◌%◌, ◌^◌, ◌≤◌, ◌<◌, ◌≡◌, refl, ap, sym, subst, ◌∙◌, Bool,
  true, false, ◌&&◌, ◌||◌, leb, ◌==◌, if◌then◌else◌, Option, none, some, List, [], ◌∷◌, ◌++◌,
  length, arith, Bool-cases, inl, inr,
}
use vaelen.Strings.{Bytes}
use vaelen.Strings.Chars.{strlen, length_from}
use vaelen.Strings.Numbers.{itoa, finish, emit, is_negative, negate}
use vaelen.Strings.Numbers.Digits.{digits}
use vaelen.Strings.Numbers.Text.{finish-emit, text_of, text_end, length-digits}
use vaelen.Printf.{
  puts, number_of, string_of, printf_number, printf_signed, Arg, word, text, number_case, convert,
  Mode, plain, flag, width, at_width, run, printf, ◌>>=◌, padding, pad_char,
}
use vaelen.Printf.Numbers.{printf_number-aligned}

-- What an argument is taken for.
pub data Kind : Type 0 where
  number string : Kind

abbrev pub is_digit : ℕ → Bool
is_digit c = leb b'0' c && leb c b'9'

-- The argument of a conversion character, if it has one.
abbrev pub takes : ℕ → List Kind
takes c =
    if c == b'd' || c == b'i'
    then number ∷ []
    else if c == b'u'
    then number ∷ []
    else if c == b'x' || c == b'X'
    then number ∷ []
    else if c == b'o'
    then number ∷ []
    else if c == b'p'
    then number ∷ []
    else if c == b's'
    then string ∷ []
    else if c == b'c'
    then number ∷ []
    else []

-- The arguments that the rest of a format takes, in order, from plain text or behind a `%`; none if the
-- format ends behind one.
abbrev pub kinds : Bool → List ℕ → Option (List Kind)
kinds false [] = some []
kinds true [] = none
kinds false (c ∷ fmt) = elim (c == b'%') [ true ↦ kinds true fmt | false ↦ kinds false fmt ]
kinds true (c ∷ fmt) = elim (is_digit c) [
  | true ↦ kinds true fmt
  | false ↦ kinds false fmt >>= λ ks. some (takes c ++ ks)
]

-- Arguments that are of these kinds, with others behind them or not: a number is a word, and a string
-- that is a word is a null pointer.
abbrev pub Fits : List Kind → List Arg → Type 0
Fits [] args = Unit {0}
Fits (k ∷ ks) [] = ⊥
Fits (number ∷ ks) (word n ∷ args) = (n < 2 ^ 32) × Fits ks args
Fits (number ∷ ks) (text s ∷ args) = ⊥
Fits (string ∷ ks) (word n ∷ args) = (n ≡ 0) × Fits ks args
Fits (string ∷ ks) (text s ∷ args) = Fits ks args

abbrev pub Prints : Option (List ℕ) → Type 0
Prints o = (out : List ℕ) × (o ≡ some out)

pub Prints-bind :
    (o : Option (List ℕ)) (f : List ℕ → Option (List ℕ))
    → Prints o
    → ((out : List ℕ) → Prints (f out))
    → Prints (o >>= f)
Prints-bind (some out) f there next = next out
Prints-bind none f (out, e) next = absurd cc
