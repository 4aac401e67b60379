-- ===== src/Printf/Typed/Convert.antt =====
-- The conversions of `printf` of lib/printf.c on the arguments that they take.
use vaelen.Prelude.{
  ==_same, ℕ, ◌%◌, ◌^◌, ◌<◌, ◌≡◌, refl, Bool, true, false, ◌||◌, ◌==◌, if◌then◌else◌, Option, some,
  List, [], ◌∷◌, ◌++◌, length, Bool-cases, inl, inr,
}
use vaelen.Strings.{Bytes}
use vaelen.Printf.{number_of, string_of, Arg, word, text, number_case, convert, ◌>>=◌, padding}
use vaelen.Printf.Typed.{Kind, number, string, takes, Fits, Prints, Prints-bind}
use vaelen.Printf.Typed.Numbers.{decimal-Prints, hexadecimal-Prints, octal-Prints, signed-Prints}

-- A conversion that takes arguments of kinds `ks`: whatever stands behind them is left.
abbrev pub Converts : List Kind → (List Arg → Option (List ℕ × List Arg)) → Type 0
Converts ks f =
    (more : List Kind) (args : List Arg)
    → Fits (ks ++ more) args
    → (out : List ℕ) × (left : List Arg) × (f args ≡ some (out, left)) × Fits more left

if-Converts :
    (b : Bool) (ks ks' : List Kind) (f f' : List Arg → Option (List ℕ × List Arg))
    → Converts ks f
    → Converts ks' f'
    → Converts (if b then ks else ks') (λ args. if b then f args else f' args)
if-Converts true ks ks' f f' yes_case no_case = yes_case
if-Converts false ks ks' f f' yes_case no_case = no_case

number_case-Converts :
    (print : ℕ → Option (List ℕ))
    → ((n : ℕ) → n < 2 ^ 32 → Prints (print n))
    → Converts (number ∷ []) (λ args. number_case args print)
unfolding number_case
number_case-Converts print prints more [] fits = absurd fits
number_case-Converts print prints more (text s ∷ args) fits = absurd fits
number_case-Converts print prints more (word n ∷ args) (small, fits) =
    let (out, e) = prints n small in (out, args, rw e refl, fits)

string-Converts :
    (w : ℕ)
    → Converts
        (string ∷ [])
        (λ args. do (s, rest) ← string_of args; some (padding (length s) w b' ' ++ s, rest))
string-Converts w more [] fits = absurd fits
string-Converts w more (text s ∷ args) fits = (_, _, refl, fits)
string-Converts w more (word n ∷ args) (null, fits) = rw (==_same n 0 null) (_, _, refl, fits)

char-Converts :
    Converts (number ∷ []) (λ args. do (n, rest) ← number_of args; some ((n % 2 ^ 8) ∷ [], rest))
char-Converts more [] fits = absurd fits
char-Converts more (text s ∷ args) fits = absurd fits
char-Converts more (word n ∷ args) (small, fits) = (_, _, refl, fits)

percent-Converts :
    (c : ℕ)
    → Converts [] (λ args. if c == b'%' then some (b'%' ∷ [], args) else some (b'%' ∷ c ∷ [], args))
percent-Converts c more args fits = elim (Bool-cases (c == b'%')) [
  | inl e ↦ rw e (_, _, refl, fits)
  | inr e ↦ rw e (_, _, refl, fits)
]

pub convert-Converts :
    (buf : Bytes) (w : ℕ) (pad_zero : Bool) (c : ℕ) → Converts (takes c) (convert buf w pad_zero c)
unfolding convert
convert-Converts buf w pad_zero c =
    if-Converts (c == b'd' || c == b'i') (number ∷ []) _ _ _
      (number_case-Converts _ (signed-Prints buf w pad_zero))
      (if-Converts (c == b'u') (number ∷ []) _ _ _
        (number_case-Converts _ (decimal-Prints buf w pad_zero))
        (if-Converts (c == b'x' || c == b'X') (number ∷ []) _ _ _
          (number_case-Converts _ (hexadecimal-Prints buf w pad_zero))
          (if-Converts (c == b'o') (number ∷ []) _ _ _
            (number_case-Converts _ (octal-Prints buf w pad_zero))
            (if-Converts (c == b'p') (number ∷ []) _ _ _
              (number_case-Converts _ (λ n small.
                Prints-bind _ _ (hexadecimal-Prints buf 8 true n small) (λ out. (_, refl))))
              (if-Converts (c == b's') (string ∷ []) _ _ _ (string-Converts w) (
                if-Converts (c == b'c') (number ∷ []) [] _ _ char-Converts
                  (percent-Converts c)))))))
