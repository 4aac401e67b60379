-- ===== src/Printf/Typed/Run.antt =====
-- The loop of `printf` of lib/printf.c over a format and the arguments that it takes.
use vaelen.Prelude.{
  ℕ, ◌+◌, ◌-◌, ◌*◌, ◌≡◌, refl, ap, sym, subst, ◌∙◌, Bool, true, false, ◌==◌, Option, none, some,
  List, [], ◌∷◌, ◌++◌, arith, Bool-cases, inl, inr,
}
use vaelen.Strings.{Bytes}
use vaelen.Printf.{Arg, Mode, plain, flag, width, at_width, run, printf, ◌>>=◌}
use vaelen.Printf.Typed.{Kind, is_digit, takes, kinds, Fits, Prints, Prints-bind}
use vaelen.Printf.Typed.Convert.{convert-Converts}

kinds-behind :
    (c : ℕ) (rest : Option (List Kind)) (ks : List Kind)
    → (rest >>= λ more. some (takes c ++ more)) ≡ some ks
    → (more : List Kind) × (rest ≡ some more) × (takes c ++ more ≡ ks)
kinds-behind c none ks e = absurd cc
kinds-behind c (some more) ks e = (more, refl, cc)

-- A character behind a `%`, where the rest of the format is printed by `more` or `done`.
at_width-Prints :
    (buf : Bytes) (w : ℕ) (pad_zero : Bool) (c : ℕ) (fmt : List ℕ) (args : List Arg)
    (more : ℕ → Option (List ℕ)) (done : List Arg → Option (List ℕ)) (ks : List Kind)
    → kinds true (c ∷ fmt) ≡ some ks
    → Fits ks args
    → ((w' : ℕ) → kinds true fmt ≡ some ks → Prints (more w'))
    → ((ks' : List Kind) (args' : List Arg)
        → kinds false fmt ≡ some ks'
        → Fits ks' args'
        → Prints (done args'))
    → Prints (at_width buf w pad_zero c args more done)
at_width-Prints buf w pad_zero c fmt args more done ks e fits if_more if_done =
    elim (Bool-cases (is_digit c)) [
      | inl digit ↦ rw digit (if_more (w * 10 + (c - b'0')) (sym (at_kinds digit) ∙ e))
      | inr other ↦
          let (ks', rest, together) =
            kinds-behind c (kinds false fmt) ks (sym (at_kinds other) ∙ e) in
          let (out, args', printed, fits') =
            convert-Converts buf w pad_zero c ks' args
              (subst (λ k. Fits k args) (sym together) fits) in
          rw other rw printed (
            Prints-bind (done args') (λ rest. some (out ++ rest)) (if_done ks' args' rest fits')
              (λ rest. (out ++ rest, refl)))
    ]
  where
    by_digit : Bool → Option (List Kind)
    by_digit b = elim b [
      | true ↦ kinds true fmt
      | false ↦ kinds false fmt >>= λ ks. some (takes c ++ ks)
    ]

    at_kinds : {b : Bool} → is_digit c ≡ b → kinds true (c ∷ fmt) ≡ by_digit b
    at_kinds e = ap by_digit e

abbrev behind_percent : Mode → Bool
behind_percent plain = false
behind_percent flag = true
behind_percent (width w pad_zero) = true

zero_is_digit : (c : ℕ) → (c == b'0') ≡ true → is_digit c ≡ true
zero_is_digit c e = ground arith

run-Prints :
    (buf : Bytes) (mode : Mode) (fmt : List ℕ) (args : List Arg) (ks : List Kind)
    → kinds (behind_percent mode) fmt ≡ some ks
    → Fits ks args
    → Prints (run buf mode fmt args)
unfolding run
run-Prints buf plain [] args ks e fits = ([], refl)
run-Prints buf flag [] args ks e fits = absurd cc
run-Prints buf (width w pad_zero) [] args ks e fits = absurd cc
run-Prints buf plain (c ∷ fmt) args ks e fits = elim (Bool-cases (c == b'%')) [
  | inl opens ↦
      rw (opens, run) (run-Prints buf flag fmt args ks (sym (ap (at_plain fmt) opens) ∙ e) fits)
  | inr stays ↦
      rw (stays, run)
        (Prints-bind (run buf plain fmt args) (λ rest. some (c ∷ rest))
          (run-Prints buf plain fmt args ks (sym (ap (at_plain fmt) stays) ∙ e) fits)
          (λ rest. (c ∷ rest, refl)))
]
  where
    at_plain : List ℕ → Bool → Option (List Kind)
    at_plain fmt b = elim b [ true ↦ kinds true fmt | false ↦ kinds false fmt ]
run-Prints buf flag (c ∷ fmt) args ks e fits = elim (Bool-cases (c == b'0')) [
  | inl padded ↦
      rw (padded, run)
        (run-Prints buf (width 0 true) fmt args ks
          (sym (ap (at_digit c fmt) (zero_is_digit c padded)) ∙ e) fits)
  | inr other ↦
      rw (other, run)
        (at_width-Prints buf 0 false c fmt args (λ w. run buf (width w false) fmt args)
          (λ args'. run buf plain fmt args') ks e fits
          (λ w e'. run-Prints buf (width w false) fmt args ks e' fits)
          (λ ks' args' e' fits'. run-Prints buf plain fmt args' ks' e' fits'))
]
  where
    at_digit : ℕ → List ℕ → Bool → Option (List Kind)
    at_digit c fmt b = elim b [
      | true ↦ kinds true fmt
      | false ↦ kinds false fmt >>= λ ks. some (takes c ++ ks)
    ]
run-Prints buf (width w pad_zero) (c ∷ fmt) args ks e fits =
    at_width-Prints buf w pad_zero c fmt args (λ w'. run buf (width w' pad_zero) fmt args)
      (λ args'. run buf plain fmt args') ks e fits
      (λ w' e'. run-Prints buf (width w' pad_zero) fmt args ks e' fits)
      (λ ks' args' e' fits'. run-Prints buf plain fmt args' ks' e' fits')

-- `printf` is well typed: of a format that does not end in the middle of a conversion, with arguments
-- of the kinds that its conversions take in order, it prints a text, whatever the stack holds.
-- It reads no argument of the other kind and none behind the last, every number ends within
-- its buffer, and it does not read behind the format.
pub printf-Prints :
    (buf : Bytes) (fmt : List ℕ) (args : List Arg) (ks : List Kind)
    → kinds false fmt ≡ some ks
    → Fits ks args
    → Prints (printf buf fmt args)
unfolding printf
printf-Prints buf = run-Prints buf plain
