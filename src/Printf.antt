-- ===== src/Printf.antt =====
-- lib/printf.c: the bytes that `printf` hands to `vga_putchar`, in order.
pub mod Numbers
pub mod Typed
mod Tests
use vaelen.Prelude.{
  ℕ, zero, suc, ◌+◌, ◌-◌, ◌*◌, ◌%◌, ◌^◌, Bool, true, false, not, ◌&&◌, ◌||◌, ltb, leb, ◌==◌,
  if◌then◌else◌, Option, none, some, List, [], ◌∷◌, ◌++◌, length, replicate,
}
use vaelen.Prelude.Text.{bytes}
use vaelen.Strings.{Bytes}
use vaelen.Strings.Chars.{strlen}
use vaelen.Strings.Numbers.{is_negative, negate, itoa}

infixl 5 ◌>>=◌
abbrev pub ◌>>=◌ : {A B : Type 0} → Option A → (A → Option B) → Option B
none >>= f = none
some a >>= f = f a

-- `vga_puts` of the string at `p`, on fuel.
unfoldable pub puts : ℕ → ℕ → Bytes → Option (List ℕ)
puts zero p m = none
puts (suc fuel) p m =
    let rest = puts fuel (p + 1) m in
    if m p == 0 then some [] else (rest >>= λ text. some (m p ∷ text))

-- What is put in front of `len` characters to fill up `width`.
abbrev pub padding : ℕ → ℕ → ℕ → List ℕ
padding len width c = replicate (width - len) c

abbrev pub pad_char : Bool → ℕ
pad_char pad_zero = if pad_zero then b'0' else b' '

-- `printf_number`: the buffer of 32 bytes on the stack starts at 0 and has any contents; a text that
-- does not end within the buffer has no result.
unfoldable pub printf_number : Bytes → ℕ → ℕ → ℕ → Bool → Option (List ℕ)
unfolding puts
printf_number buf num base width pad_zero =
    let m = itoa num 0 base buf in
    do len ← strlen 32 0 m; text ← puts 32 0 m; some (padding len width (pad_char pad_zero) ++ text)

unfoldable pub printf_signed : Bytes → ℕ → ℕ → Bool → Option (List ℕ)
printf_signed buf num width pad_zero =
    if is_negative num
    then (printf_number buf (negate num) 10 (width - 1) pad_zero >>= λ text. some (b'-' ∷ text))
    else printf_number buf num 10 width pad_zero

-- An argument on the stack: a number, which a null pointer is too, or a pointer to a string.
pub data Arg : Type 0 where
  word : ℕ → Arg
  text : List ℕ → Arg

-- A number argument; `none` where the format takes an argument of the other kind or one too many.
abbrev pub number_of : List Arg → Option (ℕ × List Arg)
number_of (word n ∷ args) = some (n, args)
number_of _ = none

abbrev pub string_of : List Arg → Option (List ℕ × List Arg)
string_of (word n ∷ args) = if n == 0 then some (bytes "(null)", args) else none
string_of (text s ∷ args) = some (s, args)
string_of [] = none

-- The cases of the switch that print a number.
unfoldable pub number_case : List Arg → (ℕ → Option (List ℕ)) → Option (List ℕ × List Arg)
number_case args print = do (n, rest) ← number_of args; out ← print n; some (out, rest)

-- The switch on the conversion character: what it prints and the arguments that are left.
unfoldable pub convert : Bytes → ℕ → Bool → ℕ → List Arg → Option (List ℕ × List Arg)
unfolding number_case
convert buf width pad_zero c args =
    if c == b'd' || c == b'i'
    then number_case args (λ n. printf_signed buf n width pad_zero)
    else if c == b'u'
    then number_case args (λ n. printf_number buf n 10 width pad_zero)
    else if c == b'x' || c == b'X'
    then number_case args (λ n. printf_number buf n 16 width pad_zero)
    else if c == b'o'
    then number_case args (λ n. printf_number buf n 8 width pad_zero)
    else if c == b'p'
    then number_case args (λ n. do out ← printf_number buf n 16 8 true; some (bytes "0x" ++ out))
    else if c == b's'
    then (do (s, rest) ← string_of args; some (padding (length s) width b' ' ++ s, rest))
    else if c == b'c'
    then (do (n, rest) ← number_of args; some ((n % 2 ^ 8) ∷ [], rest))
    else if c == b'%'
    then some (b'%' ∷ [], args)
    else some (b'%' ∷ c ∷ [], args)

-- Where the loop stands in the format: in plain text, behind a `%`, or in the width behind it.
pub data Mode : Type 0 where
  plain flag : Mode
  width : ℕ → Bool → Mode

-- A character of the width, or the conversion; the rest of the format is printed by `more` or `done`.
abbrev at_width :
    Bytes
    → ℕ
    → Bool
    → ℕ
    → List Arg
    → (ℕ → Option (List ℕ))
    → (List Arg → Option (List ℕ))
    → Option (List ℕ)
at_width buf w pad_zero c args more done =
    if leb b'0' c && leb c b'9'
    then more (w * 10 + (c - b'0'))
    else (do (out, args') ← convert buf w pad_zero c args; rest ← done args'; some (out ++ rest))

-- The loop over the format. A format that ends behind `%` or in a width takes its terminator for a
-- conversion and reads on behind it, which has no result here.
unfoldable pub run : Bytes → Mode → List ℕ → List Arg → Option (List ℕ)
run buf plain [] args = some []
run buf flag [] args = none
run buf (width w pad_zero) [] args = none
run buf plain (c ∷ fmt) args = elim (c == b'%') [
  | true ↦ run buf flag fmt args
  | false ↦ run buf plain fmt args >>= λ rest. some (c ∷ rest)
]
run buf flag (c ∷ fmt) args = elim (c == b'0') [
  | true ↦ run buf (width 0 true) fmt args
  | false ↦
      at_width buf 0 false c args (λ w. run buf (width w false) fmt args)
        (λ args'. run buf plain fmt args')
]
run buf (width w pad_zero) (c ∷ fmt) args =
    at_width buf w pad_zero c args (λ w'. run buf (width w' pad_zero) fmt args)
      (λ args'. run buf plain fmt args')

unfoldable pub printf : Bytes → List ℕ → List Arg → Option (List ℕ)
unfolding run
printf buf fmt args = run buf plain fmt args
