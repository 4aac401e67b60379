-- ===== src/Printf/Tests.antt =====
-- Runs of `printf`, and its theorems at concrete numbers.
use vaelen.Prelude.{true, arith, ◌≡◌, refl, some, [], ◌∷◌, ◌^◌, ◌-◌}
use vaelen.Prelude.Text.{bytes}
use vaelen.Strings.{Bytes}
use vaelen.Printf.{word, text, printf, convert, printf_number, printf_signed}
use vaelen.Strings.Numbers.{itoa, emit, swap_ends}
use vaelen.Strings.Chars.{strlen}
use vaelen.Strings.Numbers.Decimal.{decimal_text}
use vaelen.Printf.Typed.{number, string, Prints}
use vaelen.Printf.Typed.Run.{printf-Prints}
use vaelen.Printf.Numbers.{aligned, signed_text, convert-decimal}

abbrev stack : Bytes
stack p = 170

boot_line :
    printf stack
      (bytes "%s v%s: %d MB, %08x%%\n")
      (text (bytes "Vaelen Linux") ∷ text (bytes "0.1.0") ∷ word 0 ∷ word 0xB8000 ∷ [])
    ≡ some (bytes "Vaelen Linux v0.1.0: 0 MB, 000b8000%\n")
unfolding printf convert printf_signed printf_number itoa emit swap_ends strlen
boot_line = refl

convert-decimal_example :
    (convert stack 6 true b'd' (word (2 ^ 32 - 42) ∷ [])
      ≡ some (signed_text (2 ^ 32 - 42) 6 true, []))
    × (convert stack 6 true b'u' (word (2 ^ 32 - 42) ∷ [])
        ≡ some (aligned (decimal_text (2 ^ 32 - 42)) 6 true, []))
convert-decimal_example = convert-decimal stack (2 ^ 32 - 42) 6 true [] (omega arith) (omega arith)

-- A number from 2^31 on, printed as unsigned.
unsigned_line : printf stack (bytes "%u") (word (2 ^ 32 - 1) ∷ []) ≡ some (bytes "-1")
unfolding printf convert printf_signed printf_number itoa emit swap_ends strlen
unsigned_line = refl

-- The least `int`.
least_line : printf stack (bytes "%d") (word (2 ^ 31) ∷ []) ≡ some (bytes "--2147483648")
unfolding printf convert printf_signed printf_number itoa emit swap_ends strlen
least_line = refl

-- The sign stands in front of the padding.
padded_line : printf stack (bytes "[%5d]") (word (2 ^ 32 - 7) ∷ []) ≡ some (bytes "[-   7]")
unfolding printf convert printf_signed printf_number itoa emit swap_ends strlen
padded_line = refl

-- A width with a minus sign in front of it is not known: the line of `help`.
help_line :
    printf stack (bytes "%-12s %s\n") (text (bytes "ls") ∷ text (bytes "List") ∷ [])
    ≡ some (bytes "%-12s ls\n")
unfolding printf convert printf_signed printf_number itoa emit swap_ends strlen
help_line = refl

-- A number, a string that is a null pointer, and a character; one argument more than is taken.
printf-Prints_example :
    Prints (
      printf stack (bytes "%08x %s%c") (word 0xB8000 ∷ word 0 ∷ word 65 ∷ text (bytes "left") ∷ []))
printf-Prints_example =
    printf-Prints stack (bytes "%08x %s%c")
      (word 0xB8000 ∷ word 0 ∷ word 65 ∷ text (bytes "left") ∷ []) (number ∷ string ∷ number ∷ [])
      refl (omega arith, (refl, (omega arith, tt)))
