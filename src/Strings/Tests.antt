-- ===== src/Strings/Tests.antt =====
-- The theorems on lib/string.c at concrete ranges, numbers and strings.
use vaelen.Prelude.{◌%◌, ◌^◌, ◌≡◌, ◌-◌, some, refl, [], ◌∷◌, get_or, inr, arith}
use vaelen.Strings.{Bytes, memmove}
use vaelen.Strings.Moves.{moved, memmove-moved}
use vaelen.Strings.Numbers.{itoa, atoi}
use vaelen.Strings.Numbers.RoundTrip.{atoi-itoa}
use vaelen.Strings.Numbers.Bounds.{itoa-bounded}
use vaelen.Strings.Chars.{strcmp}
use vaelen.Strings.Chars.Compare.{Ordered, strcmp-Ordered}

-- Byte `p` holds the low byte of `p`.
abbrev counting : Bytes
counting p = p % 256

memmove-moved_example : memmove 12 10 5 counting 14 ≡ moved 12 10 5 counting 14
memmove-moved_example = memmove-moved 12 10 5 counting 14

-- The least `int`, as text at 100.
atoi-itoa_example : atoi 33 100 (itoa (2 ^ 31) 100 10 counting) ≡ some (2 ^ 31)
atoi-itoa_example = atoi-itoa (2 ^ 31) 100 33 counting (omega arith) (omega arith)

itoa-bounded_example : itoa (2 ^ 32 - 7) 100 10 counting 112 ≡ counting 112
itoa-bounded_example =
    itoa-bounded (2 ^ 32 - 7) 100 10 112 counting (omega arith) (omega arith) (omega arith)
      (inr (omega arith))

-- The strings "cat" at 0 and "cp" at 4.
abbrev two_strings : Bytes
two_strings p = get_or (99 ∷ 97 ∷ 116 ∷ 0 ∷ 99 ∷ 112 ∷ 0 ∷ []) p 0

strcmp-Ordered_example : Ordered (99 ∷ 97 ∷ 116 ∷ []) (99 ∷ 112 ∷ []) (strcmp 4 0 4 two_strings)
strcmp-Ordered_example =
    strcmp-Ordered (99 ∷ 97 ∷ 116 ∷ []) (99 ∷ 112 ∷ []) 4 0 4 two_strings
      (refl, omega arith, (refl, omega arith, (refl, omega arith, refl)))
      (refl, omega arith, (refl, omega arith, refl)) (omega arith)
