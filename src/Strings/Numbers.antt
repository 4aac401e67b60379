-- ===== src/Strings/Numbers.antt =====
-- `itoa` and `atoi` of lib/string.c. An `int` is its bit pattern, below 2^32, and its arithmetic
-- wraps.
pub mod Digits
pub mod Text
pub mod RoundTrip
pub mod Bounds
pub mod Decimal
use vaelen.Prelude.{
  ℕ, zero, suc, ◌+◌, ◌-◌, ◌*◌, ◌/◌, ◌%◌, ◌^◌, Bool, true, false, ◌&&◌, ◌||◌, ltb, leb, ◌==◌,
  if◌then◌else◌, update, Option, none, some,
}
use vaelen.Strings.{Bytes}

-- The sign of an `int`, and `-value`.
abbrev pub is_negative : ℕ → Bool
is_negative value = leb (2 ^ 31) value

abbrev pub negate : ℕ → ℕ
negate value = (2 ^ 32 - value) % 2 ^ 32

abbrev pub digit_char : ℕ → ℕ
digit_char rem = if ltb rem 10 then rem + b'0' else rem + b'a' - 10

-- The do-while loop of `itoa`, in at most `fuel` rounds: where `p` ends and the memory.
unfoldable pub emit : ℕ → ℕ → ℕ → ℕ → Bytes → ℕ × Bytes
emit zero v base p m = (p, m)
emit (suc fuel) v base p m =
    let m' = update m p (digit_char (v % base)) in
    let rest = emit fuel (v / base) base (p + 1) m' in if v / base == 0 then (p + 1, m') else rest

-- The loop that swaps the bytes at `p1` and `p2`, in at most `fuel` rounds.
unfoldable pub swap_ends : ℕ → ℕ → ℕ → Bytes → Bytes
swap_ends zero p1 p2 m = m
swap_ends (suc fuel) p1 p2 m =
    let rest = swap_ends fuel (p1 + 1) (p2 - 1) (update (update m p1 (m p2)) p2 (m p1)) in
    if ltb p1 p2 then rest else m

-- The end of `itoa`: the terminator and the reversal of the digits from `p1` on.
abbrev pub finish : ℕ → ℕ × Bytes → Bytes
finish p1 (p, m) = swap_ends 32 p1 (p - 1) (update m p 0)

unfoldable pub itoa : ℕ → ℕ → ℕ → Bytes → Bytes
itoa value str base m =
    if ltb base 2 || ltb 36 base
    then update m str 0
    else if is_negative value && base == 10
    then finish (str + 1) (emit 32 (negate value) base (str + 1) (update m str b'-'))
    else finish str (emit 32 value base str m)

-- `while (*s == ' ') s++`, on fuel.
unfoldable pub skip_spaces : ℕ → ℕ → Bytes → Option ℕ
skip_spaces zero s m = none
skip_spaces (suc fuel) s m =
    let rest = skip_spaces fuel (s + 1) m in if m s == b' ' then rest else some s

-- The loop over the decimal digits, on fuel.
unfoldable pub read_digits : ℕ → ℕ → ℕ → Bytes → Option ℕ
read_digits zero s result m = none
read_digits (suc fuel) s result m =
    let rest = read_digits fuel (s + 1) ((result * 10 + (m s - b'0')) % 2 ^ 32) m in
    if leb b'0' (m s) && leb (m s) b'9' then rest else some result

-- `atoi` from the sign on.
abbrev pub times_sign : Bool → Option ℕ → Option ℕ
times_sign negative none = none
times_sign negative (some result) = some (if negative then negate result else result)

abbrev pub from_sign : ℕ → Bytes → Option ℕ → Option ℕ
from_sign fuel m none = none
from_sign fuel m (some s) =
    if m s == b'-'
    then times_sign true (read_digits fuel (s + 1) 0 m)
    else if m s == b'+'
    then read_digits fuel (s + 1) 0 m
    else read_digits fuel s 0 m

-- `none` means that the fuel ran out.
unfoldable pub atoi : ℕ → ℕ → Bytes → Option ℕ
unfolding skip_spaces
atoi fuel s m = from_sign fuel m (skip_spaces fuel s m)
