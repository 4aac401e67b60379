-- ===== src/Stdlib.antt =====
-- lib/stdlib.c: memory for programs, random numbers, `strtol` and the classes of characters. An `int`
-- or a `long` is its bit pattern, below 2^32.
pub mod Strtol
use vaelen.Prelude.{
  ℕ, zero, suc, ◌+◌, ◌-◌, ◌*◌, ◌/◌, ◌%◌, ◌^◌, Bool, true, false, ◌&&◌, ◌||◌, leb, ◌==◌,
  if◌then◌else◌, Option, none, some,
}
use vaelen.Mm.Heap.{Ptr, null, Heap, Outcome, returns, panics, hangs, kmalloc, kfree}
use vaelen.Strings.{Bytes, memset}
use vaelen.Strings.Numbers.{negate, skip_spaces}

unfoldable pub malloc : ℕ → Heap → ℕ → Outcome
malloc fuel m size = kmalloc fuel m size

unfoldable pub free : Heap → Ptr → Heap
free m ptr = kfree m ptr

-- `calloc`, with the bytes of memory.
abbrev cleared : ℕ → Bytes → Outcome → Outcome × Bytes
cleared size bytes (returns ptr m) =
    (returns ptr m, if ptr == null then bytes else memset ptr 0 size bytes)
cleared size bytes out = (out, bytes)

unfoldable pub calloc : ℕ → Heap → Bytes → ℕ → ℕ → Outcome × Bytes
calloc fuel m bytes num size =
    cleared (num * size % 2 ^ 32) bytes (kmalloc fuel m (num * size % 2 ^ 32))

unfoldable pub realloc : ℕ → Heap → Ptr → ℕ → Outcome
realloc fuel m ptr size =
    if ptr == null
    then kmalloc fuel m size
    else if size == 0
    then returns null (kfree m ptr)
    else returns ptr m

-- `rand`, from a seed: the number and the next seed.
unfoldable pub rand : ℕ → ℕ × ℕ
rand rand_seed =
    let next = (rand_seed * 1103515245 + 12345) % 2 ^ 32 in (next / 65536 % 32768, next)

abbrev pub srand : ℕ → ℕ
srand seed = seed

abbrev pub isspace : ℕ → Bool
isspace c = c == 32 || c == 9 || c == 10 || c == 13 || c == 11 || c == 12

abbrev pub isdigit : ℕ → Bool
isdigit c = leb b'0' c && leb c b'9'

abbrev pub isupper : ℕ → Bool
isupper c = leb b'A' c && leb c b'Z'

abbrev pub islower : ℕ → Bool
islower c = leb b'a' c && leb c b'z'

abbrev pub isalpha : ℕ → Bool
isalpha c = islower c || isupper c

abbrev pub isalnum : ℕ → Bool
isalnum c = isalpha c || isdigit c

abbrev pub toupper : ℕ → ℕ
toupper c = if islower c then c - b'a' + b'A' else c

abbrev pub tolower : ℕ → ℕ
tolower c = if isupper c then c - b'A' + b'a' else c

-- The value of a digit in `strtol`, none for the `break`.
abbrev pub digit_of : ℕ → Option ℕ
digit_of c =
    if isdigit c
    then some (c - b'0')
    else if islower c
    then some (c - b'a' + 10)
    else if isupper c
    then some (c - b'A' + 10)
    else none

-- The digit at a place, if it ends neither the string nor the number.
abbrev pub next_digit : ℕ → ℕ → Option ℕ
next_digit base c =
    if c == 0
    then none
    else elim (digit_of c) [ none ↦ none | some d ↦ if leb base d then none else some d ]

-- The loop of `strtol`, on fuel: the result, and where it stops.
unfoldable pub read_number : ℕ → ℕ → ℕ → ℕ → Bytes → Option (ℕ × ℕ)
read_number zero s result base m = none
read_number (suc fuel) s result base m = elim (next_digit base (m s)) [
  | none ↦ some (result, s)
  | some d ↦ read_number fuel (s + 1) ((result * base + d) % 2 ^ 32) base m
]

abbrev pub negated : Option (ℕ × ℕ) → Option (ℕ × ℕ)
negated none = none
negated (some (result, end)) = some (negate result, end)

abbrev pub from_sign : ℕ → ℕ → Bytes → Option ℕ → Option (ℕ × ℕ)
from_sign fuel base m none = none
from_sign fuel base m (some s) =
    if m s == b'-'
    then negated (read_number fuel (s + 1) 0 base m)
    else if m s == b'+'
    then read_number fuel (s + 1) 0 base m
    else read_number fuel s 0 base m

-- `strtol`, with what it writes to `*endptr`.
unfoldable pub strtol : ℕ → ℕ → ℕ → Bytes → Option (ℕ × ℕ)
unfolding read_number
strtol fuel s base m = from_sign fuel base m (skip_spaces fuel s m)
