-- ===== src/Strings.antt =====
-- lib/string.c: the functions that move bytes. Memory is a function from an address to its byte; an
-- object does not wrap around the end of the address space.
pub mod Moves
pub mod Chars
pub mod Numbers
mod Tests
use vaelen.Prelude.{
  ℕ, zero, suc, ◌+◌, ◌-◌, ◌%◌, ◌^◌, Bool, not, List, [], ◌∷◌, ltb, ◌==◌, if◌then◌else◌, update,
  Option, none, some,
}
use vaelen.Prelude.Int.{ℤ, pos, negsuc}

-- The bytes of memory.
abbrev pub Bytes : Type 0
Bytes = ℕ → ℕ

-- `for (i = 0; i < n; i++) d[i] = s[i]`: the rounds from `i` on, `n` of them.
unfoldable pub copy_up : ℕ → ℕ → ℕ → ℕ → Bytes → Bytes
copy_up d s i zero m = m
copy_up d s i (suc n) m = copy_up d s (i + 1) n (update m (d + i) (m (s + i)))

-- `for (i = n; i > 0; i--) d[i-1] = s[i-1]`
unfoldable pub copy_down : ℕ → ℕ → ℕ → Bytes → Bytes
copy_down d s zero m = m
copy_down d s (suc i) m = copy_down d s i (update m (d + i) (m (s + i)))

unfoldable pub memcpy : ℕ → ℕ → ℕ → Bytes → Bytes
unfolding copy_up
memcpy dest src n m = copy_up dest src 0 n m

unfoldable pub memmove : ℕ → ℕ → ℕ → Bytes → Bytes
unfolding copy_up copy_down
memmove dest src n m = if ltb dest src then copy_up dest src 0 n m else copy_down dest src n m

-- The rounds of `memset` from `i` on, `n` of them, for a byte.
unfoldable pub fill : ℕ → ℕ → ℕ → ℕ → Bytes → Bytes
fill p c i zero m = m
fill p c i (suc n) m = fill p c (i + 1) n (update m (p + i) c)

unfoldable pub memset : ℕ → ℕ → ℕ → Bytes → Bytes
unfolding fill
memset p c n m = fill p (c % 2 ^ 8) 0 n m

-- The difference of two bytes, an `int`.
abbrev pub byte_difference : ℕ → ℕ → ℤ
byte_difference a b = if ltb a b then negsuc (b - a - 1) else pos (a - b)

-- The rounds of `memcmp` from `i` on, `n` of them.
unfoldable pub compare_from : ℕ → ℕ → ℕ → ℕ → Bytes → ℤ
compare_from a b i zero m = pos 0
compare_from a b i (suc n) m =
    let rest = compare_from a b (i + 1) n m in
    if not (m (a + i) == m (b + i)) then byte_difference (m (a + i)) (m (b + i)) else rest

unfoldable pub memcmp : ℕ → ℕ → ℕ → Bytes → ℤ
unfolding compare_from
memcmp s1 s2 n m = compare_from s1 s2 0 n m
