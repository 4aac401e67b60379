-- ===== src/Strings/Chars.antt =====
-- The functions of lib/string.c on strings, which end at the first byte 0. Their loops run on fuel,
-- and `none` means that it ran out.
pub mod Compare
use vaelen.Prelude.{
  ℕ, zero, suc, ◌+◌, ◌%◌, ◌^◌, Bool, true, false, not, ◌&&◌, ◌||◌, ltb, ◌==◌, if◌then◌else◌, update,
  Option, none, some,
}
use vaelen.Prelude.Int.{ℤ, pos, negsuc}
use vaelen.Strings.{Bytes, byte_difference}

-- The loop of `strlen`, from `len` on.
unfoldable pub length_from : ℕ → ℕ → ℕ → Bytes → Option ℕ
length_from zero s len m = none
length_from (suc fuel) s len m =
    let rest = length_from fuel s (len + 1) m in if not (m (s + len) == 0) then rest else some len

unfoldable pub strlen : ℕ → ℕ → Bytes → Option ℕ
unfolding length_from
strlen fuel s m = length_from fuel s 0 m

unfoldable pub strcmp : ℕ → ℕ → ℕ → Bytes → Option ℤ
strcmp zero s1 s2 m = none
strcmp (suc fuel) s1 s2 m =
    let rest = strcmp fuel (s1 + 1) (s2 + 1) m in
    if not (m s1 == 0) && m s1 == m s2 then rest else some (byte_difference (m s1) (m s2))

-- The rounds of `strncmp` from `i` on, `n` of them.
unfoldable pub strncmp_from : ℕ → ℕ → ℕ → ℕ → Bytes → ℤ
strncmp_from s1 s2 i zero m = pos 0
strncmp_from s1 s2 i (suc n) m =
    let rest = strncmp_from s1 s2 (i + 1) n m in
    if not (m (s1 + i) == m (s2 + i))
    then byte_difference (m (s1 + i)) (m (s2 + i))
    else if m (s1 + i) == 0
    then pos 0
    else rest

unfoldable pub strncmp : ℕ → ℕ → ℕ → Bytes → ℤ
unfolding strncmp_from
strncmp s1 s2 n m = strncmp_from s1 s2 0 n m

-- `while ((*d++ = *src++))`
unfoldable pub strcpy : ℕ → ℕ → ℕ → Bytes → Option Bytes
strcpy zero d src m = none
strcpy (suc fuel) d src m =
    let rest = strcpy fuel (d + 1) (src + 1) (update m d (m src)) in
    if m src == 0 then some (update m d (m src)) else rest

-- The second loop of `strncpy`: `n` zeros from `i` on.
unfoldable pub pad : ℕ → ℕ → ℕ → Bytes → Bytes
pad dest i zero m = m
pad dest i (suc n) m = pad dest (i + 1) n (update m (dest + i) 0)

-- The first loop of `strncpy` from `i` on, with `n` rounds left, and what follows it.
unfoldable pub strncpy_from : ℕ → ℕ → ℕ → ℕ → Bytes → Bytes
unfolding pad
strncpy_from dest src i zero m = m
strncpy_from dest src i (suc n) m =
    let rest = strncpy_from dest src (i + 1) n (update m (dest + i) (m (src + i))) in
    if not (m (src + i) == 0) then rest else pad dest i (suc n) m

unfoldable pub strncpy : ℕ → ℕ → ℕ → Bytes → Bytes
unfolding strncpy_from
strncpy dest src n m = strncpy_from dest src 0 n m

abbrev copy_to_end : ℕ → ℕ → ℕ → Bytes → Option ℕ → Option Bytes
copy_to_end fuel dest src m none = none
copy_to_end fuel dest src m (some len) = strcpy fuel (dest + len) src m

-- `while (*d) d++`, and then the loop of `strcpy`.
unfoldable pub strcat : ℕ → ℕ → ℕ → Bytes → Option Bytes
unfolding strlen
strcat fuel dest src m = copy_to_end fuel dest src m (strlen fuel dest m)

-- `strchr`: the address of the first byte that is `(char)c`, 0 for none.
unfoldable pub strchr : ℕ → ℕ → ℕ → Bytes → Option ℕ
strchr zero s c m = none
strchr (suc fuel) s c m =
    let rest = strchr fuel (s + 1) c m in
    if m s == 0 then some 0 else if m s == c % 2 ^ 8 then some s else rest

-- The loop of `strrchr`, with the last place found so far.
unfoldable pub strrchr_from : ℕ → ℕ → ℕ → ℕ → Bytes → Option ℕ
strrchr_from zero s c last m = none
strrchr_from (suc fuel) s c last m =
    let rest = strrchr_from fuel (s + 1) c (if m s == c % 2 ^ 8 then s else last) m in
    if m s == 0 then some last else rest

unfoldable pub strrchr : ℕ → ℕ → ℕ → Bytes → Option ℕ
unfolding strrchr_from
strrchr fuel s c m = strrchr_from fuel s c 0 m

abbrev pub is_zero : ℤ → Bool
is_zero (pos n) = n == 0
is_zero (negsuc n) = false

-- The loop of `strstr`, for a needle of `n` bytes.
unfoldable pub strstr_from : ℕ → ℕ → ℕ → ℕ → Bytes → Option ℕ
unfolding strncmp
strstr_from zero haystack needle n m = none
strstr_from (suc fuel) haystack needle n m =
    let rest = strstr_from fuel (haystack + 1) needle n m in
    if m haystack == 0
    then some 0
    else if is_zero (strncmp haystack needle n m)
    then some haystack
    else rest

abbrev find_needle : ℕ → ℕ → ℕ → Bytes → Option ℕ → Option ℕ
find_needle fuel haystack needle m none = none
find_needle fuel haystack needle m (some n) =
    if n == 0 then some haystack else strstr_from fuel haystack needle n m

unfoldable pub strstr : ℕ → ℕ → ℕ → Bytes → Option ℕ
unfolding strlen strstr_from
strstr fuel haystack needle m = find_needle fuel haystack needle m (strlen fuel needle m)
