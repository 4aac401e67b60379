-- ===== src/Strings/Moves.antt =====
-- `memmove`, `memcpy`, `memset` and `memcmp` of lib/string.c: what they leave in every byte, also
-- where source and destination overlap.
use vaelen.Prelude.{
  ℕ, zero, suc, ◌+◌, ◌-◌, ◌%◌, ◌^◌, ◌≤◌, ◌<◌, ◌≡◌, refl, ap, ◌∙◌, true, false, ◌&&◌, ltb, leb, ◌==◌,
  if◌then◌else◌, update, arith, Bool-cases, inl, inr, dec_lt, ℕ_discrete, ap₂, sym, ◌⊎◌,
}
use vaelen.Strings.{Bytes, copy_up, copy_down, memcpy, memmove, fill, memset, memcmp, compare_from}
use vaelen.Prelude.Int.{pos}

-- Memory with the `n` bytes at `s` copied to `d` at once.
abbrev pub moved : ℕ → ℕ → ℕ → Bytes → Bytes
moved d s n m p = if leb d p && ltb p (d + n) then m (p - d + s) else m p

copy_down-moved : (d s n : ℕ) (m : Bytes) (p : ℕ) → s ≤ d → copy_down d s n m p ≡ moved d s n m p
unfolding copy_down
copy_down-moved d s zero m p h = ground arith
copy_down-moved d s (suc i) m p h =
    copy_down-moved d s i (update m (d + i) (m (s + i))) p h ∙ elim (ℕ_discrete (d + i) p) [
      | yes e ↦ ground (arith, ap m {x = s + i} {y = p - d + s} (omega arith))
      | no e ↦ ground arith
    ]

-- One round of a copy upwards, which does not overwrite a byte that is still to be copied.
moved-round :
    (d s i n : ℕ) (m : Bytes) (p : ℕ)
    → (d ≤ s) ⊎ (s + suc n ≤ d)
    → moved (d + (i + 1)) (s + (i + 1)) n (update m (d + i) (m (s + i))) p
      ≡ moved (d + i) (s + i) (suc n) m p
moved-round d s i n m p h = elim (ℕ_discrete (d + i) p) [
  | yes e ↦ ground (arith, ap m {x = s + i} {y = p - (d + i) + (s + i)} (omega arith))
  | no e ↦ elim (dec_lt (d + i) p) [
    | yes lt ↦ ground (
      arith,
      ap m {x = p - (d + (i + 1)) + (s + (i + 1))} {y = p - (d + i) + (s + i)} (omega arith),
    )
    | no ge ↦ ground arith
  ]
]

-- The rounds from `i` on copy what lies behind the bytes already copied.
copy_up-moved :
    (d s i n : ℕ) (m : Bytes) (p : ℕ)
    → (d ≤ s) ⊎ (s + n ≤ d)
    → copy_up d s i n m p ≡ moved (d + i) (s + i) n m p
unfolding copy_up
copy_up-moved d s i zero m p h = ground arith
copy_up-moved d s i (suc n) m p h =
    copy_up-moved d s (i + 1) n (update m (d + i) (m (s + i))) p (ground arith)
    ∙ moved-round d s i n m p h

from_start : (d s n : ℕ) (m : Bytes) (p : ℕ) → moved (d + 0) (s + 0) n m p ≡ moved d s n m p
from_start d s n m p = ap₂ (λ (a b : ℕ). moved a b n m p) (omega arith) (omega arith)

-- After `memmove` every byte of the destination is what the byte of the source at its place was
-- before, however the two overlap, and every other byte is unchanged.
pub memmove-moved :
    (dest src n : ℕ) (m : Bytes) (p : ℕ) → memmove dest src n m p ≡ moved dest src n m p
unfolding memmove
memmove-moved dest src n m p = elim (Bool-cases (ltb dest src)) [
  | inl e ↦
      rw e (copy_up-moved dest src 0 n m p (inl (upward dest src e)) ∙ from_start dest src n m p)
  | inr e ↦ rw e (copy_down-moved dest src n m p (downward dest src e))
]
  where
    upward : (a b : ℕ) → ltb a b ≡ true → a ≤ b
    upward a b e = ground arith

    downward : (a b : ℕ) → ltb a b ≡ false → b ≤ a
    downward a b e = ground arith

compare_from-same :
    (a b i n : ℕ) (m : Bytes)
    → ((k : ℕ) → k < n → m (a + i + k) ≡ m (b + i + k))
    → compare_from a b i n m ≡ pos 0
unfolding compare_from
compare_from-same a b i zero m same = refl
compare_from-same a b i (suc n) m same =
    rw (equal_test (m (a + i)) (m (b + i)) (first (same 0 (omega arith))))
      (compare_from-same a b (i + 1) n m (λ k h. later k (same (suc k) (omega arith))))
  where
    equal_test : (x y : ℕ) → x ≡ y → (x == y) ≡ true
    equal_test x y e = ground arith

    first : m (a + i + 0) ≡ m (b + i + 0) → m (a + i) ≡ m (b + i)
    first e = ap m (omega arith) ∙ e ∙ ap m (omega arith)

    later :
        (k : ℕ) → m (a + i + suc k) ≡ m (b + i + suc k) → m (a + (i + 1) + k) ≡ m (b + (i + 1) + k)
    later k e = ap m (omega arith) ∙ e ∙ ap m (omega arith)

moved-inside : (d s n k : ℕ) (m : Bytes) → k < n → moved d s n m (d + 0 + k) ≡ m (s + k)
moved-inside d s n k m h = ground (arith, ap m {x = d + 0 + k - d + s} {y = s + k} (omega arith))

moved-outside :
    (d s n k : ℕ) (m : Bytes)
    → k < n
    → (s + n ≤ d) ⊎ (d + n ≤ s)
    → moved d s n m (s + 0 + k) ≡ m (s + k)
moved-outside d s n k m h apart = ground (arith, ap m {x = s + 0 + k} {y = s + k} (omega arith))

-- After `memcpy` between ranges of bytes that do not overlap, every byte of the destination is the
-- byte of the source at its place and every other byte is unchanged; `memcmp` of the two ranges
-- is then 0.
pub memcpy-moved :
    (dest src n : ℕ) (m : Bytes)
    → (src + n ≤ dest) ⊎ (dest + n ≤ src)
    → ((p : ℕ) → memcpy dest src n m p ≡ moved dest src n m p)
      × (memcmp dest src n (memcpy dest src n m) ≡ pos 0)
unfolding memcpy memcmp
memcpy-moved dest src n m apart = (
  copied,
  compare_from-same dest src 0 n (copy_up dest src 0 n m) (λ k h.
      copied (dest + 0 + k)
      ∙ moved-inside dest src n k m h
      ∙ sym (moved-outside dest src n k m h apart)
      ∙ sym (copied (src + 0 + k))),
)
  where
    copied : (p : ℕ) → copy_up dest src 0 n m p ≡ moved dest src n m p
    copied p = copy_up-moved dest src 0 n m p (ground arith) ∙ from_start dest src n m p

fill-at :
    (p c i n : ℕ) (m : Bytes) (q : ℕ)
    → fill p c i n m q ≡ (if leb (p + i) q && ltb q (p + i + n) then c else m q)
unfolding fill
fill-at p c i zero m q = ground arith
fill-at p c i (suc n) m q = fill-at p c (i + 1) n (update m (p + i) c) q ∙ ground arith

-- After `memset` the `n` bytes from `p` on are the low byte of `c`, and every other is unchanged.
pub memset-filled :
    (p c n : ℕ) (m : Bytes) (q : ℕ)
    → memset p c n m q ≡ (if leb p q && ltb q (p + n) then c % 2 ^ 8 else m q)
unfolding memset
memset-filled p c n m q = fill-at p (c % 2 ^ 8) 0 n m q ∙ ground arith
