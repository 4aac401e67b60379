-- ===== src/Prelude/Bits.antt =====
-- Single bits of a word, and what `|`, `&` and `~` of C do to them.
use Prim.Native.Nat.{
  ℕ, zero, suc, ◌+◌, ◌-◌, ◌*◌, ◌/◌, ◌%◌, ◌^◌, ◌≤◌, ◌<◌, min, max, bit_and, bit_or, digits, bitwise,
  bit_and-bitwise, bit_or-bitwise,
}
use native.Mathlib.Nat.{pow-suc, one-le-pow}
use mathlib.Core.Path.{◌≡◌, refl, ap, ◌∙◌}
use mathlib.Core.Bool.{Bool, true, ◌&&◌}
use native.Mathlib.Omega.{arith}
use vaelen.Prelude.Tests.{◌==◌, ==_iff, if◌then◌else◌}

-- Bit `k` of `w`, 0 or 1.
abbrev pub bit : ℕ → ℕ → ℕ
bit w zero = w % 2
bit w (suc k) = bit (w / 2) k

-- `~w` on 32 bits.
abbrev pub complement : ℕ → ℕ
complement w = 2 ^ 32 - 1 - w

-- A digitwise operation with one more round than it needs, and with any number more.
module _ (tail : ℕ → ℕ) (merge : ℕ → ℕ → ℕ) where
  one_more : (k x y : ℕ) → x ≤ k → digits tail merge (suc k) x y ≡ digits tail merge k x y
  one_more zero zero y le = refl
  one_more (suc k) zero y le = refl
  one_more zero (suc x) y le = absurd (omega arith)
  one_more (suc k) (suc x) y le =
      ap (λ (high : ℕ). high * 2 + merge (suc x % 2) (y % 2))
        (one_more k (suc x / 2) (y / 2) (omega arith))

  many_more :
      (extra k m x y : ℕ)
      → m ≡ k + extra
      → x ≤ k
      → digits tail merge m x y ≡ digits tail merge k x y
  many_more zero k m x y e le = ap (λ (r : ℕ). digits tail merge r x y) (omega arith)
  many_more (suc extra) k m x y e le =
      many_more extra (suc k) m x y (omega arith) (omega arith) ∙ one_more k x y le

  lowest_digit :
      (x y : ℕ) → digits tail merge x (suc x / 2) (y / 2) ≡ bitwise tail merge (suc x / 2) (y / 2)
  lowest_digit x y =
      many_more (x - suc x / 2) (suc x / 2) x (suc x / 2) (y / 2) (omega arith) (omega arith)

bit_or-lowest : (x y : ℕ) → bit_or x y ≡ bit_or (x / 2) (y / 2) * 2 + max (x % 2) (y % 2)
bit_or-lowest zero y = simp bit_or-bitwise (omega arith)
bit_or-lowest (suc x) y = simp bit_or-bitwise (omega (arith, lowest_digit (λ rest. rest) max x y))

bit_and-lowest : (x y : ℕ) → bit_and x y ≡ bit_and (x / 2) (y / 2) * 2 + min (x % 2) (y % 2)
bit_and-lowest zero y = simp bit_and-bitwise (omega arith)
bit_and-lowest (suc x) y = simp bit_and-bitwise (omega (arith, lowest_digit (λ rest. 0) min x y))

bit_or-half : (a b : ℕ) → bit_or a b / 2 ≡ bit_or (a / 2) (b / 2)
bit_or-half a b = omega (arith, bit_or-lowest a b)

bit_and-half : (a b : ℕ) → bit_and a b / 2 ≡ bit_and (a / 2) (b / 2)
bit_and-half a b = omega (arith, bit_and-lowest a b)

pub bit-bit_or : (a b k : ℕ) → bit (bit_or a b) k ≡ max (bit a k) (bit b k)
bit-bit_or a b zero = omega (arith, bit_or-lowest a b)
bit-bit_or a b (suc k) = rw bit_or-half (bit-bit_or (a / 2) (b / 2) k)

pub bit-bit_and : (a b k : ℕ) → bit (bit_and a b) k ≡ min (bit a k) (bit b k)
bit-bit_and a b zero = omega (arith, bit_and-lowest a b)
bit-bit_and a b (suc k) = rw bit_and-half (bit-bit_and (a / 2) (b / 2) k)

pub bit-le-one : (w k : ℕ) → bit w k ≤ 1
bit-le-one w zero = omega arith
bit-le-one w (suc k) = bit-le-one (w / 2) k

bit-zero : (k : ℕ) → bit 0 k ≡ 0
bit-zero zero = refl
bit-zero (suc k) = bit-zero k

pow-half : (j : ℕ) → 2 ^ suc j / 2 ≡ 2 ^ j
pow-half j = omega (arith, pow-suc 2 j)

pub bit-pow : (j k : ℕ) → bit (2 ^ j) k ≡ (if j == k then 1 else 0)
bit-pow zero zero = refl
bit-pow zero (suc k) = bit-zero k ∙ ground arith
bit-pow (suc j) zero = ground (arith, pow-suc 2 j)
bit-pow (suc j) (suc k) = rw pow-half (bit-pow j k ∙ ground arith)

nothing_kept : (rounds w : ℕ) → w ≤ rounds → bit_and w 0 ≡ 0
nothing_kept rounds zero enough = refl
nothing_kept (suc rounds) (suc w) enough =
    omega (arith, bit_and-lowest (suc w) 0, nothing_kept rounds (suc w / 2) (omega arith))
nothing_kept zero (suc w) enough = absurd (omega arith)

-- `w & (1 << k)` is the bit, in its place.
pub bit_and-pow : (w k : ℕ) → bit_and w (2 ^ k) ≡ bit w k * 2 ^ k
bit_and-pow w zero = omega (arith, bit_and-lowest w 1, nothing_kept (w / 2) (w / 2) (omega arith))
bit_and-pow w (suc k) = omega (
  arith,
  bit_and-half w (2 ^ suc k) ∙ ap (bit_and (w / 2)) (pow-half k),
  bit_and-lowest w (2 ^ suc k),
  pow-suc 2 k,
  bit_and-pow (w / 2) k,
  ap (λ (t : ℕ). bit (w / 2) k * t) (pow-suc 2 k),
)

-- A test at every number below a bound, and what it shows at one of them.
unfoldable pub all_below : (bound : ℕ) → (test : ℕ → Bool) → Bool
all_below zero test = true
all_below (suc last) test = test last && all_below last test

pub all_below_sound :
    (bound : ℕ) (test : ℕ → Bool) (k : ℕ) → all_below bound test ≡ true → k < bound → test k ≡ true
unfolding all_below
all_below_sound (suc last) test k passed below = ground (arith, all_below_sound last test k)
all_below_sound zero test k passed below = absurd (omega arith)

complement_table :
    all_below 32 (λ j. all_below 32 (λ k. bit (complement (2 ^ j)) k == (if j == k then 0 else 1)))
    ≡ true
unfolding all_below
complement_table = refl

pub bit-complement-pow :
    (j k : ℕ) → j < 32 → k < 32 → bit (complement (2 ^ j)) k ≡ (if j == k then 0 else 1)
bit-complement-pow j k hj hk =
    (==_iff _ _).0 (all_below_sound 32 _ k (all_below_sound 32 _ j complement_table hj) hk)

-- The low `k` bits of `w`, which `w & ((1 << k) - 1)` keeps.
abbrev low : ℕ → ℕ → ℕ
low zero w = 0
low (suc k) w = low k (w / 2) * 2 + w % 2

bit_and-low : (k w : ℕ) → bit_and w (2 ^ k - 1) ≡ low k w
bit_and-low zero w = nothing_kept w w (omega arith)
bit_and-low (suc k) w = omega (
  arith,
  bit_and-lowest w (2 ^ suc k - 1),
  pow-suc 2 k,
  one-le-pow k 2,
  bit_and-low k (w / 2),
  ap (bit_and (w / 2)) {x = (2 ^ suc k - 1) / 2} {y = 2 ^ k - 1} (omega (arith, pow-suc 2 k)),
)

pub bit_and-nibble : (w : ℕ) → bit_and w 0x0F ≡ w % 16
bit_and-nibble w = omega (arith, bit_and-low 4 w)

pub bit_and-byte : (w : ℕ) → bit_and w 0xFF ≡ w % 256
bit_and-byte w = omega (arith, bit_and-low 8 w)

pub bit_and-half_word : (w : ℕ) → bit_and w 0xFFFF ≡ w % 65536
bit_and-half_word w = omega (arith, bit_and-low 16 w)

-- `b << k`, one place at a time.
abbrev shifted : ℕ → ℕ → ℕ
shifted zero b = b
shifted (suc k) b = shifted k b * 2

bit_or-shifted : (k a b : ℕ) → a < 2 ^ k → bit_or a (shifted k b) ≡ a + shifted k b
bit_or-shifted zero zero b small = simp bit_or-bitwise (omega arith)
bit_or-shifted zero (suc a) b small = absurd (omega arith)
bit_or-shifted (suc k) a b small = omega (
  arith,
  bit_or-lowest a (shifted k b * 2),
  ap (bit_or (a / 2)) {x = shifted k b * 2 / 2} {y = shifted k b} (omega arith),
  bit_or-shifted k (a / 2) b (omega (arith, pow-suc 2 k)),
)

-- `low | (high << 8)` for a byte `low`.
pub bit_or-bytes : (a b : ℕ) → a < 256 → bit_or a (b * 2 ^ 8) ≡ a + b * 2 ^ 8
bit_or-bytes a b small =
    ap (bit_or a) {x = b * 2 ^ 8} {y = shifted 8 b} (omega arith)
    ∙ bit_or-shifted 8 a b small
    ∙ omega arith
