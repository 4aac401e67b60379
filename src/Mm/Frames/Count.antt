-- ===== src/Mm/Frames/Count.antt =====
-- How many frames the bitmap marks as used, below a bound.
use vaelen.Prelude.{
  ℕ, zero, suc, ◌+◌, ◌-◌, ◌≤◌, ◌<◌, ◌≡◌, refl, true, false, arith, dec_lt, if◌then◌else◌,
}
use vaelen.Mm.Frames.{Bitmap, set_bit, unset_bit, test_bit}
use vaelen.Mm.Frames.Bitmap.{test_bit-set_bit, test_bit-unset_bit}

-- The number of set bits below `n`.
unfoldable pub count : Bitmap → ℕ → ℕ
count m zero = 0
count m (suc n) = (if test_bit m n then 1 else 0) + count m n

pub count-le : (m : Bitmap) (n : ℕ) → count m n ≤ n
unfolding count
count-le m zero = omega arith
count-le m (suc n) = ground (arith, count-le m n)

count-set_bit_above : (m : Bitmap) (b n : ℕ) → n ≤ b → count (set_bit m b) n ≡ count m n
unfolding count
count-set_bit_above m b zero h = refl
count-set_bit_above m b (suc n) h =
    ground (arith, test_bit-set_bit m b n, count-set_bit_above m b n)

count-unset_bit_above : (m : Bitmap) (b n : ℕ) → n ≤ b → count (unset_bit m b) n ≡ count m n
unfolding count
count-unset_bit_above m b zero h = refl
count-unset_bit_above m b (suc n) h =
    ground (arith, test_bit-unset_bit m b n, count-unset_bit_above m b n)

-- Setting a clear bit adds one.
pub count-set_bit :
    (m : Bitmap) (b n : ℕ) → b < n → test_bit m b ≡ false → count (set_bit m b) n ≡ count m n + 1
unfolding count
count-set_bit m b zero h free = absurd (omega arith)
count-set_bit m b (suc n) h free = elim (dec_lt b n) [
  | yes p ↦ ground (arith, test_bit-set_bit m b n, count-set_bit m b n p free)
  | no p ↦
      let e : b ≡ n = omega arith in
      ground (arith, e, test_bit-set_bit m b n, count-set_bit_above m b n)
]

-- Clearing a set bit takes one off.
pub count-unset_bit :
    (m : Bitmap) (b n : ℕ) → b < n → test_bit m b ≡ true → count (unset_bit m b) n + 1 ≡ count m n
unfolding count
count-unset_bit m b zero h taken = absurd (omega arith)
count-unset_bit m b (suc n) h taken = elim (dec_lt b n) [
  | yes p ↦ ground (arith, test_bit-unset_bit m b n, count-unset_bit m b n p taken)
  | no p ↦
      let e : b ≡ n = omega arith in
      ground (arith, e, test_bit-unset_bit m b n, count-unset_bit_above m b n)
]

-- Of `n` bits of which those below `low` are clear and the others set, all but `low` are set.
pub count-clear_then_set :
    (m : Bitmap) (low n : ℕ)
    → ((b : ℕ) → b < low → test_bit m b ≡ false)
    → ((b : ℕ) → low ≤ b → b < n → test_bit m b ≡ true)
    → count m n ≡ n - low
unfolding count
count-clear_then_set m low zero clear marked = omega arith
count-clear_then_set m low (suc n) clear marked = ground (
  arith,
  clear n,
  marked n,
  count-clear_then_set m low n clear (λ b p q. marked b p (omega arith)),
)
