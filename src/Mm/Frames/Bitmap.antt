-- ===== src/Mm/Frames/Bitmap.antt =====
-- `mm_set_bit`, `mm_unset_bit`, `mm_test_bit` and `mm_first_free` of kernel/mm.c.
use native.Mathlib.Nat.{one-le-pow}
use native.Mathlib.Decide.{dec_lt}
use vaelen.Prelude.{
  ℕ, zero, suc, ◌+◌, ◌/◌, ◌%◌, ◌^◌, ◌≤◌, ◌<◌, ◌≡◌, true, false, Option, none, some, arith, ◌==◌,
  if◌then◌else◌, Bool-cases, inl, inr,
}
use vaelen.Prelude.Bits.{
  bit, bit-bit_or, bit-bit_and, bit-le-one, bit-pow, bit_and-pow, bit-complement-pow, complement,
}
use vaelen.Mm.Frames.{Bitmap, set_bit, unset_bit, test_bit, first_free_from}

-- Bit `b` of the whole bitmap.
abbrev pub holds : Bitmap → ℕ → ℕ
holds m b = bit (m (b / 32)) (b % 32)

pub test_bit-holds : (m : Bitmap) (b : ℕ) → test_bit m b ≡ (holds m b == 1)
unfolding test_bit
test_bit-holds m b = ground (
  arith,
  bit_and-pow (m (b / 32)) (b % 32),
  one-le-pow (b % 32) 2,
  bit-le-one (m (b / 32)) (b % 32),
)

holds-set_bit : (m : Bitmap) (a b : ℕ) → holds (set_bit m a) b ≡ (if a == b then 1 else holds m b)
unfolding set_bit
holds-set_bit m a b = ground (
  arith,
  bit-bit_or (m (a / 32)) (2 ^ (a % 32)) (b % 32),
  bit-pow (a % 32) (b % 32),
  bit-le-one (m (a / 32)) (b % 32),
)

holds-unset_bit :
    (m : Bitmap) (a b : ℕ) → holds (unset_bit m a) b ≡ (if a == b then 0 else holds m b)
unfolding unset_bit
holds-unset_bit m a b = ground (
  arith,
  bit-bit_and (m (a / 32)) (complement (2 ^ (a % 32))) (b % 32),
  bit-complement-pow (a % 32) (b % 32),
  bit-le-one (m (a / 32)) (b % 32),
)

-- After `mm_set_bit(a)` the bit `a` tests as set, and every other bit as before.
pub test_bit-set_bit :
    (m : Bitmap) (a b : ℕ) → test_bit (set_bit m a) b ≡ (if a == b then true else test_bit m b)
test_bit-set_bit m a b =
    ground (arith, test_bit-holds (set_bit m a) b, test_bit-holds m b, holds-set_bit m a b)

-- After `mm_unset_bit(a)` the bit `a` tests as clear, and every other bit as before.
pub test_bit-unset_bit :
    (m : Bitmap) (a b : ℕ) → test_bit (unset_bit m a) b ≡ (if a == b then false else test_bit m b)
test_bit-unset_bit m a b =
    ground (arith, test_bit-holds (unset_bit m a) b, test_bit-holds m b, holds-unset_bit m a b)

-- What the loop of `mm_first_free` finds from `i` on in `n` rounds: the first clear bit, if any.
abbrev pub IsFirstFree : Bitmap → ℕ → ℕ → Option ℕ → Type 0
IsFirstFree m i n none = (b : ℕ) → i ≤ b → b < i + n → test_bit m b ≡ true
IsFirstFree m i n (some f) =
    (i ≤ f) × (f < i + n) × (test_bit m f ≡ false) × ((b : ℕ) → i ≤ b → b < f → test_bit m b ≡ true)

module _ (m : Bitmap) (n i : ℕ) (taken : test_bit m i ≡ true) where
  taken_at : (b : ℕ) → i ≡ b → test_bit m b ≡ true
  taken_at b e = rw (← e) taken

  IsFirstFree-back : (o : Option ℕ) → IsFirstFree m (i + 1) n o → IsFirstFree m i (suc n) o
  IsFirstFree-back none all = λ b lo hi. elim (dec_lt i b) [
    | yes p ↦ all b (omega arith) (omega arith)
    | no p ↦ taken_at b (omega arith)
  ]
  IsFirstFree-back (some f) (lo, hi, free, below) = (
    omega arith,
    omega arith,
    free,
    λ b p q. elim (dec_lt i b) [
      | yes r ↦ below b (omega arith) q
      | no r ↦ taken_at b (omega arith)
    ],
  )

pub first_free_from-IsFirstFree : (m : Bitmap) (n i : ℕ) → IsFirstFree m i n (first_free_from m n i)
unfolding first_free_from
first_free_from-IsFirstFree m zero i = λ b lo hi. absurd (omega arith)
first_free_from-IsFirstFree m (suc n) i = elim (Bool-cases (test_bit m i)) [
  | inr free ↦ rw free (omega arith, omega arith, free, λ b lo hi. absurd (omega arith))
  | inl taken ↦ rw taken (IsFirstFree-back m n i taken _ (first_free_from-IsFirstFree m n (i + 1)))
]
