-- ===== src/Mm/Frames/Init.antt =====
-- `mm_init` of kernel/mm.c: what it leaves in the bitmap and in the counter.
use vaelen.Prelude.{
  ℕ, zero, suc, ◌-◌, ◌*◌, ◌/◌, ◌%◌, ◌^◌, ◌<◌, ◌≡◌, refl, ◌∙◌, Bool, true, false, none, some, arith,
  ◌==◌, ltb, if◌then◌else◌, ==_iff,
}
use vaelen.Prelude.Bits.{bit, bit-bit_or, bit-le-one, all_below, all_below_sound}
use vaelen.Mm.Frames.{
  Page, Bitmap, test_bit, first_free, alloc_frame, take_frame, fill_ones, unset_below, init,
  kernel_blocks, page_size,
}
use vaelen.Mm.Frames.Bitmap.{holds, test_bit-holds, test_bit-unset_bit}
use vaelen.Mm.Frames.Count.{count, count-clear_then_set}
use vaelen.Mm.Frames.Account.{first_free-zero}

byte_table :
    all_below 4 (λ r. all_below 32 (λ k. bit (255 * 256 ^ r) k == (if k / 8 == r then 1 else 0)))
    ≡ true
unfolding all_below
byte_table = refl

bit-byte : (r k : ℕ) → r < 4 → k < 32 → bit (255 * 256 ^ r) k ≡ (if k / 8 == r then 1 else 0)
bit-byte r k hr hk =
    (==_iff _ _).0 (all_below_sound 32 _ k (all_below_sound 4 _ r byte_table hr) hk)

holds-fill_ones :
    (m : Bitmap) (n b : ℕ) → holds (fill_ones m n) b ≡ (if ltb (b / 8) n then 1 else holds m b)
unfolding fill_ones
holds-fill_ones m zero b = ground arith
holds-fill_ones m (suc i) b = ground (
  arith,
  bit-bit_or (fill_ones m i (i / 4)) (255 * 256 ^ (i % 4)) (b % 32),
  bit-byte (i % 4) (b % 32),
  bit-le-one (fill_ones m i (i / 4)) (b % 32),
  holds-fill_ones m i b,
)

test_bit-fill_ones :
    (m : Bitmap) (n b : ℕ)
    → test_bit (fill_ones m n) b ≡ (if ltb (b / 8) n then true else test_bit m b)
test_bit-fill_ones m n b =
    ground (arith, test_bit-holds (fill_ones m n) b, test_bit-holds m b, holds-fill_ones m n b)

test_bit-unset_below :
    (m : Bitmap) (n b : ℕ)
    → test_bit (unset_below m n) b ≡ (if ltb b n then false else test_bit m b)
unfolding unset_below
test_bit-unset_below m zero b = ground arith
test_bit-unset_below m (suc n) b =
    ground (arith, test_bit-unset_bit (unset_below m n) n b, test_bit-unset_below m n b)

-- After `mm_init` the bits of the kernel's blocks are clear, those of the other blocks in whole
-- bytes of the bitmap are set, and the rest of the bitmap is as it was.
pub test_bit-init :
    (mem_size : ℕ) (words : Bitmap) (b : ℕ)
    → test_bit (init mem_size words).bitmap b ≡ (
        if ltb b kernel_blocks
        then false
        else if ltb (b / 8) (mem_size / page_size / 8)
        then true
        else test_bit words b)
unfolding init
test_bit-init mem_size words b =
    test_bit-unset_below (fill_ones words (mem_size / page_size / 8)) kernel_blocks b
    ∙ ground (arith, test_bit-fill_ones words (mem_size / page_size / 8) b)

module _ (mem_size : ℕ) (words : Bitmap) where
  abbrev blocks : ℕ
  blocks = mem_size / page_size

  -- When the memory size fills whole bytes of the bitmap, `mm_init` marks the kernel's blocks as
  -- free and every other block of the memory as used, and leaves the bits of all further blocks as
  -- they were; so the bitmap has as many used blocks as there are behind the kernel's, while the
  -- counter of used blocks is set to the kernel's blocks.
  pub count-init :
      blocks % 8 ≡ 0
      → ((b : ℕ)
          → test_bit (init mem_size words).bitmap b ≡ (
              if ltb b kernel_blocks
              then false
              else if ltb b blocks
              then true
              else test_bit words b))
        × (count (init mem_size words).bitmap blocks ≡ blocks - kernel_blocks)
        × ((init mem_size words).used_blocks ≡ kernel_blocks)
  unfolding init
  count-init whole = (
    λ b. test_bit-init mem_size words b ∙ ground arith,
    count-clear_then_set (init mem_size words).bitmap kernel_blocks blocks
        (λ b h. ground (arith, test_bit-init mem_size words b))
        (λ b lo hi. ground (arith, test_bit-init mem_size words b)),
    refl,
  )

  -- After `mm_init` of a memory with at least one block the first free frame is frame 0, the first
  -- block of the kernel.
  pub first_free-init : 0 < blocks → first_free (init mem_size words) ≡ some 0
  first_free-init some_blocks =
      first_free-zero (init mem_size words) (unfold init in some_blocks)
        (test_bit-init mem_size words 0)

  -- After `mm_init` of a memory below one block `mm_alloc_frame` panics on every page that has no
  -- frame, whatever the bitmap held before.
  pub alloc_frame-init :
      (page : Page) (k w : Bool)
      → page.frame ≡ 0
      → blocks ≡ 0
      → alloc_frame (init mem_size words) page k w ≡ none
  unfolding take_frame
  alloc_frame-init page k w fresh no_blocks = rw (fresh_case, none_free)
    where
      none_free : first_free (init mem_size words) ≡ none
      none_free = unfold init first_free in rw no_blocks

      fresh_case :
          alloc_frame (init mem_size words) page k w
          ≡ take_frame (init mem_size words) page k w (first_free (init mem_size words))
      fresh_case = unfold alloc_frame in rw fresh
