-- ===== src/Mm/Frames/Account.antt =====
-- `used_blocks` of kernel/mm.c against the bitmap, across `mm_alloc_frame` and `mm_free_frame`.
use vaelen.Prelude.{
  ℕ, zero, suc, ◌+◌, ◌%◌, ◌^◌, ◌≤◌, ◌<◌, ◌≡◌, ◌≢◌, refl, Bool, true, false, Option, none, some,
  arith, Option-cases, inl, inr, ℕ_discrete,
}
use vaelen.Mm.Frames.{
  Page, Frames, set_bit, test_bit, first_free, take_frame, alloc_frame, free_frame,
}
use vaelen.Mm.Frames.Bitmap.{
  IsFirstFree, first_free_from-IsFirstFree, test_bit-set_bit, test_bit-unset_bit,
}
use vaelen.Mm.Frames.Count.{count, count-le, count-set_bit, count-unset_bit}

-- The counter says how many frames are marked, and a frame number fits the field of a page.
pub record IsCounted (s : Frames) : Type 0 where
  pub fits : s.total_blocks ≤ 2 ^ 20
  pub counted : s.used_blocks ≡ count s.bitmap s.total_blocks

-- What `mm_first_free` answers, by its result.
pub first_free-cases :
    (s : Frames) (f : ℕ)
    → first_free s ≡ some f
    → (f < s.total_blocks) × (test_bit s.bitmap f ≡ false)
unfolding first_free
first_free-cases s f e =
    let found = rw e at (first_free_from-IsFirstFree s.bitmap s.total_blocks 0) in
    (omega (arith, found.1), found.2)

module _ (s : Frames) (page : Page) (k w : Bool) {page' : Page} {s' : Frames} where
  take_frame-IsCounted :
      IsCounted s → take_frame s page k w (first_free s) ≡ some (page', s') → IsCounted s'
  unfolding take_frame
  take_frame-IsCounted ok e = elim (Option-cases (first_free s)) [
    | inl no_frame ↦ ground (arith, no_frame)
    | inr (f, found) ↦ ground (
      arith,
      found,
      first_free-cases s f found,
      count-set_bit s.bitmap f s.total_blocks,
      count-le (set_bit s.bitmap f) s.total_blocks,
    )
  ]

  -- `mm_alloc_frame` keeps the counter equal to the number of marked frames.
  pub alloc_frame-IsCounted : IsCounted s → alloc_frame s page k w ≡ some (page', s') → IsCounted s'
  unfolding alloc_frame
  alloc_frame-IsCounted ok e = elim (ℕ_discrete page.frame 0) [
    | yes z ↦ take_frame-IsCounted ok (rw z at e)
    | no nz ↦ ground arith
  ]

-- `mm_free_frame` of a page whose frame is marked keeps the counter equal to their number.
pub free_frame-IsCounted :
    {s : Frames} (page : Page)
    → IsCounted s
    → page.frame < s.total_blocks
    → test_bit s.bitmap page.frame ≡ true
    → IsCounted (free_frame s page).1
unfolding free_frame
free_frame-IsCounted {s} page ok inside marked =
    ground
      (arith, count-unset_bit s.bitmap page.frame s.total_blocks, count-le s.bitmap s.total_blocks)

-- Frame 0 is the first free one wherever it is free.
pub first_free-zero :
    (s : Frames) → 0 < s.total_blocks → test_bit s.bitmap 0 ≡ false → first_free s ≡ some 0
unfolding first_free
first_free-zero s some_frames free =
    lowest (first_free s) (first_free_from-IsFirstFree s.bitmap s.total_blocks 0)
  where
    lowest : (o : Option ℕ) → IsFirstFree s.bitmap 0 s.total_blocks o → o ≡ some 0
    lowest none all = ground (arith, all 0)
    lowest (some zero) found = refl
    lowest (some (suc f)) (lo, hi, clear, below) = ground (arith, below 0)

module _ (s : Frames) (page : Page) (k w : Bool) (fresh : page.frame ≡ 0) where
  module _ {page' : Page} {s' : Frames} (got : alloc_frame s page k w ≡ some (page', s')) where
    -- The granted page and the state, given what `mm_first_free` answers.
    granted :
        (f : ℕ)
        → first_free s ≡ some f
        → (page'.frame ≡ f % 2 ^ 20)
          × (s'.bitmap ≡ set_bit s.bitmap f)
          × (s'.used_blocks ≡ (s.used_blocks + 1) % 2 ^ 32)
    unfolding alloc_frame take_frame
    granted f found = ground (arith, found)

    -- A page that was given a frame other than frame 0 is given back: `mm_free_frame` clears the
    -- page's frame, and restores the counter and every bit.
    pub free_frame-alloc_frame :
        IsCounted s
        → page'.frame ≢ 0
        → ((free_frame s' page').0.frame ≡ 0)
          × ((free_frame s' page').1.used_blocks ≡ s.used_blocks)
          × ((b : ℕ) → test_bit (free_frame s' page').1.bitmap b ≡ test_bit s.bitmap b)
    unfolding free_frame
    free_frame-alloc_frame ok nz = elim (Option-cases (first_free s)) [
      | inl no_frame ↦ absurd (refused no_frame)
      | inr (f, found) ↦ (
        ground arith,
        ground (arith, granted f found, count-le s.bitmap s.total_blocks),
        λ b. ground (
          arith,
          granted f found,
          first_free-cases s f found,
          test_bit-unset_bit s'.bitmap page'.frame b,
          test_bit-set_bit s.bitmap f b,
        ),
      )
    ]
      where
        refused : first_free s ≡ none → ⊥
        refused no_frame = unfold alloc_frame take_frame in ground (arith, no_frame)

    -- Where frame 0 is free, `mm_alloc_frame` marks it and leaves the page's frame number 0. So the
    -- page still reads as one without a frame: `mm_free_frame` does nothing, and the bit stays set.
    pub alloc_frame-zero :
        0 < s.total_blocks
        → test_bit s.bitmap 0 ≡ false
        → (page'.frame ≡ 0) × (test_bit s'.bitmap 0 ≡ true) × (free_frame s' page' ≡ (page', s'))
    unfolding free_frame
    alloc_frame-zero some_frames free =
        ground
          (arith, granted 0 (first_free-zero s some_frames free), test_bit-set_bit s.bitmap 0 0)
