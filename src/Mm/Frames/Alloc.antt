-- ===== src/Mm/Frames/Alloc.antt =====
-- `mm_alloc_frame` and `mm_free_frame` of kernel/mm.c.
use vaelen.Prelude.{
  ℕ, ◌+◌, ◌%◌, ◌^◌, ◌<◌, ◌≡◌, refl, Bool, true, false, Option, none, some, arith, ◌==◌,
  if◌then◌else◌, ◌≢◌, ◌⊎◌, inl, inr, ℕ_discrete, ==_differ,
}
use vaelen.Mm.Frames.{Page, Frames, test_bit, first_free, take_frame, alloc_frame}
use vaelen.Mm.Frames.Bitmap.{IsFirstFree, first_free_from-IsFirstFree, test_bit-set_bit}

-- What `mm_alloc_frame` owes the caller of a page that has no frame yet.
abbrev pub Granted : Frames → Page → Bool → Bool → Option (Page × Frames) → Type 0
Granted s page is_kernel is_writeable none =
    (b : ℕ) → b < s.total_blocks → test_bit s.bitmap b ≡ true
Granted s page is_kernel is_writeable (some (page', s')) =
    (f : ℕ) × (f < s.total_blocks)
    × (test_bit s.bitmap f ≡ false)
    × ((b : ℕ) → b < f → test_bit s.bitmap b ≡ true)
    × ((b : ℕ) → test_bit s'.bitmap b ≡ (if f == b then true else test_bit s.bitmap b))
    × (page' ≡ record page {
      present = 1;
      rw = if is_writeable then 1 else 0;
      user = if is_kernel then 0 else 1;
      frame = f % 2 ^ 20;
    })
    × (s'.total_blocks ≡ s.total_blocks)
    × (s'.used_blocks ≡ (s.used_blocks + 1) % 2 ^ 32)

take_frame-Granted :
    (s : Frames) (page : Page) (is_kernel is_writeable : Bool) (o : Option ℕ)
    → IsFirstFree s.bitmap 0 s.total_blocks o
    → Granted s page is_kernel is_writeable (take_frame s page is_kernel is_writeable o)
unfolding take_frame
take_frame-Granted s page k w none all = λ b h. all b (omega arith) (omega arith)
take_frame-Granted s page k w (some f) (lo, hi, free, below) = (
  f,
  omega arith,
  free,
  λ b h. below b (omega arith) h,
  test_bit-set_bit s.bitmap f,
  ground arith,
  refl,
  refl,
)

-- What it owes any caller: a page that has a frame is left as it is, and nothing is allocated.
abbrev pub Answered : Frames → Page → Bool → Bool → Option (Page × Frames) → Type 0
Answered s page is_kernel is_writeable o =
    ((page.frame ≢ 0) × (o ≡ some (page, s)))
    ⊎ ((page.frame ≡ 0) × Granted s page is_kernel is_writeable o)

-- On a page that has a frame `mm_alloc_frame` changes nothing. On a page with no frame it panics only
-- if every frame is in use; else it takes the lowest free frame, marks that one and no other, fills
-- in the page and counts the frame.
pub alloc_frame-Answered :
    (s : Frames) (page : Page) (is_kernel is_writeable : Bool)
    → Answered s page is_kernel is_writeable (alloc_frame s page is_kernel is_writeable)
unfolding alloc_frame first_free
alloc_frame-Answered s page k w = elim (ℕ_discrete page.frame 0) [
  | yes e ↦ inr (
    e,
    rw e (take_frame-Granted s page k w _ (first_free_from-IsFirstFree s.bitmap s.total_blocks 0)),
  )
  | no ne ↦ inl (ne, rw (==_differ page.frame 0 ne) refl)
]
