-- ===== src/Mm/Heap/Free.antt =====
-- `kfree` of kernel/mm.c releases one chunk.
use vaelen.Prelude.{ℕ, ◌<◌, ◌≡◌, ◌≢◌, refl, sym, ap, inl, inr, [], ◌∷◌, arith, ℕ_discrete}
use vaelen.Mm.Heap.{Ptr, null, Cells, free_block}
use vaelen.Mm.Heap.Tiles.{Chunk, Chunks, after, first, Tiles}
use vaelen.Mm.Heap.Spec.{
  freed, joined, settle, rejoin, release_after, release, Starts, release_after-here,
  release_after-later, release-here, release-later,
}
use vaelen.Mm.Heap.Became.{Became, Became-store, Became-chunks, Became-cons}
use vaelen.Mm.Heap.Join.{first-settle, free_block-head, free_block-second}

-- Where a chunk starts the first one before it stays the first.
first-release_after :
    (z p at : ℕ) (c : Chunk) (cs ds : Chunks) → first z (release_after p at c cs) ≡ first z (c ∷ ds)
unfolding release_after rejoin
first-release_after z p at c [] ds = refl
first-release_after z p at c (d ∷ es) ds = ground (arith, first-settle z (joined c d) c es)

Starts-later :
    (p at : ℕ) (c : Chunk) (cs : Chunks) → at ≢ p → Starts p at (c ∷ cs) → Starts p (after at c) cs
Starts-later p at c cs ne (inl e) = absurd (ne e)
Starts-later p at c cs ne (inr later) = later

-- `kfree` of a chunk that is not the first of the list.
free_block-after :
    (h : Cells) (pv at p : Ptr) (c : Chunk) (cs : Chunks)
    → 0 < at
    → Tiles h pv at (c ∷ cs)
    → Starts p (after at c) cs
    → Became h (free_block h p) pv at (release_after p at c cs)
free_block-after h pv at p c [] pos t here = absurd here
free_block-after h pv at p c (d ∷ ds) pos t here = elim (ℕ_discrete (after at c) p) [
  | yes e ↦ Became-chunks h (free_block h p) pv at (release_after-here p at c d ds e) (
      Became-store h pv at (rejoin c d ds) (ap (free_block h) (sym e))
        (free_block-second h pv at c d ds pos t))
  | no ne ↦ Became-chunks h (free_block h p) pv at (release_after-later p at c d ds ne) (
      Became-cons h (free_block h p) pv at c (d ∷ ds) (release_after p (after at c) d ds)
        (sym (first-release_after (after at c) p (after at c) d ds ds)) t
        (free_block-after h at (after at c) p d ds (omega arith) t.1
          (Starts-later p (after at c) d ds ne here)))
]

-- `kfree` of the header at `p`, one of the chunks that the store stands for, releases that chunk.
pub free_block-release :
    (h : Cells) (at p : Ptr) (cs : Chunks)
    → 0 < at
    → Tiles h null at cs
    → Starts p at cs
    → Tiles (free_block h p) null at (release p at cs)
free_block-release h at p [] pos t here = absurd here
free_block-release h at p (c ∷ cs) pos t here = elim (ℕ_discrete at p) [
  | yes e ↦
      (Became-chunks h (free_block h p) null at (release-here p at c cs e) (
        Became-store h null at (settle (freed c) cs) (ap (free_block h) (sym e))
          (free_block-head h at c cs pos t))).0
  | no ne ↦
      (Became-chunks h (free_block h p) null at (release-later p at c cs ne)
        (free_block-after h null at p c cs pos t (Starts-later p at c cs ne here))).0
]
