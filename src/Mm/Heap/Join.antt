-- ===== src/Mm/Heap/Join.antt =====
-- `kfree` of kernel/mm.c at the first chunk of a list, and at the second.
use vaelen.Prelude.{
  ℕ, ◌<◌, ◌≡◌, ◌≢◌, refl, sym, ap, ◌∙◌, inl, inr, Bool, true, false, [], ◌∷◌, arith, Bool-cases,
}
use vaelen.Mm.Heap.{
  Ptr, null, Block, block, Cells, set_free, merge_prev, merge_next, join_next, joins_prev,
  free_block,
}
use vaelen.Mm.Heap.Tiles.{Chunk, Chunks, after, first, first-cases, Tiles, Tiles-le, Tiles-frame}
use vaelen.Mm.Heap.Updates.{rewired, merge_next_lem, merge_prev_lem}
use vaelen.Mm.Heap.Spec.{
  freed, joined, settle, settle-nil, settle-used, settle-hole, rejoin, rejoin-used, rejoin-hole,
}
use vaelen.Mm.Heap.Became.{Became, rewired-Became, Became-store, Became-trans, Became-cons}

module _ (h : Cells) (b : Ptr) where
  join_next-alone : (h b).next ≡ null → join_next h b ≡ h
  unfolding join_next
  join_next-alone e = rw e

  join_next-used : (h (h b).next).free ≡ false → join_next h b ≡ h
  unfolding join_next
  join_next-used e = ground arith

  join_next-hole : (h b).next ≢ null → (h (h b).next).free ≡ true → join_next h b ≡ merge_next h b
  unfolding join_next
  join_next-hole ne e = ground arith

  free_block-alone :
      joins_prev (set_free h b true) b ≡ false → free_block h b ≡ join_next (set_free h b true) b
  unfolding free_block
  free_block-alone e = rw e

  free_block-joins :
      joins_prev (set_free h b true) b ≡ true
      → free_block h b
        ≡ join_next (merge_prev (set_free h b true) b) (merge_prev (set_free h b true) b b).prev
  unfolding free_block
  free_block-joins e = rw e

  -- Whether the block in front is joined, by its address and its mark.
  joins_prev_lem :
      (pv : Ptr) (f : Bool) → (h b).prev ≡ pv → pv ≢ null → (h pv).free ≡ f → joins_prev h b ≡ f
  joins_prev_lem pv f e ne e' = ground arith

-- `join_next` settles a chunk that is free with the one behind it.
join_next-Became :
    (h : Cells) (pv at : Ptr) (c : Chunk) (cs : Chunks)
    → 0 < at
    → c.free ≡ true
    → Tiles h pv at (c ∷ cs)
    → Became h (join_next h at) pv at (settle c cs)
join_next-Became h pv at c [] pos e t =
    rw (join_next-alone h at (ground (arith, t.0)), settle-nil c) (t, λ a lt. refl)
join_next-Became h pv at c (d ∷ ds) pos e t = elim (Bool-cases d.free) [
  | inr used ↦
      rw (join_next-used h at (ground (arith, t.0, t.1.0)), settle-used c d ds used)
        (t, λ a lt. refl)
  | inl hole ↦
      rw
        (
          join_next-hole h at (ground (arith, t.0)) (ground (arith, t.0, t.1.0)),
          settle-hole c d ds hole,
        )
        (rewired-Became h (merge_next h at) pv at (after (after at c) d) (joined c d) (after at c)
          ds pos (omega arith) t.1.1
          (merge_next_lem h at (after at c) (first (after (after at c) d) ds) pv at c.size d.size
            true true (ground (arith, t.0)) (ground (arith, t.1.0)) (omega arith)
            (ground (arith, first-cases (after (after at c) d) ds))
            (omega (arith, Tiles-le h (after at c) (after (after at c) d) ds t.1.1))))
]

set_free-Became :
    (h : Cells) (pv at : Ptr) (c : Chunk) (cs : Chunks)
    → Tiles h pv at (c ∷ cs)
    → Became h (set_free h at true) pv at (freed c ∷ cs)
set_free-Became h pv at c cs t = (
  (
    ground (arith, t.0),
    Tiles-frame h (set_free h at true) at (after at c) cs t.1 (λ a le. ground arith),
  ),
  λ a lt. ground arith,
)

pub first-settle : (z : ℕ) (c d : Chunk) (ds : Chunks) → first z (settle c ds) ≡ first z (d ∷ ds)
unfolding settle
first-settle z c d [] = refl
first-settle z c d (e ∷ es) = ground arith

-- The first chunk in a list has nothing in front to join.
pub free_block-head :
    (h : Cells) (at : Ptr) (c : Chunk) (cs : Chunks)
    → 0 < at
    → Tiles h null at (c ∷ cs)
    → Became h (free_block h at) null at (settle (freed c) cs)
free_block-head h at c cs pos t =
    let b = set_free-Became h null at c cs t in
    rw (free_block-alone h at (no_prev (set_free h at true) (ap (λ (x : Block). x.prev) b.0.0))) (
      Became-trans h (set_free h at true) _ null at _ b.1
        (join_next-Became (set_free h at true) null at (freed c) cs pos refl b.0))
  where
    no_prev : (g : Cells) → (g at).prev ≡ null → joins_prev g at ≡ false
    no_prev g e = rw e

-- The second chunk joins the free chunks on both sides.
module _ (h : Cells) (pv at : Ptr) (c d : Chunk) (ds : Chunks) (pos : 0 < at) where
  abbrev second : Ptr
  second = after at c

  abbrev marked : Cells
  marked = set_free h second true

  marked-Became : Tiles h pv at (c ∷ d ∷ ds) → Became h marked pv at (c ∷ freed d ∷ ds)
  marked-Became t =
      Became-cons h marked pv at c (d ∷ ds) (freed d ∷ ds) refl t
        (set_free-Became h at second d ds t.1)

  marked-joins : Tiles marked pv at (c ∷ freed d ∷ ds) → joins_prev marked second ≡ c.free
  marked-joins m =
      joins_prev_lem marked second at c.free (ap (λ (x : Block). x.prev) m.1.0) (omega arith)
        (ap (λ (x : Block). x.free) m.0)

  free_block-used :
      Tiles h pv at (c ∷ d ∷ ds)
      → c.free ≡ false
      → Became h (free_block h second) pv at (c ∷ settle (freed d) ds)
  free_block-used t used =
      let m = marked-Became t in
      Became-store h pv at (c ∷ settle (freed d) ds)
        (free_block-alone h second (marked-joins m.0 ∙ used))
        (Became-trans h marked _ pv at (c ∷ settle (freed d) ds) m.1 (
          Became-cons marked _ pv at c (freed d ∷ ds) (settle (freed d) ds)
            (sym (first-settle second (freed d) d ds)) m.0
            (join_next-Became marked at second (freed d) ds (omega arith) refl m.0.1)))

  abbrev joined_cells : Cells
  joined_cells = merge_prev marked second

  third-cases : (first (after second d) ds ≢ at) × (first (after second d) ds ≢ second)
  third-cases = ground (arith, first-cases (after second d) ds)

  joined-writes :
      Tiles marked pv at (c ∷ freed d ∷ ds)
      → c.free ≡ true
      → (a : Ptr)
      → joined_cells a
        ≡ rewired marked at
            (block (joined c d).size (first (after second d) ds) pv true)
            (first (after second d) ds)
            at
            a
  joined-writes m hole =
      merge_prev_lem marked at second (first (after second d) ds) pv at c.size d.size true true
        (m.0 ∙ ap (block c.size second pv) hole) m.1.0 (omega arith) third-cases.0 third-cases.1
        (omega (arith, Tiles-le marked second (after second d) ds m.1.1))

  joined-Became :
      Tiles marked pv at (c ∷ freed d ∷ ds)
      → c.free ≡ true
      → Became marked joined_cells pv at (joined c d ∷ ds) × ((joined_cells second).prev ≡ at)
  joined-Became m hole = (
    rewired-Became marked joined_cells pv at (after second d) (joined c d) second ds pos
        (omega arith) m.1.1 (joined-writes m hole),
    ap (λ (x : Block). x.prev) (joined-writes m hole second ∙ untouched ∙ m.1.0),
  )
    where
      untouched :
          rewired marked at
            (block (joined c d).size (first (after second d) ds) pv true)
            (first (after second d) ds)
            at
            second
          ≡ marked second
      untouched = ground (arith, third-cases)

  free_block-hole :
      Tiles h pv at (c ∷ d ∷ ds)
      → c.free ≡ true
      → Became h (free_block h second) pv at (settle (joined c d) ds)
  free_block-hole t hole =
      let m = marked-Became t in
      let j = joined-Became m.0 hole in
      rw (free_block-joins h second (marked-joins m.0 ∙ hole), j.1)
        (Became-trans h marked _ pv at _ m.1 (
          Became-trans marked joined_cells _ pv at _ j.0.1
            (join_next-Became joined_cells pv at (joined c d) ds pos refl j.0.0)))

  pub free_block-second :
      Tiles h pv at (c ∷ d ∷ ds) → Became h (free_block h second) pv at (rejoin c d ds)
  free_block-second t = elim (Bool-cases c.free) [
    | inr used ↦ rw (rejoin-used c d ds used) (free_block-used t used)
    | inl hole ↦ rw (rejoin-hole c d ds hole) (free_block-hole t hole)
  ]
