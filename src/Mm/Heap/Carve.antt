-- ===== src/Mm/Heap/Carve.antt =====
-- `kmalloc_ap` of kernel/mm.c on the hole that it uses.
use vaelen.Prelude.{
  ℕ, ◌+◌, ◌-◌, ◌^◌, ◌≤◌, ◌<◌, ◌≡◌, ◌≢◌, ap, ◌∙◌, true, false, ◌∷◌, arith, dec_lt, update, ◌==◌,
  if◌then◌else◌,
}
use vaelen.Mm.Heap.{Ptr, block, Cells, header, carve}
use vaelen.Mm.Heap.Tiles.{
  Chunk, Chunks, chunk, after, first, first-cases, Tiles, Tiles-le, Tiles-frame,
}
use vaelen.Mm.Heap.Updates.{rewired, carve_split, carve_whole}
use vaelen.Mm.Heap.Spec.{take_chunk, take_chunk-split, take_chunk-whole}
use vaelen.Mm.Heap.Became.{Became, rewired-Became, Became-chunks}

module _ (h : Cells) (pv at : Ptr) (n : ℕ) (c : Chunk) (cs : Chunks) (pos : 0 < at) where
  abbrev behind : Ptr
  behind = at + header + n

  abbrev headed : Cells
  headed = update h at (block n behind pv false)

  behind-cases :
      (first (after at c) cs ≢ at) × (n + header + 8 ≤ c.size → first (after at c) cs ≢ behind)
  behind-cases = (
    ground (arith, first-cases (after at c) cs),
    λ room. ground (arith, first-cases (after at c) cs),
  )

  split-writes :
      Tiles h pv at (c ∷ cs)
      → c.free ≡ true
      → n + header + 8 ≤ c.size
      → (a : Ptr)
      → carve h at n a
        ≡ rewired headed behind
            (block (c.size - n - header) (first (after at c) cs) at true)
            (first (after at c) cs)
            behind
            a
  split-writes t free room a = ground (
    arith,
    carve_split h at (first (after at c) cs) pv c.size n
        (t.0 ∙ ap (block c.size (first (after at c) cs) pv) free) room
        (omega (arith, Tiles-le h at (after at c) cs t.1)) behind-cases.0 (behind-cases.1 room) a,
    behind-cases.0,
  )

  carve-split :
      Tiles h pv at (c ∷ cs)
      → c.free ≡ true
      → n + header + 8 ≤ c.size
      → Became h (carve h at n) pv at (chunk n false ∷ chunk (c.size - n - header) true ∷ cs)
  carve-split t free room =
      let b =
        rewired-Became headed (carve h at n) at behind (after at c)
          (chunk (c.size - n - header) true) at cs (omega arith) (omega arith)
          (Tiles-frame h headed at (after at c) cs t.1 (λ a le. ground arith))
          (split-writes t free room) in
      ((b.1 at (omega arith) ∙ ground arith, b.0), λ a lt. b.1 a (omega arith) ∙ ground arith)

  carve-whole :
      Tiles h pv at (c ∷ cs)
      → c.free ≡ true
      → c.size < n + header + 8
      → n + header + 8 < 2 ^ 32
      → Became h (carve h at n) pv at (chunk c.size false ∷ cs)
  carve-whole t free tight fits32 = (
    (
      writes at ∙ ground arith,
      Tiles-frame h (carve h at n) at (after at c) cs t.1 (λ a le. writes a ∙ ground arith),
    ),
    λ a lt. writes a ∙ ground arith,
  )
    where
      writes :
          (a : Ptr)
          → carve h at n a
            ≡ (if a == at then block c.size (first (after at c) cs) pv false else h a)
      writes =
          carve_whole h at (first (after at c) cs) pv c.size n
            (t.0 ∙ ap (block c.size (first (after at c) cs) pv) free) tight fits32

  pub carve-take_chunk :
      Tiles h pv at (c ∷ cs)
      → c.free ≡ true
      → n + header + 8 < 2 ^ 32
      → Became h (carve h at n) pv at (take_chunk n c cs)
  carve-take_chunk t free fits32 = elim (dec_lt c.size (n + header + 8)) [
    | yes tight ↦
        Became-chunks h (carve h at n) pv at (take_chunk-whole n c cs tight)
          (carve-whole t free tight fits32)
    | no room ↦
        Became-chunks h (carve h at n) pv at (take_chunk-split n c cs (omega arith))
          (carve-split t free (omega arith))
  ]
