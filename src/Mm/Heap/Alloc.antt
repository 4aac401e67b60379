-- ===== src/Mm/Heap/Alloc.antt =====
-- `kmalloc_ap` of kernel/mm.c serves a request by first fit.
use vaelen.Prelude.{
  ℕ, zero, suc, ◌+◌, ◌^◌, ◌≤◌, ◌<◌, ◌≡◌, refl, sym, inl, inr, [], ◌∷◌, arith, Option, none, some,
  if◌then◌else◌, Bool-cases, length,
}
use vaelen.Mm.Heap.{Ptr, Cells, header, Search, hole, no_hole, out_of_fuel, find_hole, carve}
use vaelen.Mm.Heap.Tiles.{Chunk, Chunks, limit, after, first, Tiles, Tiles-le}
use vaelen.Mm.Heap.Spec.{fits, take_chunk, alloc, in_front}
use vaelen.Mm.Heap.Became.{Became, Became-cons}
use vaelen.Mm.Heap.Carve.{carve-take_chunk}

-- The address of the header that first fit takes.
unfoldable pub first_fit : ℕ → ℕ → Chunks → Search
first_fit n at [] = no_hole
first_fit n at (c ∷ cs) = if fits n c then hole at else first_fit n (after at c) cs

-- With a round for each chunk and one more, the loop ends and finds the first fit.
pub find_hole-first_fit :
    (fuel n : ℕ) (h : Cells) (pv at : Ptr) (cs : Chunks)
    → 0 < at
    → Tiles h pv at cs
    → length cs < fuel
    → find_hole fuel h (n + header) (first at cs) ≡ first_fit n at cs
unfolding find_hole first_fit
find_hole-first_fit zero n h pv at cs pos t enough = absurd (omega arith)
find_hole-first_fit (suc fuel) n h pv at [] pos t enough = refl
find_hole-first_fit (suc fuel) n h pv at (c ∷ cs) pos t enough = rw t.0 (
    ground (arith, find_hole-first_fit fuel n h at (after at c) cs (omega arith) t.1 (omega arith)))

-- What the loop finds and what the chunks should become agree.
abbrev pub Agrees : ℕ → Cells → Ptr → ℕ → Chunks → Search → Option (Ptr × Chunks) → Type 0
Agrees n h pv at cs no_hole none = Unit
Agrees n h pv at cs (hole q) (some (p, ds)) =
    (p ≡ q + header)
    × (at ≤ q)
    × (q + header ≤ limit)
    × (first at ds ≡ first at cs)
    × Became h (carve h q n) pv at ds
Agrees n h pv at cs _ _ = ⊥

Agrees-cons :
    (n : ℕ) (h : Cells) (pv at : Ptr) (c : Chunk) (cs : Chunks) (s : Search)
    (o : Option (Ptr × Chunks))
    → Tiles h pv at (c ∷ cs)
    → Agrees n h at (after at c) cs s o
    → Agrees n h pv at (c ∷ cs) s (in_front c o)
Agrees-cons n h pv at c cs no_hole none t ok = tt
Agrees-cons n h pv at c cs (hole q) (some (p, ds)) t (e, lo, hi, f, b) =
    (e, omega arith, hi, refl, Became-cons h (carve h q n) pv at c cs ds (sym f) t b)
Agrees-cons n h pv at c cs no_hole (some _) t ok = absurd ok
Agrees-cons n h pv at c cs (hole q) none t ok = absurd ok
Agrees-cons n h pv at c cs out_of_fuel none t ok = absurd ok
Agrees-cons n h pv at c cs out_of_fuel (some _) t ok = absurd ok

first-take_chunk : (n z : ℕ) (c : Chunk) (cs : Chunks) → first z (take_chunk n c cs) ≡ z
unfolding take_chunk
first-take_chunk n z c cs = ground arith

pub first_fit-alloc :
    (n : ℕ) (h : Cells) (pv at : Ptr) (cs : Chunks)
    → 0 < at
    → n + header + 8 < 2 ^ 32
    → Tiles h pv at cs
    → Agrees n h pv at cs (first_fit n at cs) (alloc n at cs)
unfolding first_fit alloc
first_fit-alloc n h pv at [] pos small t = tt
first_fit-alloc n h pv at (c ∷ cs) pos small t = elim (Bool-cases (fits n c)) [
  | inl fit ↦ rw fit (
    refl,
    omega arith,
    omega (arith, Tiles-le h at (after at c) cs t.1),
    first-take_chunk n at c cs,
    carve-take_chunk h pv at n c cs pos t (ground arith) small,
  )
  | inr unfit ↦ rw unfit (
      Agrees-cons n h pv at c cs (first_fit n (after at c) cs) (alloc n (after at c) cs) t
        (first_fit-alloc n h at (after at c) cs (omega arith) small t.1))
]
