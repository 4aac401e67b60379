-- ===== src/Mm/Heap/Tiles.antt =====
-- The heap of kernel/mm.c as a list of chunks, and the store of headers that stands for it.
use vaelen.Prelude.{ℕ, ◌+◌, ◌≤◌, ◌<◌, ◌≡◌, refl, ◌∙◌, ◌⊎◌, inl, inr, Bool, List, [], ◌∷◌, arith}
use vaelen.Mm.Frames.{kernel_heap_start}
use vaelen.Mm.Heap.{Ptr, null, block, Cells, header, kernel_heap_size, relink}

-- A block as a client sees it.
pub record Chunk : Type 0 where
  pub size : ℕ
  pub free : Bool

abbrev pub chunk : ℕ → Bool → Chunk
chunk size free = record { size = size; free = free }

abbrev pub Chunks : Type 0
Chunks = List Chunk

abbrev pub limit : ℕ
limit = kernel_heap_start + kernel_heap_size

-- The first address behind the chunk that starts at `at`.
abbrev pub after : ℕ → Chunk → ℕ
after at c = at + header + c.size

abbrev pub first : ℕ → Chunks → Ptr
first at [] = null
first at (_ ∷ _) = at

pub first-cases : (at : ℕ) (cs : Chunks) → (first at cs ≡ null) ⊎ (first at cs ≡ at)
first-cases at [] = inl refl
first-cases at (_ ∷ _) = inr refl

-- From `at` to the end of the heap the store holds the headers of `cs`, each right behind the one
-- before, doubly linked; `prev` is the header in front.
abbrev pub Tiles : Cells → Ptr → ℕ → Chunks → Type 0
Tiles h prev at [] = at ≡ limit
Tiles h prev at (c ∷ cs) =
    (h at ≡ block c.size (first (after at c) cs) prev c.free) × Tiles h at (after at c) cs

pub Tiles-le : (h : Cells) (prev : Ptr) (at : ℕ) (cs : Chunks) → Tiles h prev at cs → at ≤ limit
Tiles-le h prev at [] t = omega arith
Tiles-le h prev at (c ∷ cs) t = omega (arith, Tiles-le h at (after at c) cs t.1)

-- A store that agrees from `at` on stands for the same chunks.
pub Tiles-frame :
    (h g : Cells) (prev : Ptr) (at : ℕ) (cs : Chunks)
    → Tiles h prev at cs
    → ((a : Ptr) → at ≤ a → g a ≡ h a)
    → Tiles g prev at cs
Tiles-frame h g prev at [] t same = t
Tiles-frame h g prev at (c ∷ cs) t same = (
  same at (omega arith) ∙ t.0,
  Tiles-frame h g at (after at c) cs t.1 (λ a le. same a (omega arith)),
)

-- Only the first header names what stands in front.
pub Tiles-relink :
    (h : Cells) (prev q : Ptr) (at : ℕ) (cs : Chunks)
    → 0 < at
    → Tiles h prev at cs
    → Tiles (relink h (first at cs) q) q at cs
Tiles-relink h prev q at [] pos t = t
Tiles-relink h prev q at (c ∷ cs) pos t = (
  ground (arith, t.0),
  Tiles-frame h (relink h at q) at (after at c) cs t.1 (λ a le. ground arith),
)
