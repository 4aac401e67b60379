-- ===== src/Mm/Heap/Became.antt =====
-- Two stores of block headers, where one stands for a list of chunks and leaves what is below alone.
use vaelen.Prelude.{ℕ, ◌<◌, ◌≡◌, ap, ◌∙◌, ◌∷◌, arith}
use vaelen.Mm.Heap.{Ptr, block, Cells, relink}
use vaelen.Mm.Heap.Tiles.{
  Chunk, Chunks, after, first, first-cases, Tiles, Tiles-frame, Tiles-relink,
}
use vaelen.Mm.Heap.Updates.{rewired}

-- The store `g` stands for `cs` from `at` on, and is `h` below.
abbrev pub Became : Cells → Cells → Ptr → ℕ → Chunks → Type 0
Became h g pv at cs = Tiles g pv at cs × ((a : Ptr) → a < at → g a ≡ h a)

-- A store where `at` holds a header, the chunks from `z` on are linked back to it, and nothing
-- below is written.
pub rewired-Became :
    (h g : Cells) (pv at z : Ptr) (c : Chunk) (before : Ptr) (cs : Chunks)
    → 0 < at
    → z ≡ after at c
    → Tiles h before z cs
    → ((a : Ptr) → g a ≡ rewired h at (block c.size (first z cs) pv c.free) (first z cs) at a)
    → Became h g pv at (c ∷ cs)
rewired-Became h g pv at z c before cs pos ez rest writes = rw (← ez) (
  (
    ground (arith, writes at),
    Tiles-frame (relink h (first z cs) at) g at z cs
        (Tiles-relink h before at z cs (omega arith) rest) (λ a le. ground (arith, writes a)),
  ),
  λ a lt. ground (arith, writes a, first-cases z cs),
)

-- The same store, or the same chunks, written another way.
pub Became-store :
    (h : Cells) {g k : Cells} (pv at : Ptr) (cs : Chunks)
    → k ≡ g
    → Became h g pv at cs
    → Became h k pv at cs
Became-store h pv at cs e b = rw e b

pub Became-chunks :
    (h g : Cells) (pv at : Ptr) {cs ds : Chunks}
    → ds ≡ cs
    → Became h g pv at cs
    → Became h g pv at ds
Became-chunks h g pv at e b = rw e b

pub Became-trans :
    (h g k : Cells) (pv at : Ptr) (cs : Chunks)
    → ((a : Ptr) → a < at → g a ≡ h a)
    → Became g k pv at cs
    → Became h k pv at cs
Became-trans h g k pv at cs same b = (b.0, λ a lt. b.1 a lt ∙ same a lt)

-- A chunk in front is untouched.
pub Became-cons :
    (h g : Cells) (pv at : Ptr) (c : Chunk) (cs ds : Chunks)
    → first (after at c) cs ≡ first (after at c) ds
    → Tiles h pv at (c ∷ cs)
    → Became h g at (after at c) ds
    → Became h g pv at (c ∷ ds)
Became-cons h g pv at c cs ds e t b = (
  (b.1 at (omega arith) ∙ t.0 ∙ ap (λ q. block c.size q pv c.free) e, b.0),
  λ a lt. b.1 a (omega arith),
)
