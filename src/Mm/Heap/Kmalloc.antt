-- ===== src/Mm/Heap/Kmalloc.antt =====
-- `kmalloc_ap` of kernel/mm.c against first fit on the list of chunks, and where it fails.
use vaelen.Prelude.{
  ℕ, ◌+◌, ◌-◌, ◌*◌, ◌^◌, ◌≤◌, ◌<◌, ◌≡◌, ◌≢◌, refl, sym, ap₂, ◌∙◌, inl, inr, true, false, [], ◌∷◌,
  arith, ◌==◌, Option, none, some, length,
}
use vaelen.Mm.Frames.{kernel_heap_start}
use vaelen.Mm.Heap.{
  Ptr, null, Cells, Heap, header, kernel_heap_size, Search, hole, no_hole, out_of_fuel, find_hole,
  carve, Outcome, returns, out_of_fuel, u32, set_up, sub32, kfree, place, serve, kmalloc_ap,
}
use vaelen.Mm.Heap.Tiles.{Chunks, chunk, limit, after, first, Tiles, Tiles-le}
use vaelen.Mm.Heap.Spec.{alloc, release, Starts}
use vaelen.Mm.Heap.Free.{free_block-release}
use vaelen.Mm.Heap.Alloc.{first_fit, find_hole-first_fit, Agrees, first_fit-alloc}

-- The heap is set up and its store stands for `cs`.
pub record IsHeap (m : Heap) (cs : Chunks) : Type 0 where
  pub start : m.heap_start ≡ kernel_heap_start
  pub last : m.heap_end ≡ kernel_heap_start
  pub placement : m.heap_placement ≡ kernel_heap_start
  pub tiles : Tiles m.cells null kernel_heap_start cs

-- How a request is answered, by what first fit makes of the chunks.
abbrev pub Served : Heap → ℕ → Option (Ptr × Chunks) → Outcome → Type 0
Served m n none out = out ≡ place m n
Served m n (some (p, ds)) out =
    (h : Cells) × (out ≡ returns p (record m { cells = h })) × IsHeap (record m { cells = h }) ds

-- Chunks have headers of 16 bytes, so a heap has at most 2 ^ 20 of them.
length-Tiles :
    (h : Cells) (pv at : Ptr) (cs : Chunks) → Tiles h pv at cs → at + header * length cs ≤ limit
length-Tiles h pv at [] t = omega arith
length-Tiles h pv at (c ∷ cs) t = omega (arith, length-Tiles h at (after at c) cs t.1)

pub kmalloc_ap-serve :
    (fuel : ℕ) (m : Heap) (n : ℕ)
    → n ≢ 0
    → kmalloc_ap fuel m n
      ≡ serve
          (set_up m)
          n
          (find_hole fuel (set_up m).cells (u32 (n + header)) (set_up m).heap_start)
unfolding kmalloc_ap
kmalloc_ap-serve fuel m n ne = ground arith

first-nonempty :
    (h : Cells) (cs : Chunks)
    → Tiles h null kernel_heap_start cs
    → first kernel_heap_start cs ≡ kernel_heap_start
first-nonempty h [] t = absurd (omega arith)
first-nonempty h (c ∷ cs) t = refl

find_hole-IsHeap :
    (fuel n : ℕ) (m : Heap) (cs : Chunks)
    → IsHeap m cs
    → n + header + 8 < 2 ^ 32
    → 2 ^ 20 < fuel
    → find_hole fuel m.cells (u32 (n + header)) m.heap_start ≡ first_fit n kernel_heap_start cs
find_hole-IsHeap fuel n m cs ok small enough =
    ap₂ (find_hole fuel m.cells) need (ok.start ∙ sym (first-nonempty m.cells cs ok.tiles))
    ∙ find_hole-first_fit fuel n m.cells null kernel_heap_start cs (omega arith) ok.tiles
        (omega (arith, length-Tiles m.cells null kernel_heap_start cs ok.tiles))
  where
    need : u32 (n + header) ≡ n + header
    need = omega arith

serve-Served :
    (m : Heap) (n : ℕ) (cs : Chunks) (s : Search) (o : Option (Ptr × Chunks))
    → IsHeap m cs
    → Agrees n m.cells null kernel_heap_start cs s o
    → Served m n o (serve m n s)
unfolding serve
serve-Served m n cs no_hole none ok a = refl
serve-Served m n cs (hole q) (some (p, ds)) ok (e, lo, hi, f, b) = (
  carve m.cells q n,
  ground arith,
  record { start = ok.start; last = ok.last; placement = ok.placement; tiles = b.0 },
)
serve-Served m n cs no_hole (some _) ok a = absurd a
serve-Served m n cs (hole q) none ok a = absurd a
serve-Served m n cs out_of_fuel none ok a = absurd a
serve-Served m n cs out_of_fuel (some _) ok a = absurd a

module _ (fuel n : ℕ) (m : Heap) (cs : Chunks) (ok : IsHeap (set_up m) cs) (pos : 0 < n)
    (enough : 2 ^ 20 < fuel) where
  -- A request of `n` bytes, where `n + 24` does not wrap, ends. If first fit serves it from the
  -- list of chunks, `kmalloc_ap` returns that address and leaves a store that stands for the list
  -- that first fit leaves; if no hole fits, it goes on to place a block at `heap_placement`.
  pub kmalloc_ap-Served :
      n + header + 8 < 2 ^ 32
      → Served (set_up m) n (alloc n kernel_heap_start cs) (kmalloc_ap fuel m n)
  kmalloc_ap-Served small =
      rw
        (
          kmalloc_ap-serve fuel m n (omega arith),
          find_hole-IsHeap fuel n (set_up m) cs ok small enough,
        )
        (serve-Served (set_up m) n cs (first_fit n kernel_heap_start cs)
          (alloc n kernel_heap_start cs) ok
          (first_fit-alloc n (set_up m).cells null kernel_heap_start cs (omega arith) small
            ok.tiles))

-- The first call of `kmalloc_ap` makes one hole of the whole heap.
pub set_up-IsHeap :
    (m : Heap)
    → m.heap_start ≡ null
    → m.heap_placement ≡ kernel_heap_start
    → IsHeap (set_up m) (chunk (kernel_heap_size - header) true ∷ [])
unfolding set_up
set_up-IsHeap m fresh placement =
    rw fresh
      (record { start = refl; last = refl; placement = placement; tiles = (ground arith, refl) })

pub set_up-same : (m : Heap) → m.heap_start ≢ null → set_up m ≡ m
unfolding set_up
set_up-same m ne = ground arith

Starts-le :
    (h : Cells) (pv at q : Ptr) (cs : Chunks)
    → Tiles h pv at cs
    → Starts q at cs
    → (at ≤ q) × (q + header ≤ limit)
Starts-le h pv at q [] t s = absurd s
Starts-le h pv at q (c ∷ cs) t (inl e) = omega (arith, Tiles-le h at (after at c) cs t.1)
Starts-le h pv at q (c ∷ cs) t (inr s) = omega (arith, Starts-le h at (after at c) q cs t.1 s)

-- `kfree` of the bytes behind the header at `q`, where one of the chunks starts, leaves a store
-- that stands for the list with that chunk free and joined to its free neighbours.
pub kfree-release :
    (m : Heap) (cs : Chunks) (q : Ptr)
    → IsHeap m cs
    → Starts q kernel_heap_start cs
    → IsHeap (kfree m (q + header)) (release q kernel_heap_start cs)
unfolding kfree
kfree-release m cs q ok here =
    let inside = Starts-le m.cells null kernel_heap_start q cs ok.tiles here in
    let nonnull : (q + header == null) ≡ false = ground arith in
    let back : sub32 (q + header) header ≡ q = omega arith in
    rw (nonnull, back)
      (record {
        start = ok.start;
        last = ok.last;
        placement = ok.placement;
        tiles = free_block-release m.cells kernel_heap_start q cs (omega arith) ok.tiles here;
      })
