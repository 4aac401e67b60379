-- ===== src/Mm/Heap/Exhausted.antt =====
-- `kmalloc_ap` of kernel/mm.c where no hole fits, and where the size wraps.
use vaelen.Prelude.{
  ℕ, zero, suc, ◌+◌, ◌^◌, ◌≤◌, ◌<◌, ◌≡◌, ◌≢◌, refl, subst, ◌∙◌, ◌⊎◌, inl, inr, false, arith, update,
  none,
}
use vaelen.Mm.Frames.{kernel_heap_start}
use vaelen.Mm.Heap.{
  null, block, Cells, Heap, header, kernel_heap_size, out_of_fuel, find_hole, returns, out_of_fuel,
  panics, hangs, u32, set_next, set_up, place, serve, kmalloc_ap,
}
use vaelen.Mm.Heap.Tiles.{Chunks}
use vaelen.Mm.Heap.Spec.{alloc}
use vaelen.Mm.Heap.Kmalloc.{IsHeap, Served, kmalloc_ap-Served, kmalloc_ap-serve, set_up-same}

-- Once the first header is in use and is its own successor, the search never ends.
find_hole-loop :
    (fuel need n : ℕ) (h : Cells)
    → h kernel_heap_start ≡ block n kernel_heap_start kernel_heap_start false
    → find_hole fuel h need kernel_heap_start ≡ out_of_fuel
unfolding find_hole
find_hole-loop zero need n h e = refl
find_hole-loop (suc fuel) need n h e = rw e (find_hole-loop fuel need n h e)

kmalloc_ap-loop :
    (fuel k n : ℕ) (m : Heap)
    → k ≢ 0
    → m.heap_start ≡ kernel_heap_start
    → m.cells kernel_heap_start ≡ block n kernel_heap_start kernel_heap_start false
    → kmalloc_ap fuel m k ≡ hangs
kmalloc_ap-loop fuel k n m ne start e =
    kmalloc_ap-serve fuel m k ne
    ∙ rw (set_up-same m (omega arith), start, find_hole-loop fuel (u32 (k + header)) n m.cells e)
        (unfold serve in refl)

-- The sizes at which the test against the end of the heap does not stop the request: it fits the
-- heap's size, or adding it to the heap's start wraps.
abbrev pub PassesLimit : ℕ → Type 0
PassesLimit n = (n + header ≤ kernel_heap_size) ⊎ (2 ^ 32 ≤ kernel_heap_start + n + header)

module _ (m : Heap) (cs : Chunks) (ok : IsHeap m cs) (n : ℕ) (small : n + header + 8 < 2 ^ 32) where
  place-returns :
      PassesLimit n
      → (m' : Heap) × (place m n ≡ returns (kernel_heap_start + header) m')
        × (m'.heap_start ≡ kernel_heap_start)
        × (m'.cells kernel_heap_start ≡ block n kernel_heap_start kernel_heap_start false)
  unfolding place
  place-returns room = (
    record m {
      heap_end = kernel_heap_start;
      heap_placement = u32 (kernel_heap_start + u32 (n + header));
      cells =
          set_next (update m.cells kernel_heap_start (block n null kernel_heap_start false))
            kernel_heap_start kernel_heap_start;
    },
    ground (arith, ok.start, ok.last, ok.placement),
    ok.start,
    refl,
  )

  place-panics : ¬ PassesLimit n → place m n ≡ panics
  unfolding place
  place-panics large = ground (
    arith,
    ok.placement,
    λ (h : n + header ≤ kernel_heap_size). large (inl h),
    λ (h : 2 ^ 32 ≤ kernel_heap_start + n + header). large (inr h),
  )

module _ (fuel n : ℕ) (m : Heap) (cs : Chunks) (ok : IsHeap (set_up m) cs) (pos : 0 < n)
    (enough : 2 ^ 20 < fuel) where
  placed :
      n + header + 8 < 2 ^ 32
      → alloc n kernel_heap_start cs ≡ none
      → kmalloc_ap fuel m n ≡ place (set_up m) n
  placed small full =
      subst (λ o. Served (set_up m) n o (kmalloc_ap fuel m n)) full
        (kmalloc_ap-Served fuel n m cs ok pos enough small)

  -- A request that no hole fits, of a size that the test against the heap's end lets through, is
  -- answered with the address of the bytes of the first chunk, whoever uses it, and leaves a heap on
  -- which a request for any nonzero size runs for ever, as the next one does unless something is
  -- freed before it.
  pub kmalloc_ap-exhausted :
      n + header + 8 < 2 ^ 32
      → alloc n kernel_heap_start cs ≡ none
      → PassesLimit n
      → (m' : Heap) × (kmalloc_ap fuel m n ≡ returns (kernel_heap_start + header) m')
        × ((rounds k : ℕ) → k ≢ 0 → kmalloc_ap rounds m' k ≡ hangs)
  kmalloc_ap-exhausted small full room =
      let (m', out, start, cell) = place-returns (set_up m) cs ok n small room in
      (m', placed small full ∙ out, λ rounds k ne. kmalloc_ap-loop rounds k n m' ne start cell)

  -- A request that no hole fits, of any other size, panics.
  pub kmalloc_ap-panics :
      n + header + 8 < 2 ^ 32
      → alloc n kernel_heap_start cs ≡ none
      → ¬ PassesLimit n
      → kmalloc_ap fuel m n ≡ panics
  kmalloc_ap-panics small full large =
      placed small full ∙ place-panics (set_up m) cs ok n small large
