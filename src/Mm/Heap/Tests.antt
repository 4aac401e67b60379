-- ===== src/Mm/Heap/Tests.antt =====
-- Runs of the kernel heap, and its theorems at concrete states.
use vaelen.Prelude.{ℕ, ◌+◌, ◌-◌, ◌^◌, ◌≡◌, ◌≢◌, refl, true, false, [], ◌∷◌, none, some, arith, inl}
use vaelen.Mm.Frames.{kernel_heap_start}
use vaelen.Mm.Heap.{
  null, block, Heap, header, kernel_heap_size, set_up, kmalloc_ap, kfree, returns, hangs,
}
use vaelen.Mm.Heap.Tiles.{Chunks, chunk}
use vaelen.Mm.Heap.Spec.{alloc, release}
use vaelen.Mm.Heap.Kmalloc.{IsHeap, Served, kmalloc_ap-Served, set_up-IsHeap, kfree-release}
use vaelen.Mm.Heap.Exhausted.{kmalloc_ap-exhausted}
use vaelen.Mm.Heap.RoundTrip.{kfree-kmalloc_ap}

-- The static variables before the first call.
abbrev zeroed : Heap
zeroed = record {
  heap_start = null;
  heap_end = null;
  heap_placement = kernel_heap_start;
  cells = λ a. block 0 0 0 false;
}

abbrev whole : Chunks
whole = chunk (kernel_heap_size - header) true ∷ []

zeroed-IsHeap : IsHeap (set_up zeroed) whole
zeroed-IsHeap = set_up-IsHeap zeroed refl refl

kmalloc_twice :
    alloc 100 kernel_heap_start whole
    ≡ some (kernel_heap_start + 16, chunk 100 false ∷ chunk 16777084 true ∷ [])
unfolding alloc
kmalloc_twice = refl

kmalloc_ap-Served_example :
    Served
      (set_up zeroed)
      100
      (alloc 100 kernel_heap_start whole)
      (kmalloc_ap (2 ^ 20 + 1) zeroed 100)
kmalloc_ap-Served_example =
    kmalloc_ap-Served (2 ^ 20 + 1) 100 zeroed whole zeroed-IsHeap (omega arith) (omega arith)
      (omega arith)

kfree-kmalloc_ap_example :
    (m' : Heap) × (kmalloc_ap (2 ^ 20 + 1) zeroed 100 ≡ returns (kernel_heap_start + 16) m')
    × IsHeap (kfree m' (kernel_heap_start + 16)) whole
kfree-kmalloc_ap_example =
    kfree-kmalloc_ap (2 ^ 20 + 1) 100 zeroed whole (kernel_heap_start + 16)
      (chunk 100 false ∷ chunk 16777084 true ∷ []) zeroed-IsHeap (refl, tt) (omega arith)
      (omega arith) (omega arith) kmalloc_twice

kfree-release_example :
    IsHeap
      (kfree (set_up zeroed) (kernel_heap_start + header))
      (release kernel_heap_start kernel_heap_start whole)
kfree-release_example =
    kfree-release (set_up zeroed) whole kernel_heap_start zeroed-IsHeap (inl refl)

-- 16 MiB less 8 bytes: no room beside the header.
whole_heap_full : alloc 16777200 kernel_heap_start whole ≡ none
unfolding alloc
whole_heap_full = refl

kmalloc_ap-exhausted_example :
    (m' : Heap) × (kmalloc_ap (2 ^ 20 + 1) zeroed 16777200
      ≡ returns (kernel_heap_start + header) m')
    × ((rounds k : ℕ) → k ≢ 0 → kmalloc_ap rounds m' k ≡ hangs)
kmalloc_ap-exhausted_example =
    kmalloc_ap-exhausted (2 ^ 20 + 1) 16777200 zeroed whole zeroed-IsHeap (omega arith)
      (omega arith) (omega arith) whole_heap_full (inl (omega arith))

too_large : alloc 20000000 kernel_heap_start whole ≡ none
unfolding alloc
too_large = refl
