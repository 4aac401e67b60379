-- ===== src/Mm/Heap/RoundTrip.antt =====
-- `kfree` after `kmalloc_ap` of kernel/mm.c.
use vaelen.Prelude.{ℕ, ◌+◌, ◌-◌, ◌^◌, ◌<◌, ◌≡◌, ◌∙◌, subst, false, some, arith, inl, inr}
use vaelen.Mm.Frames.{kernel_heap_start}
use vaelen.Mm.Heap.{Ptr, Heap, header, set_up, kmalloc_ap, kfree, returns}
use vaelen.Mm.Heap.Tiles.{Chunks}
use vaelen.Mm.Heap.Spec.{alloc, Starts}
use vaelen.Mm.Heap.Laws.{
  Allocates, here, there, alloc-Allocates, Allocates-le, IsCoalesced, release-alloc,
  take_chunk-cons,
}
use vaelen.Mm.Heap.Kmalloc.{IsHeap, Served, kmalloc_ap-Served, kfree-release}

Starts-Allocates :
    {n at : ℕ} {cs ds : Chunks} {p : Ptr} → Allocates n at cs p ds → Starts (p - header) at ds
Starts-Allocates {n} (here {c} {cs} f room e e') =
    let (d, ds, et) = take_chunk-cons n c cs in rw (e' ∙ et) (inl (omega arith))
Starts-Allocates (there a e) = rw e (inr (Starts-Allocates a))

module _ (fuel n : ℕ) (m : Heap) (cs : Chunks) where
  -- On a heap without adjacent free chunks a request that first fit can serve is served, and
  -- `kfree` of the address that it returns gives a heap with the same chunks as before.
  pub kfree-kmalloc_ap :
      (p : Ptr) (ds : Chunks)
      → IsHeap (set_up m) cs
      → IsCoalesced false cs
      → 0 < n
      → 2 ^ 20 < fuel
      → n + header + 8 < 2 ^ 32
      → alloc n kernel_heap_start cs ≡ some (p, ds)
      → (m' : Heap) × (kmalloc_ap fuel m n ≡ returns p m') × IsHeap (kfree m' p) cs
  kfree-kmalloc_ap p ds ok apart pos enough small fit =
      let (h, out, ok') =
        subst (λ o. Served (set_up m) n o (kmalloc_ap fuel m n)) fit
          (kmalloc_ap-Served fuel n m cs ok pos enough small) in
      let a = alloc-Allocates n kernel_heap_start cs p ds fit in
      let m' : Heap = record (set_up m) { cells = h } in
      let back : p - header + header ≡ p = omega (arith, Allocates-le a) in
      (
        m',
        out,
        subst (λ q. IsHeap (kfree m' q) cs) back
            (subst (IsHeap (kfree m' (p - header + header)))
              (release-alloc n kernel_heap_start cs p ds apart fit)
              (kfree-release m' ds (p - header) ok' (Starts-Allocates a))),
      )
