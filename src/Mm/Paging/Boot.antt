-- ===== src/Mm/Paging/Boot.antt =====
-- How `mm_init_paging` ends in the state that `kernel_main` of kernel/kernel.c calls it in.
use vaelen.Prelude.{
  ==_same, ℕ, zero, suc, ◌+◌, ◌-◌, ◌*◌, ◌%◌, ◌^◌, ◌<◌, ◌≡◌, ◌≢◌, refl, ap, sym, subst, ◌∙◌, Bool,
  true, false, ◌==◌, lt→ltb, not, if◌then◌else◌, update, [], ◌∷◌, Option, none, some, arith,
}
use vaelen.Mm.Frames.{Frames, Page, Bitmap, init, alloc_frame, kernel_heap_start}
use vaelen.Mm.Frames.Init.{alloc_frame-init}
use vaelen.Mm.Heap.{
  Ptr, null, Heap, Outcome, returns, header, kernel_heap_size, kmalloc_ap, kmalloc_a, set_up,
}
use vaelen.Mm.Heap.Tiles.{Chunks, chunk}
use vaelen.Mm.Heap.Spec.{alloc}
use vaelen.Mm.Heap.Kmalloc.{IsHeap, Served, kmalloc_ap-Served, set_up-IsHeap, set_up-same}
use vaelen.Mm.Paging.{
  Paging, Result, finished, panicked, ◌>>=◌, get_page, enter_table, fill_page, map_page, map_used,
  map_all, init_paging, with_directory, with_table, directory_size, no_page, PagePtr, after_used,
  after_directory_made, out_of_memory,
}

-- A heap that serves a request for `n` bytes at `p`.
Gives : ℕ → Heap → ℕ → Ptr → Chunks → Type 0
Gives fuel m n p ds = (m' : Heap) × (kmalloc_ap fuel m n ≡ returns p m') × IsHeap m' ds

gives :
    (fuel n : ℕ) (m : Heap) (cs ds : Chunks) (p : Ptr)
    → IsHeap (set_up m) cs
    → 0 < n
    → 2 ^ 20 < fuel
    → n + header + 8 < 2 ^ 32
    → alloc n kernel_heap_start cs ≡ some (p, ds)
    → Gives fuel m n p ds
unfolding Gives
gives fuel n m cs ds p ok pos enough small fit =
    let (h, out, ok') =
      subst (λ o. Served (set_up m) n o (kmalloc_ap fuel m n)) fit
        (kmalloc_ap-Served fuel n m cs ok pos enough small) in
    (record (set_up m) { cells = h }, out, ok')

abbrev whole : Chunks
whole = chunk (kernel_heap_size - header) true ∷ []

abbrev after_directory : Chunks
after_directory =
    chunk directory_size false
    ∷ chunk (kernel_heap_size - header - directory_size - header) true
    ∷ []

abbrev after_table : Chunks
after_table =
    chunk directory_size false
    ∷ chunk 4096 false
    ∷ chunk (kernel_heap_size - header - directory_size - header - 4096 - header) true
    ∷ []

alloc-directory :
    alloc directory_size kernel_heap_start whole
    ≡ some (kernel_heap_start + header, after_directory)
unfolding alloc
alloc-directory = refl

alloc-table :
    alloc 4096 kernel_heap_start after_directory
    ≡ some (kernel_heap_start + header + directory_size + header, after_table)
unfolding alloc
alloc-table = refl

IsHeap-set_up : (m : Heap) (cs : Chunks) → IsHeap m cs → m.heap_start ≢ null
IsHeap-set_up m cs ok e = omega (arith, ok.start, e)

get_page-fresh :
    (fuel : ℕ) (dir : Ptr) (s : Paging)
    → (s.directories dir).tables 0 ≡ null
    → get_page fuel 0 true dir s ≡ enter_table dir 0 0 s (kmalloc_ap fuel s.heap 4096)
unfolding get_page
get_page-fresh fuel dir s fresh =
    ap
      (λ (t : Ptr).
        if not (t == null)
        then finished (some (t, 0)) s
        else enter_table dir 0 0 s (kmalloc_ap fuel s.heap 4096))
      fresh

no_frame : Option (Page × Frames) → Ptr → ℕ → Paging → Result (Unit {0})
no_frame found table j s = elim found [
  | none ↦ panicked out_of_memory
  | some (page, frames) ↦
      finished tt
        (record s { frames = frames; pages = update s.pages table (update (s.pages table) j page) })
]

fill_page-panics :
    (t j : ℕ) (s : Paging)
    → s.pages t j ≡ no_page
    → alloc_frame s.frames no_page true true ≡ none
    → fill_page (some (t, j)) s ≡ panicked out_of_memory
unfolding fill_page no_frame
fill_page-panics t j s blank full =
    ap (λ (page : Page). no_frame (alloc_frame s.frames page true true) t j s) blank
    ∙ ap (λ (found : Option (Page × Frames)). no_frame found t j s) full

-- The page of a table that has just been made: no frame is to be had for it.
map_page-panics :
    (fuel : ℕ) (s : Paging) (t : Ptr) (ds : Chunks)
    → (s.directories s.kernel_directory).tables 0 ≡ null
    → Gives fuel s.heap 4096 t ds
    → alloc_frame s.frames no_page true true ≡ none
    → map_page fuel 0 s ≡ panicked out_of_memory
unfolding Gives map_page enter_table
map_page-panics fuel s t ds fresh (m', out, ok) full =
    ap (λ (r : Result PagePtr). r >>= fill_page)
      (get_page-fresh fuel s.kernel_directory s fresh
        ∙ ap (enter_table s.kernel_directory 0 0 s) out)
    ∙ fill_page-panics t 0 (with_table s.kernel_directory 0 t m' s)
        (ap (λ (here : Bool). (if here then (λ k. no_page) else s.pages t) 0) (==_same t t refl))
        full

map_used-panics :
    (fuel rounds : ℕ) (s : Paging)
    → 0 < rounds
    → 0 < s.frames.used_blocks
    → map_page fuel 0 s ≡ panicked out_of_memory
    → map_used fuel rounds 0 0 s ≡ panicked out_of_memory
unfolding map_used
map_used-panics fuel zero s some_rounds some_blocks e = absurd (omega arith)
map_used-panics fuel (suc rounds) s some_rounds some_blocks e =
    ap
      (λ (more : Bool). elim more [
        | true ↦ map_page fuel 0 s >>= (λ u s'. map_used fuel rounds 1 4096 s')
        | false ↦ finished tt s
      ])
      (lt→ltb _ _ some_blocks)
    ∙ ap (λ (r : Result (Unit {0})). r >>= (λ u s'. map_used fuel rounds 1 4096 s')) e

map_all-panics :
    (fuel rounds : ℕ) (s : Paging)
    → map_used fuel rounds 0 0 s ≡ panicked out_of_memory
    → map_all fuel rounds s ≡ panicked out_of_memory
unfolding map_all
map_all-panics fuel rounds s e = ap (λ (r : Result (Unit {0})). after_used fuel r) e

used-init : (mem_size : ℕ) (words : Bitmap) → 0 < (init mem_size words).used_blocks
unfolding init
used-init mem_size words = omega arith

-- The size that `kernel_main` computes for the memory: 8 GB in 32 bits.
abbrev pub mem_size : ℕ
mem_size = 8 * 1024 * 1024 * 1024 % 2 ^ 32

-- In the state that `kernel_main` calls it in, `mm_init_paging` panics: the heap has not been used,
-- and `mm_init` was called with the size that `kernel_main` computes. That holds whatever memory
-- held before; one round of the first loop and 2^20 of the search for a hole are enough to tell.
pub init_paging-panics :
    (fuel rounds : ℕ) (words : Bitmap) (s : Paging)
    → s.heap.heap_start ≡ null
    → s.heap.heap_placement ≡ kernel_heap_start
    → s.frames ≡ init mem_size words
    → 2 ^ 20 < fuel
    → 0 < rounds
    → init_paging fuel rounds s ≡ panicked out_of_memory
unfolding init_paging kmalloc_a Gives
init_paging-panics fuel rounds words s unused placement e enough some_rounds =
    ap (λ (o : Outcome). after_directory_made fuel rounds s o) first.1
    ∙ map_all-panics fuel rounds ready (
        map_used-panics fuel rounds ready some_rounds
          (subst (λ f. 0 < f.used_blocks) (sym e) (used-init mem_size words))
          (map_page-panics fuel ready _ after_table refl second (
            ap (λ f. alloc_frame f no_page true true) e
            ∙ alloc_frame-init mem_size words no_page true true refl refl)))
  where
    first : Gives fuel s.heap directory_size (kernel_heap_start + header) after_directory
    first =
        gives fuel directory_size s.heap whole after_directory _
          (set_up-IsHeap s.heap unused placement) (omega arith) enough (omega arith) alloc-directory

    ready : Paging
    ready = with_directory (kernel_heap_start + header) first.0 s

    second :
        Gives fuel first.0 4096 (kernel_heap_start + header + directory_size + header) after_table
    second =
        gives fuel 4096 first.0 after_directory after_table _
          (subst (λ h. IsHeap h after_directory)
            (sym (set_up-same first.0 (IsHeap-set_up first.0 after_directory first.2))) first.2)
          (omega arith) enough (omega arith) alloc-table
