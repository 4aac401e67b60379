-- ===== src/Mm/Paging/Clone.antt =====
-- kernel/mm.c: `mm_clone_directory`. It hands `kmalloc_ap` the address of a field of the directory that
-- it has not got yet: what the write through that pointer does is a parameter, `scribble`.
pub mod Pages
pub mod Tables
pub mod Shares
pub mod Whole
mod Tests
use vaelen.Prelude.{
  ℕ, zero, suc, ◌+◌, ◌*◌, ◌%◌, ◌^◌, Bool, true, false, not, ◌==◌, if◌then◌else◌, update, Option,
  none, some, List, [], ◌∷◌, ◌++◌,
}
use vaelen.Mm.Frames.{Page, Frames, page_size, alloc_frame}
use vaelen.Mm.Heap.{Ptr, null, Heap, Outcome, returns, panics, hangs, kmalloc_ap}
use vaelen.Mm.Paging.{
  Directory, Paging, Result, finished, panicked, unfinished, ◌>>=◌, directory_size, out_of_memory,
  heap_exhausted,
}

-- The calls of `memcpy` of one page: where to and where from.
abbrev pub Copies : Type 0
Copies = List (ℕ × ℕ)

abbrev pub set_page : Ptr → ℕ → Page → Paging → Paging
set_page table j page s = record s { pages = update s.pages table (update (s.pages table) j page) }

abbrev pub with_frame : ℕ → Page → Page
with_frame n page = record page { frame = n }

-- What follows `mm_alloc_frame` for the page `j` of `table`, whose original had the frame `tmp`.
unfoldable pub after_frame :
    Ptr → Ptr → ℕ → ℕ → Copies → Paging → Option (Page × Frames) → Result Copies
after_frame table old j tmp copies s none = panicked out_of_memory
after_frame table old j tmp copies s (some (page, frames)) =
    let filled = set_page table j page (record s { frames = frames }) in
    finished
      (copies
        ++ (((filled.pages table j).frame * page_size % 2 ^ 32, tmp * page_size % 2 ^ 32) ∷ []))
      (set_page old j (with_frame tmp (filled.pages old j)) filled)

-- A round of the inner loop, for the page `j` of the new table and of the old one.
unfoldable pub clone_page : Ptr → Ptr → ℕ → Copies → Paging → Result Copies
unfolding after_frame
clone_page table old j copies s =
    let page = s.pages old j in
    let cleared = set_page old j (with_frame 0 page) s in
    if page.frame == 0
    then finished copies s
    else after_frame table old j page.frame copies cleared (
        alloc_frame cleared.frames (cleared.pages table j) false
          (not ((cleared.pages old j).rw == 0)))

-- The inner loop from `j` on, with `n` rounds left.
unfoldable pub clone_pages : ℕ → ℕ → Ptr → Ptr → Copies → Paging → Result Copies
unfolding clone_page
clone_pages zero j table old copies s = finished copies s
clone_pages (suc n) j table old copies s =
    clone_page table old j copies s >>= clone_pages n (j + 1) table old

abbrev pub in_directory : Ptr → (Directory → Directory) → Paging → Paging
in_directory dir f s = record s { directories = update s.directories dir (f (s.directories dir)) }

abbrev pub set_table : ℕ → Ptr → Directory → Directory
set_table i table d = record d { tables = update d.tables i table }

abbrev pub set_physical : ℕ → ℕ → Directory → Directory
set_physical i address d = record d { tables_physical = update d.tables_physical i address }

-- `current_directory->tables[i]`
abbrev pub current_table : ℕ → Paging → Ptr
current_table i s = (s.directories s.current_directory).tables i

-- The new table, whose address `kmalloc_ap` has stored, with the pages of the current one.
abbrev pub with_copy : Ptr → ℕ → Ptr → Heap → Paging → Paging
with_copy dir i table heap s =
    let stored = in_directory dir (set_physical i table) (record s { heap = heap }) in
    record stored { pages = update s.pages table (s.pages (current_table i s)) }

-- What follows the call of `kmalloc_ap` for a table that the two directories do not share.
unfoldable pub after_table : Ptr → ℕ → Copies → Paging → Outcome → Result Copies
unfolding clone_pages
after_table dir i copies s (returns table heap) =
    clone_pages 1024 0 table (current_table i s) copies (with_copy dir i table heap s)
    >>= (λ copies' s'. finished copies' (in_directory dir (set_table i table) s'))
after_table dir i copies s panics = panicked heap_exhausted
after_table dir i copies s hangs = unfinished

-- `dir->tables[i]` and its physical address are the kernel's.
abbrev pub share : Ptr → ℕ → Paging → Paging
share dir i s =
    let kernel = s.directories s.kernel_directory in
    let tabled = in_directory dir (set_table i (kernel.tables i)) s in
    in_directory dir
      (set_physical i ((tabled.directories tabled.kernel_directory).tables_physical i)) tabled

-- A round of the outer loop.
unfoldable pub clone_entry : ℕ → Ptr → ℕ → Copies → Paging → Result Copies
unfolding after_table
clone_entry fuel dir i copies s =
    let kernel = (s.directories s.kernel_directory).tables i in
    if kernel == null
    then finished copies s
    else if kernel == current_table i s
    then finished copies (share dir i s)
    else after_table dir i copies s (kmalloc_ap fuel s.heap 4096)

-- The outer loop from `i` on, with `n` rounds left.
unfoldable pub clone_entries : ℕ → ℕ → Ptr → ℕ → Copies → Paging → Result Copies
unfolding clone_entry
clone_entries fuel zero dir i copies s = finished copies s
clone_entries fuel (suc n) dir i copies s =
    clone_entry fuel dir i copies s >>= clone_entries fuel n dir (i + 1)

-- What `memset` leaves.
abbrev pub zero_directory : Directory
zero_directory = record { tables = λ i. null; tables_physical = λ i. 0; physical_addr = 0 }

abbrev pub with_cleared : Ptr → Paging → Paging
with_cleared dir s = in_directory dir (λ d. zero_directory) s

-- What follows the allocation of the directory.
unfoldable pub after_made : ℕ → (Ptr → Paging → Paging) → Paging → Outcome → Result (Ptr × Copies)
unfolding clone_entries
after_made fuel scribble s (returns dir heap) =
    clone_entries fuel 1024 dir 0 [] (with_cleared dir (scribble dir (record s { heap = heap })))
    >>= (λ copies s'. finished (dir, copies) s')
after_made fuel scribble s panics = panicked heap_exhausted
after_made fuel scribble s hangs = unfinished

-- `mm_clone_directory`: the new directory, and the pages that it has copied.
unfoldable pub clone_directory : ℕ → (Ptr → Paging → Paging) → Paging → Result (Ptr × Copies)
unfolding after_made
clone_directory fuel scribble s = after_made fuel scribble s (kmalloc_ap fuel s.heap directory_size)
