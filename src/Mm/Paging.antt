-- ===== src/Mm/Paging.antt =====
-- kernel/mm.c: page tables, `mm_get_page`, `mm_init_paging` and `mm_switch_page_directory`. What the
-- tables hold is kept beside the heap's headers: a page table lies in bytes that `kmalloc_ap` returned.
pub mod Boot
pub mod Clone
pub mod Tests
use vaelen.Prelude.{
  ℕ, zero, suc, ◌+◌, ◌*◌, ◌/◌, ◌%◌, ◌^◌, bit_or, Bool, true, false, not, ◌==◌, ltb, if◌then◌else◌,
  update, Option, none, some, List,
}
use vaelen.Prelude.Text.{bytes}
use vaelen.Mm.Frames.{Page, Frames, page_size, kernel_heap_start, alloc_frame}
use vaelen.Mm.Heap.{
  Ptr, null, Heap, Outcome, returns, panics, hangs, kernel_heap_size, kmalloc_ap, kmalloc_a,
}
use vaelen.Arch.Interrupts.{Interrupts, register_handler}

-- `page_directory_t`
pub record Directory : Type 0 where
  pub tables : ℕ → Ptr
  pub tables_physical : ℕ → ℕ
  pub physical_addr : ℕ

-- The static variables of mm.c, the directories and the page tables that memory holds at an address,
-- the table of interrupt handlers, and the control registers.
pub record Paging : Type 0 where
  pub heap : Heap
  pub frames : Frames
  pub kernel_directory : Ptr
  pub current_directory : Ptr
  pub directories : Ptr → Directory
  pub pages : Ptr → ℕ → Page
  pub interrupts : Interrupts
  pub cr0 : ℕ
  pub cr3 : ℕ

-- A call that returns, panics with a message, or has used up its rounds.
pub data Result {ℓ} (A : Type ℓ) : Type ℓ where
  finished : A → Paging → Result A
  panicked : List ℕ → Result A
  unfinished : Result A

infixl 30 ◌>>=◌
abbrev pub ◌>>=◌ {ℓ} : {A B : Type ℓ} → Result A → (A → Paging → Result B) → Result B
finished a s >>= f = f a s
panicked message >>= f = panicked message
unfinished >>= f = unfinished

-- The messages of `mm_alloc_frame` and of `kmalloc_ap`.
abbrev pub out_of_memory : List ℕ
out_of_memory = bytes "Out of memory"

abbrev pub heap_exhausted : List ℕ
heap_exhausted = bytes "Kernel heap exhausted"

abbrev pub no_page : Page
no_page = record { present = 0; rw = 0; user = 0; accessed = 0; dirty = 0; unused = 0; frame = 0 }

-- What `mm_get_page` returns: a page table and an index into it, or a null pointer.
abbrev pub PagePtr : Type 0
PagePtr = Option (Ptr × ℕ)

-- What follows the call of `kmalloc_ap` in `mm_get_page` for table `i` of the directory at `dir`.
abbrev pub with_table : Ptr → ℕ → Ptr → Heap → Paging → Paging
with_table dir i table heap s = record s {
  heap = heap;
  directories = update s.directories dir (record (s.directories dir) {
    tables = update (s.directories dir).tables i table;
    tables_physical = update (s.directories dir).tables_physical i (bit_or table 0x7);
  });
  pages = update s.pages table (λ k. no_page);
}

unfoldable pub enter_table : Ptr → ℕ → ℕ → Paging → Outcome → Result PagePtr
enter_table dir i j s (returns table heap) =
    finished (some (table, j)) (with_table dir i table heap s)
enter_table dir i j s panics = panicked heap_exhausted
enter_table dir i j s hangs = unfinished

-- `mm_get_page`, with the rounds that the heap may take.
unfoldable pub get_page : ℕ → ℕ → Bool → Ptr → Paging → Result PagePtr
unfolding enter_table
get_page fuel addr make dir s =
    let page = addr / page_size in
    let table = (s.directories dir).tables (page / 1024) in
    if not (table == null)
    then finished (some (table, page % 1024)) s
    else if make
    then enter_table dir (page / 1024) (page % 1024) s (kmalloc_ap fuel s.heap 4096)
    else finished none s

-- `mm_alloc_frame` of the page that `mm_get_page` returned, for the kernel and to be written.
unfoldable pub fill_page : PagePtr → Paging → Result (Unit {0})
fill_page none s = finished tt s
fill_page (some (table, j)) s = elim (alloc_frame s.frames (s.pages table j) true true) [
  | none ↦ panicked out_of_memory
  | some (page, frames) ↦
      finished tt
        (record s { frames = frames; pages = update s.pages table (update (s.pages table) j page) })
]

-- One round of either loop of `mm_init_paging`.
unfoldable pub map_page : ℕ → ℕ → Paging → Result (Unit {0})
unfolding get_page fill_page
map_page fuel addr s = get_page fuel addr true s.kernel_directory s >>= fill_page

-- The first loop, from `i` on; its bound is read again before every round.
unfoldable pub map_used : ℕ → ℕ → ℕ → ℕ → Paging → Result (Unit {0})
unfolding map_page
map_used fuel zero i addr s = unfinished
map_used fuel (suc rounds) i addr s = elim (ltb i s.frames.used_blocks) [
  | true ↦
      map_page fuel addr s
      >>= (λ u s'. map_used fuel rounds (i + 1) ((addr + page_size) % 2 ^ 32) s')
  | false ↦ finished tt s
]

-- The second loop, with `n` rounds left.
unfoldable pub map_heap : ℕ → ℕ → ℕ → Paging → Result (Unit {0})
unfolding map_page
map_heap fuel zero addr s = finished tt s
map_heap fuel (suc n) addr s =
    map_page fuel addr s >>= (λ u s'. map_heap fuel n (addr + page_size) s')

-- `mm_switch_page_directory`
unfoldable pub switch_page_directory : Ptr → Paging → Paging
switch_page_directory dir s = record s {
  current_directory = dir;
  cr3 = (s.directories dir).physical_addr;
  cr0 = bit_or s.cr0 0x80000000;
}

-- `sizeof(page_directory_t)`
abbrev pub directory_size : ℕ
directory_size = 1024 * 4 + 1024 * 4 + 4

-- The cleared directory at `dir`, whose physical address is that of the array `tables_physical`.
abbrev pub blank_directory : Ptr → Directory
blank_directory dir = record {
  tables = λ i. null;
  tables_physical = λ i. 0;
  physical_addr = (dir + 1024 * 4) % 2 ^ 32;
}

abbrev pub with_directory : Ptr → Heap → Paging → Paging
with_directory dir heap s = record s {
  heap = heap;
  kernel_directory = dir;
  directories = update s.directories dir (blank_directory dir);
}

-- What follows the first loop of `mm_init_paging`.
unfoldable pub after_used : ℕ → Result (Unit {0}) → Result (Unit {0})
unfolding map_heap switch_page_directory
after_used fuel used =
    used >>= (λ u s. map_heap fuel (kernel_heap_size / page_size) kernel_heap_start s) >>= (λ u s.
      finished tt (
        switch_page_directory s.kernel_directory
          (record s { interrupts = register_handler 14 0 s.interrupts })))

unfoldable pub map_all : ℕ → ℕ → Paging → Result (Unit {0})
unfolding map_used after_used
map_all fuel rounds s = after_used fuel (map_used fuel rounds 0 0 s)

-- What follows the allocation of the directory.
unfoldable pub after_directory_made : ℕ → ℕ → Paging → Outcome → Result (Unit {0})
unfolding map_all
after_directory_made fuel rounds s (returns dir heap) =
    map_all fuel rounds (with_directory dir heap s)
after_directory_made fuel rounds s panics = panicked heap_exhausted
after_directory_made fuel rounds s hangs = unfinished

-- `mm_init_paging`, with the rounds that the heap and the first loop may take.
unfoldable pub init_paging : ℕ → ℕ → Paging → Result (Unit {0})
unfolding after_directory_made
init_paging fuel rounds s =
    after_directory_made fuel rounds s (kmalloc_a fuel s.heap directory_size)
