-- ===== src/Mm/Paging/Tests.antt =====
-- The end of `mm_init_paging` at a concrete state, and a page that is looked up.
use vaelen.Prelude.{◌≡◌, refl, false, [], some, ◌==◌, ◌&&◌, if◌then◌else◌}
use vaelen.Mm.Frames.{init, kernel_heap_start}
use vaelen.Mm.Heap.{block, null}
use vaelen.Mm.Paging.{Paging, finished, get_page, no_page, with_table}
use vaelen.Mm.Paging.Boot.{mem_size}

-- The static variables when `mm_init` has been called, with all words of the bitmap clear.
abbrev pub booting : Paging
booting = record {
  heap = record {
    heap_start = null;
    heap_end = null;
    heap_placement = kernel_heap_start;
    cells = λ a. block 0 0 0 false;
  };
  frames = init mem_size (λ i. 0);
  kernel_directory = null;
  current_directory = null;
  directories = λ p. record { tables = λ i. null; tables_physical = λ i. 0; physical_addr = 0 };
  pages = λ p j. no_page;
  interrupts = record { isr_handlers = λ n. 0; ports = [] };
  cr0 = 0;
  cr3 = 0;
}

-- A kernel directory at 5000 with a table at 8192 for the fourth 4 MB; it is the current one.
abbrev pub mapped : Paging
mapped = record booting {
  kernel_directory = 5000;
  current_directory = 5000;
  directories = λ p. record {
    tables = λ k. if p == 5000 && k == 3 then 8192 else null;
    tables_physical = λ k. if p == 5000 && k == 3 then 8199 else 0;
    physical_addr = 9096;
  };
}

-- The page at 4 MB + 12 KB of a directory with a table at 8192 for the second 4 MB.
found_page :
    get_page 0 0x403000 false 100 (with_table 100 1 8192 booting.heap booting)
    ≡ finished (some (8192, 3)) (with_table 100 1 8192 booting.heap booting)
unfolding get_page
found_page = refl
