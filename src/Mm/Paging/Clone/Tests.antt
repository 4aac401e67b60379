-- ===== src/Mm/Paging/Clone/Tests.antt =====
-- A directory that is cloned while it is the current one, and a table of another current directory.
use vaelen.Prelude.{◌≡◌, refl, [], arith, ◌==◌, ◌&&◌, if◌then◌else◌}
use vaelen.Mm.Heap.{
  Heap, Outcome, returns, panics, hangs, kmalloc_ap, serve, set_up, find_hole, carve, split, null,
}
use vaelen.Mm.Paging.{Paging, finished, directory_size, no_page}
use vaelen.Mm.Paging.Tests.{mapped}
use vaelen.Mm.Paging.Clone.{clone_directory, clone_entry}
use vaelen.Mm.Paging.Clone.Tables.{put, first_tables}
use vaelen.Mm.Paging.Clone.Whole.{clone_directory-shared}
use vaelen.Mm.Paging.Clone.Shares.{Cloned, clone_entry-Cloned}

abbrev heap_of : Outcome → Heap
heap_of (returns p h) = h
heap_of panics = mapped.heap
heap_of hangs = mapped.heap

abbrev heap₁ : Heap
heap₁ = heap_of (kmalloc_ap 9 mapped.heap directory_size)

directory_served : kmalloc_ap 9 mapped.heap directory_size ≡ returns 0xD0000010 heap₁
unfolding kmalloc_ap serve set_up find_hole carve split
directory_served = refl

clone_directory-shared_example :
    clone_directory 9 (λ dir s. s) mapped
    ≡ finished
        (0xD0000010, [])
        (put 0xD0000010
          (first_tables 1024 (mapped.directories 5000))
          (record mapped { heap = heap₁ }))
clone_directory-shared_example =
    clone_directory-shared 9 (λ dir s. s) mapped 0xD0000010 heap₁ directory_served refl
      (omega arith) refl

-- The current directory, at 6000, has a table of its own at 12288, whose page 2 has frame 77.
abbrev parted : Paging
parted = record mapped {
  current_directory = 6000;
  directories = λ p. record {
    tables = λ k. if p == 5000 && k == 3 then 8192 else if p == 6000 && k == 3 then 12288 else null;
    tables_physical = λ k. 0;
    physical_addr = 0;
  };
  pages = λ t j.
      if t == 12288 && j == 2 then record no_page { present = 1; rw = 1; frame = 77 } else no_page;
}

abbrev heap₂ : Heap
heap₂ = heap_of (kmalloc_ap 9 parted.heap 4096)

table_served : kmalloc_ap 9 parted.heap 4096 ≡ returns 0xD0000010 heap₂
unfolding kmalloc_ap serve set_up find_hole carve split
table_served = refl

clone_entry-Cloned_example : Cloned 7000 3 0xD0000010 parted (clone_entry 9 7000 3 [] parted)
clone_entry-Cloned_example =
    clone_entry-Cloned 9 7000 3 parted 0xD0000010 heap₂ (omega arith) (omega arith) table_served
      (omega arith)
