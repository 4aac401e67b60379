-- ===== src/Mm/Paging/Clone/Whole.antt =====
-- `mm_clone_directory` of kernel/mm.c where the current directory is the kernel's.
use vaelen.Prelude.{
  ==_same, ==_differ, ℕ, zero, suc, ◌+◌, ◌≡◌, ◌≢◌, refl, ap, ◌∙◌, Bool, ◌==◌, if◌then◌else◌, [],
  arith, ℕ_discrete,
}
use vaelen.Mm.Heap.{Ptr, null, Heap, returns, kmalloc_ap}
use vaelen.Mm.Paging.{Directory, Paging, Result, finished, ◌>>=◌, directory_size}
use vaelen.Mm.Paging.Clone.{
  Copies, in_directory, set_table, set_physical, share, current_table, clone_entry, clone_entries,
  after_table, with_cleared, after_made, clone_directory,
}
use vaelen.Mm.Paging.Clone.Tables.{
  put, first_tables, in_directory-put, first_tables-zero, first_tables-none, first_tables-some,
}

module _ (fuel dir : ℕ) (s : Paging) (apart : dir ≢ s.kernel_directory)
    (current : s.current_directory ≡ s.kernel_directory) where
  kernel : Directory
  kernel = s.directories s.kernel_directory

  kernel_at : (d : Directory) → (put dir d s).directories s.kernel_directory ≡ kernel
  unfolding kernel
  kernel_at d = rw (==_differ dir s.kernel_directory apart) refl

  current_at : (d : Directory) (i : ℕ) → current_table i (put dir d s) ≡ kernel.tables i
  current_at d i =
      ap (λ (p : Ptr). ((put dir d s).directories p).tables i) current
      ∙ ap (λ (k : Directory). k.tables i) (kernel_at d)

  share-put :
      (d : Directory) (i : ℕ)
      → share dir i (put dir d s)
        ≡ put dir (set_physical i (kernel.tables_physical i) (set_table i (kernel.tables i) d)) s
  share-put d i =
      ap (λ (k : Directory). stored (in_directory dir (set_table i (k.tables i)) (put dir d s)))
        (kernel_at d)
      ∙ ap stored (in_directory-put dir (set_table i (kernel.tables i)) d s)
      ∙ ap
          (λ (k : Directory).
            in_directory dir (set_physical i (k.tables_physical i)) (put dir tabled s))
          (kernel_at tabled)
      ∙ in_directory-put dir (set_physical i (kernel.tables_physical i)) tabled s
    where
      tabled : Directory
      tabled = set_table i (kernel.tables i) d

      stored : Paging → Paging
      stored t =
          in_directory dir (set_physical i ((t.directories t.kernel_directory).tables_physical i)) t

  clone_entry-shared :
      (i : ℕ)
      → clone_entry fuel dir i [] (put dir (first_tables i kernel) s)
        ≡ finished [] (put dir (first_tables (suc i) kernel) s)
  unfolding clone_entry
  clone_entry-shared i =
      ap (λ (k : Directory). by_tables (k.tables i) (current_table i now)) (kernel_at _)
      ∙ ap (by_tables (kernel.tables i)) (current_at _ i)
      ∙ elim (ℕ_discrete (kernel.tables i) null) [
        | yes missing ↦
            ap (λ (b : Bool). if b then finished [] now else shared)
              (==_same (kernel.tables i) null missing)
            ∙ ap (λ (d : Directory). finished [] (put dir d s)) (first_tables-none kernel i missing)
        | no there ↦
            ap (λ (b : Bool). if b then finished [] now else shared)
              (==_differ (kernel.tables i) null there)
            ∙ ap (λ (b : Bool). if b then finished [] (share dir i now) else unshared)
                (==_same (kernel.tables i) (kernel.tables i) refl)
            ∙ ap (finished []) (share-put (first_tables i kernel) i)
            ∙ ap (λ (d : Directory). finished [] (put dir d s)) (first_tables-some kernel i there)
      ]
    where
      now : Paging
      now = put dir (first_tables i kernel) s

      unshared : Result Copies
      unshared = after_table dir i [] now (kmalloc_ap fuel now.heap 4096)

      by_tables : Ptr → Ptr → Result Copies
      by_tables mine current =
          if mine == null
          then finished [] now
          else if mine == current
          then finished [] (share dir i now)
          else unshared

      shared : Result Copies
      shared =
          if kernel.tables i == kernel.tables i then finished [] (share dir i now) else unshared

  clone_entries-shared :
      (n i : ℕ)
      → clone_entries fuel n dir i [] (put dir (first_tables i kernel) s)
        ≡ finished [] (put dir (first_tables (n + i) kernel) s)
  unfolding clone_entries
  clone_entries-shared zero i =
      ap (λ (k : ℕ). finished [] (put dir (first_tables k kernel) s)) (omega arith)
  clone_entries-shared (suc n) i =
      ap (λ (r : Result Copies). r >>= clone_entries fuel n dir (i + 1)) (clone_entry-shared i)
      ∙ ap (λ (k : ℕ). clone_entries fuel n dir k [] (put dir (first_tables (suc i) kernel) s))
          {x = i + 1} {y = suc i} (omega arith)
      ∙ clone_entries-shared n (suc i)
      ∙ ap (λ (k : ℕ). finished [] (put dir (first_tables k kernel) s)) (omega arith)

-- While the kernel's directory is the current one, `mm_clone_directory` copies no page and takes no
-- frame: the new directory has all tables of the kernel's, so whatever is mapped in one is mapped
-- in the other, and its physical address is 0, whatever `kmalloc_ap` has stored. The memory for it is
-- not the kernel's directory, and the write through the pointer that is not set hits nothing that
-- counts.
pub clone_directory-shared :
    (fuel : ℕ) (scribble : Ptr → Paging → Paging) (s : Paging) (dir : Ptr) (heap : Heap)
    → kmalloc_ap fuel s.heap directory_size ≡ returns dir heap
    → scribble dir (record s { heap = heap }) ≡ record s { heap = heap }
    → dir ≢ s.kernel_directory
    → s.current_directory ≡ s.kernel_directory
    → clone_directory fuel scribble s
      ≡ finished
          (dir, [])
          (put dir
            (first_tables 1024 (s.directories s.kernel_directory))
            (record s { heap = heap }))
unfolding clone_directory after_made kernel
clone_directory-shared fuel scribble s dir heap out missed apart current =
    ap (after_made fuel scribble s) out
    ∙ ap (λ (t : Paging). from_cleared (with_cleared dir t)) missed
    ∙ ap (λ (d : Directory). from_cleared (put dir d made))
        (first_tables-zero (s.directories s.kernel_directory))
    ∙ ap (λ (r : Result Copies). with_address r)
        (clone_entries-shared fuel dir made apart current 1024 0)
  where
    made : Paging
    made = record s { heap = heap }

    with_address : Result Copies → Result (Ptr × Copies)
    with_address r = r >>= (λ copies t. finished (dir, copies) t)

    from_cleared : Paging → Result (Ptr × Copies)
    from_cleared t = with_address (clone_entries fuel 1024 dir 0 [] t)
