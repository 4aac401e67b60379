-- ===== src/Mm/Paging/Clone/Tables.antt =====
-- The tables of a directory that `mm_clone_directory` of kernel/mm.c has gone through.
use mathlib.Core.Path.{fun_ext}
use vaelen.Prelude.{
  ==_same, ==_differ, ℕ, suc, ◌≡◌, ◌≢◌, refl, ap, subst, true, false, not, ◌==◌, ◌&&◌, ltb,
  if◌then◌else◌, update, arith, ℕ_discrete,
}
use vaelen.Mm.Heap.{Ptr, null}
use vaelen.Mm.Paging.{Directory, Paging}
use vaelen.Mm.Paging.Clone.{in_directory, set_table, set_physical, zero_directory}

-- The directory at `dir` is `d`.
abbrev pub put : Ptr → Directory → Paging → Paging
put dir d s = record s { directories = update s.directories dir d }

-- The first `i` tables of `d`, with the addresses of those that are there.
abbrev pub first_tables : ℕ → Directory → Directory
first_tables i d = record {
  tables = λ k. if ltb k i then d.tables k else null;
  tables_physical = λ k. if ltb k i && not (d.tables k == null) then d.tables_physical k else 0;
  physical_addr = 0;
}

pub in_directory-put :
    (dir : Ptr) (f : Directory → Directory) (d : Directory) (s : Paging)
    → in_directory dir f (put dir d s) ≡ put dir (f d) s
in_directory-put dir f d s =
    ap (λ (ds : Ptr → Directory). record s { directories = ds }) (fun_ext at)
  where
    at :
        (q : Ptr)
        → (in_directory dir f (put dir d s)).directories q ≡ (put dir (f d) s).directories q
    at q = elim (ℕ_discrete dir q) [
      | yes same ↦ rw (==_same dir q same) rw (==_same dir dir refl) refl
      | no apart ↦ rw (==_differ dir q apart) refl
    ]

Directory-ext :
    (d d' : Directory)
    → ((k : ℕ) → d.tables k ≡ d'.tables k)
    → ((k : ℕ) → d.tables_physical k ≡ d'.tables_physical k)
    → d.physical_addr ≡ d'.physical_addr
    → d ≡ d'
Directory-ext d d' tables physical address = λ i. record {
  tables = λ k. tables k i;
  tables_physical = λ k. physical k i;
  physical_addr = address i;
}

ltb_itself : (n : ℕ) → ltb n n ≡ false
ltb_itself n = ground arith

ltb_next : (n : ℕ) → ltb n (suc n) ≡ true
ltb_next n = ground arith

ltb_other : (n k : ℕ) → n ≢ k → ltb k n ≡ ltb k (suc n)
ltb_other n k apart = ground arith

module _ (d : Directory) (i : ℕ) where
  -- Another table than number `i`.
  first_tables-apart :
      (k : ℕ)
      → i ≢ k
      → ((first_tables i d).tables k ≡ (first_tables (suc i) d).tables k)
        × ((first_tables i d).tables_physical k ≡ (first_tables (suc i) d).tables_physical k)
  first_tables-apart k apart = rw (ltb_other i k apart) (refl, refl)

  -- Without a table `i` there is nothing more to have.
  pub first_tables-none : d.tables i ≡ null → first_tables i d ≡ first_tables (suc i) d
  first_tables-none e =
      Directory-ext (first_tables i d) (first_tables (suc i) d) (λ k. (at k).0) (λ k. (at k).1) refl
    where
      at :
          (k : ℕ)
          → ((first_tables i d).tables k ≡ (first_tables (suc i) d).tables k)
            × ((first_tables i d).tables_physical k ≡ (first_tables (suc i) d).tables_physical k)
      at k = elim (ℕ_discrete i k) [
        | yes same ↦
            subst
              (λ k.
                ((first_tables i d).tables k ≡ (first_tables (suc i) d).tables k)
                × ((first_tables i d).tables_physical k
                    ≡ (first_tables (suc i) d).tables_physical k))
              same (rw (ltb_itself i) rw (ltb_next i) rw e (refl, refl))
        | no apart ↦ first_tables-apart k apart
      ]

  pub first_tables-some :
      d.tables i ≢ null
      → set_physical i (d.tables_physical i) (set_table i (d.tables i) (first_tables i d))
        ≡ first_tables (suc i) d
  first_tables-some there =
      Directory-ext more (first_tables (suc i) d) (λ k. (at k).0) (λ k. (at k).1) refl
    where
      more : Directory
      more = set_physical i (d.tables_physical i) (set_table i (d.tables i) (first_tables i d))

      at :
          (k : ℕ)
          → (more.tables k ≡ (first_tables (suc i) d).tables k)
            × (more.tables_physical k ≡ (first_tables (suc i) d).tables_physical k)
      at k = elim (ℕ_discrete i k) [
        | yes same ↦
            subst
              (λ k.
                (more.tables k ≡ (first_tables (suc i) d).tables k)
                × (more.tables_physical k ≡ (first_tables (suc i) d).tables_physical k))
              same (rw (==_same i i refl) rw (ltb_next i) rw (==_differ _ _ there) (refl, refl))
        | no apart ↦ rw (==_differ i k apart) (first_tables-apart k apart)
      ]

pub first_tables-zero : (d : Directory) → zero_directory ≡ first_tables 0 d
first_tables-zero d =
    Directory-ext zero_directory (first_tables 0 d) (λ k. rw (none_below k) refl)
      (λ k. rw (none_below k) refl) refl
  where
    none_below : (k : ℕ) → ltb k 0 ≡ false
    none_below k = ground arith
