-- ===== src/Mm/Paging/Clone/Shares.antt =====
-- `mm_clone_directory` of kernel/mm.c: what the new directory has in common with the current one.
use vaelen.Prelude.{
  ==_same, ==_differ, ℕ, zero, suc, ◌+◌, ◌*◌, ◌%◌, ◌^◌, ◌≡◌, ◌≢◌, refl, ap, sym, subst, ◌∙◌, Bool,
  false, ◌==◌, if◌then◌else◌, Option, some, [], ◌∷◌, ◌++◌, ℕ_discrete,
}
use vaelen.Mm.Frames.{Page, Frames, page_size, alloc_frame}
use vaelen.Mm.Heap.{Ptr, null, Heap, Outcome, returns, kmalloc_ap}
use vaelen.Mm.Paging.{Paging, Result, finished, panicked, unfinished, ◌>>=◌}
use vaelen.Mm.Paging.Clone.{
  Copies, set_page, with_frame, after_frame, clone_page, clone_pages, with_copy, after_table,
  current_table, in_directory, set_table, clone_entry,
}
use vaelen.Mm.Paging.Clone.Pages.{set_page-table, set_page-here, set_page-own, set_page-back}

-- Every page that was copied was copied onto itself.
abbrev pub AllOwn : Copies → Type 0
AllOwn [] = Unit {0}
AllOwn ((to, from) ∷ copies) = (to ≡ from) × AllOwn copies

AllOwn-++ : (xs ys : Copies) → AllOwn xs → AllOwn ys → AllOwn (xs ++ ys)
AllOwn-++ [] ys own own' = own'
AllOwn-++ ((to, from) ∷ xs) ys (e, own) own' = (e, AllOwn-++ xs ys own own')

-- The same state, page by page.
abbrev pub Same : Paging → Paging → Type 0
Same s s' =
    (record s' { pages = s.pages } ≡ s)
    × ((table : Ptr) (j : ℕ) → s'.pages table j ≡ s.pages table j)

-- A call that returns in the same state, all its copies onto themselves.
abbrev pub Leaves : Paging → Result Copies → Type 0
Leaves s (finished copies s') = AllOwn copies × Same s s'
Leaves s (panicked message) = ⊥
Leaves s unfinished = ⊥

alloc_frame-kept :
    (frames : Frames) (page : Page) (is_kernel is_writeable : Bool)
    → page.frame ≢ 0
    → alloc_frame frames page is_kernel is_writeable ≡ some (page, frames)
unfolding alloc_frame
alloc_frame-kept frames page is_kernel is_writeable given = rw (==_differ page.frame 0 given) refl

-- What a round of the inner loop leaves, for a page that has a frame and its copy.
module _ (table old j : ℕ) (s : Paging) where
  cleared : Paging
  cleared = set_page old j (with_frame 0 (s.pages old j)) s

  filled : Paging
  unfolding cleared
  filled = set_page table j (cleared.pages table j) cleared

  filled-same : (q k : ℕ) → filled.pages q k ≡ cleared.pages q k
  unfolding filled
  filled-same = set_page-own table j (cleared.pages table j) cleared refl

  copied : table ≢ old → s.pages table j ≡ s.pages old j → cleared.pages table j ≡ s.pages old j
  unfolding cleared
  copied apart same =
      set_page-table old j table j (with_frame 0 (s.pages old j)) s (λ e. apart (sym e)) ∙ same

  after_frame-Leaves :
      (copies : Copies)
      → table ≢ old
      → s.pages table j ≡ s.pages old j
      → AllOwn copies
      → Leaves s (
          after_frame table old j
            (s.pages old j).frame
            copies
            cleared
            (some (cleared.pages table j, cleared.frames)))
  unfolding after_frame filled cleared
  after_frame-Leaves copies apart same own = (
    AllOwn-++ copies _ own (
      ap (λ (p : Page). p.frame * page_size % 2 ^ 32) (filled-same table j ∙ copied apart same),
      tt,
    ),
    (
      refl,
      set_page-back old j (with_frame 0 (s.pages old j)) _ s filled filled-same
          (ap (with_frame (s.pages old j).frame) (filled-same old j ∙ set_page-here old j _ s)),
    ),
  )

  clone_page-Leaves :
      (copies : Copies)
      → table ≢ old
      → s.pages table j ≡ s.pages old j
      → AllOwn copies
      → Leaves s (clone_page table old j copies s)
  unfolding clone_page cleared
  clone_page-Leaves copies apart same own = elim (ℕ_discrete (s.pages old j).frame 0) [
    | yes empty ↦ rw (==_same _ _ empty) (own, (refl, λ q k. refl))
    | no given ↦ rw (==_differ _ _ given) (
        subst
          (λ (o : Option (Page × Frames)).
            Leaves s (after_frame table old j (s.pages old j).frame copies cleared o))
          (sym (
            alloc_frame-kept cleared.frames (cleared.pages table j) false _
              (λ e. given (ap (λ (p : Page). p.frame) (sym (copied apart same)) ∙ e))))
          (after_frame-Leaves copies apart same own))
  ]

Same-trans : (s s' s'' : Paging) → Same s s' → Same s' s'' → Same s s''
Same-trans s s' s'' (e, pages) (e', pages') =
    (ap (λ (t : Paging). record t { pages = s.pages }) e' ∙ e, λ q k. pages' q k ∙ pages q k)

Leaves-bind :
    (s : Paging) (r : Result Copies) (f : Copies → Paging → Result Copies)
    → Leaves s r
    → ((copies : Copies) (s' : Paging) → AllOwn copies → Same s s' → Leaves s' (f copies s'))
    → Leaves s (r >>= f)
Leaves-bind s (finished copies s') f (own, same) next =
    further (f copies s') (next copies s' own same)
  where
    further : (r : Result Copies) → Leaves s' r → Leaves s r
    further (finished copies' s'') (own', same') = (own', Same-trans s s' s'' same same')
    further (panicked message) never = elim never [ ]
    further unfinished never = elim never [ ]
Leaves-bind s (panicked message) f never next = elim never [ ]
Leaves-bind s unfinished f never next = elim never [ ]

clone_pages-Leaves :
    (n j : ℕ) (table old : Ptr) (copies : Copies) (s : Paging)
    → table ≢ old
    → ((k : ℕ) → s.pages table k ≡ s.pages old k)
    → AllOwn copies
    → Leaves s (clone_pages n j table old copies s)
unfolding clone_pages
clone_pages-Leaves zero j table old copies s apart same own = (own, (refl, λ q k. refl))
clone_pages-Leaves (suc n) j table old copies s apart same own =
    Leaves-bind s (clone_page table old j copies s) (clone_pages n (j + 1) table old)
      (clone_page-Leaves table old j s copies apart (same j) own)
      (λ copies' s' own' kept.
        clone_pages-Leaves n (j + 1) table old copies' s' apart
          (λ k. kept.1 table k ∙ same k ∙ sym (kept.1 old k)) own')

-- A result for table `i` of the directory at `dir`, whose copy is at `table`: every page of the copy
-- is that of the current table, so has its frame; no frame was taken, and no other page changed.
abbrev pub Cloned : Ptr → ℕ → Ptr → Paging → Result Copies → Type 0
Cloned dir i table s (finished copies s') =
    AllOwn copies
    × (s'.frames ≡ s.frames)
    × ((s'.directories dir).tables i ≡ table)
    × ((t : Ptr) (j : ℕ)
        → s'.pages t j ≡ (if table == t then s.pages (current_table i s) else s.pages t) j)
Cloned dir i table s (panicked message) = ⊥
Cloned dir i table s unfinished = ⊥

Cloned-bind :
    (dir i table : ℕ) (heap : Heap) (s : Paging) (r : Result Copies)
    → Leaves (with_copy dir i table heap s) r
    → Cloned dir i table s
        (r >>= (λ copies s'. finished copies (in_directory dir (set_table i table) s')))
Cloned-bind dir i table heap s (finished copies s') (own, (rest, pages)) = (
  own,
  ap (λ (t : Paging). t.frames) rest,
  rw (==_same dir dir refl) rw (==_same i i refl) refl,
  pages,
)
Cloned-bind dir i table heap s (panicked message) never = elim never [ ]
Cloned-bind dir i table heap s unfinished never = elim never [ ]

-- A table that the current directory does not share with the kernel's is copied in full, and no
-- frame is taken for it: every page of the copy has the frame of its original, and the pages that
-- are copied are copied onto themselves. `kmalloc_ap` has returned room that is not the original.
pub clone_entry-Cloned :
    (fuel : ℕ) (dir : Ptr) (i : ℕ) (s : Paging) (table : Ptr) (heap : Heap)
    → (s.directories s.kernel_directory).tables i ≢ null
    → (s.directories s.kernel_directory).tables i ≢ current_table i s
    → kmalloc_ap fuel s.heap 4096 ≡ returns table heap
    → table ≢ current_table i s
    → Cloned dir i table s (clone_entry fuel dir i [] s)
unfolding clone_entry after_table
clone_entry-Cloned fuel dir i s table heap there unshared out apart =
    rw (==_differ _ _ there) rw (==_differ _ _ unshared) (
      subst (λ (o : Outcome). Cloned dir i table s (after_table dir i [] s o)) (sym out)
        (Cloned-bind dir i table heap s _ (
          clone_pages-Leaves 1024 0 table (current_table i s) [] (with_copy dir i table heap s)
            apart (λ k. rw (==_same table table refl) rw (==_differ _ _ apart) refl) tt)))
