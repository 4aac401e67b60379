-- ===== src/Mm/Paging/Clone/Pages.antt =====
-- Pages that `mm_clone_directory` of kernel/mm.c writes and restores.
use vaelen.Prelude.{==_same, ==_differ, ℕ, ◌≡◌, ◌≢◌, refl, subst, ◌∙◌, ℕ_discrete}
use vaelen.Mm.Frames.{Page}
use vaelen.Mm.Paging.{Paging}
use vaelen.Mm.Paging.Clone.{set_page}

-- A page of another table, or of another number.
pub set_page-table :
    (t j q k : ℕ) (p : Page) (s : Paging) → t ≢ q → (set_page t j p s).pages q k ≡ s.pages q k
set_page-table t j q k p s apart = rw (==_differ t q apart) refl

set_page-number :
    (t j k : ℕ) (p : Page) (s : Paging) → j ≢ k → (set_page t j p s).pages t k ≡ s.pages t k
set_page-number t j k p s apart = rw (==_same t t refl) rw (==_differ j k apart) refl

pub set_page-here : (t j : ℕ) (p : Page) (s : Paging) → (set_page t j p s).pages t j ≡ p
set_page-here t j p s = rw (==_same t t refl) rw (==_same j j refl) refl

-- The page that was written gets back what it held, and the others held what they do.
set_page-restored :
    (t j : ℕ) (p : Page) (s f : Paging)
    → ((q k : ℕ) → t ≢ q → f.pages q k ≡ s.pages q k)
    → ((k : ℕ) → j ≢ k → f.pages t k ≡ s.pages t k)
    → p ≡ s.pages t j
    → (q k : ℕ) → (set_page t j p f).pages q k ≡ s.pages q k
set_page-restored t j p s f tables numbers e q k = elim (ℕ_discrete t q) [
  | yes same ↦ subst (λ t'. (set_page t j p f).pages t' k ≡ s.pages t' k) same (at_number k)
  | no apart ↦ set_page-table t j q k p f apart ∙ tables q k apart
]
  where
    at_number : (k : ℕ) → (set_page t j p f).pages t k ≡ s.pages t k
    at_number k = elim (ℕ_discrete j k) [
      | yes same ↦
          subst (λ j'. (set_page t j p f).pages t j' ≡ s.pages t j') same
            (set_page-here t j p f ∙ e)
      | no apart ↦ set_page-number t j k p f apart ∙ numbers k apart
    ]

pub set_page-own :
    (t j : ℕ) (p : Page) (s : Paging)
    → p ≡ s.pages t j
    → (q k : ℕ) → (set_page t j p s).pages q k ≡ s.pages q k
set_page-own t j p s = set_page-restored t j p s s (λ q k apart. refl) (λ k apart. refl)

pub set_page-back :
    (t j : ℕ) (p p' : Page) (s f : Paging)
    → ((q k : ℕ) → f.pages q k ≡ (set_page t j p s).pages q k)
    → p' ≡ s.pages t j
    → (q k : ℕ) → (set_page t j p' f).pages q k ≡ s.pages q k
set_page-back t j p p' s f from =
    set_page-restored t j p' s f (λ q k apart. from q k ∙ set_page-table t j q k p s apart)
      (λ k apart. from t k ∙ set_page-number t j k p s apart)
