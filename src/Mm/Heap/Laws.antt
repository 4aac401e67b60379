-- ===== src/Mm/Heap/Laws.antt =====
-- What first fit and release do to the list of chunks: who owns which bytes, and round trips.
use vaelen.Prelude.{
  ℕ, ◌+◌, ◌-◌, ◌≤◌, ◌≡◌, refl, ap, ◌∙◌, inl, inr, Bool, true, false, ◌&&◌, [], ◌∷◌, arith, dec_lt,
  Option, none, some, Bool-cases,
}
use vaelen.Mm.Heap.{Ptr, header}
use vaelen.Mm.Heap.Tiles.{Chunk, Chunks, chunk, after}
use vaelen.Mm.Heap.Spec.{
  fits, take_chunk, take_chunk-split, take_chunk-whole, alloc, in_front, freed, settle, settle-hole,
  rejoin, release_after, release, release_after-here, release_after-later, release-later,
}

-- First fit as a relation: the chunks `cs` from `at` on become `ds`, and the bytes are at `p`.
pub data Allocates (n : ℕ) : ℕ → Chunks → Ptr → Chunks → Type 0 where
  here :
      {at : ℕ} {c : Chunk} {cs : Chunks} {p : Ptr} {ds : Chunks}
      → c.free ≡ true
      → n + header ≤ c.size
      → p ≡ at + header
      → ds ≡ take_chunk n c cs
      → Allocates n at (c ∷ cs) p ds
  there :
      {at : ℕ} {c : Chunk} {cs : Chunks} {p : Ptr} {ds es : Chunks}
      → Allocates n (after at c) cs p ds
      → es ≡ c ∷ ds
      → Allocates n at (c ∷ cs) p es

pub alloc-Allocates :
    (n at : ℕ) (cs : Chunks) (p : Ptr) (ds : Chunks)
    → alloc n at cs ≡ some (p, ds)
    → Allocates n at cs p ds
unfolding alloc
alloc-Allocates n at [] p ds e = cc
alloc-Allocates n at (c ∷ cs) p ds e = elim (Bool-cases (fits n c)) [
  | inl fit ↦
      let e' = rw fit at e in here (ground arith) (ground arith) (ground arith) (ground arith)
  | inr unfit ↦ later (alloc n (after at c) cs) (alloc-Allocates n (after at c) cs) (rw unfit at e)
]
  where
    later :
        (o : Option (Ptr × Chunks))
        → ((p : Ptr) (ds : Chunks) → o ≡ some (p, ds) → Allocates n (after at c) cs p ds)
        → in_front c o ≡ some (p, ds)
        → Allocates n at (c ∷ cs) p ds
    later none ih h = cc
    later (some (q, es)) ih h = there (ih p es (cc)) (cc)

-- No two free chunks touch; `f` says whether the chunk in front is free.
abbrev pub IsCoalesced : Bool → Chunks → Type 0
IsCoalesced f [] = Unit
IsCoalesced f (c ∷ cs) = (f && c.free ≡ false) × IsCoalesced c.free cs

settle-freed :
    (c : Chunk) (cs : Chunks) → c.free ≡ true → IsCoalesced c.free cs → settle (freed c) cs ≡ c ∷ cs
unfolding settle
settle-freed c [] f ok = ground arith
settle-freed c (d ∷ ds) f ok = ground arith

-- Where first fit took a chunk, releasing it gives the hole back.
release-take_chunk :
    (n at : ℕ) (c : Chunk) (cs : Chunks)
    → c.free ≡ true
    → n + header ≤ c.size
    → IsCoalesced c.free cs
    → release at at (take_chunk n c cs) ≡ c ∷ cs
unfolding release take_chunk
release-take_chunk n at c cs f room ok = ground (
  arith,
  settle-hole (chunk n true) (chunk (c.size - n - header) true) cs,
  settle-freed c cs f ok,
)

rejoin-take_chunk :
    (n : ℕ) (b c : Chunk) (cs ds : Chunks) (d : Chunk)
    → c.free ≡ true
    → n + header ≤ c.size
    → (b.free && c.free) ≡ false
    → IsCoalesced c.free cs
    → take_chunk n c cs ≡ d ∷ ds
    → rejoin b d ds ≡ b ∷ c ∷ cs
unfolding take_chunk rejoin
rejoin-take_chunk n b c cs ds d f room apart ok e = ground (
  arith,
  settle-hole (chunk n true) (chunk (c.size - n - header) true) cs,
  settle-freed c cs f ok,
)

pub take_chunk-cons :
    (n : ℕ) (c : Chunk) (cs : Chunks) → (d : Chunk) × (ds : Chunks) × (take_chunk n c cs ≡ d ∷ ds)
take_chunk-cons n c cs = elim (dec_lt c.size (n + header + 8)) [
  | yes tight ↦ (chunk c.size false, cs, take_chunk-whole n c cs tight)
  | no room ↦
      (chunk n false, chunk (c.size - n - header) true ∷ cs, take_chunk-split n c cs (omega arith))
]

pub Allocates-le : {n at : ℕ} {cs ds : Chunks} {p : Ptr} → Allocates n at cs p ds → at + header ≤ p
Allocates-le (here f room e e') = omega arith
Allocates-le (there a e) = omega (arith, Allocates-le a)

release_after-Allocates :
    {n at : ℕ} {cs ds : Chunks} {p : Ptr} (from : ℕ) (b : Chunk)
    → Allocates n at cs p ds
    → at ≡ after from b
    → IsCoalesced b.free cs
    → release_after (p - header) from b ds ≡ b ∷ cs
release_after-Allocates {p} from b (here {c} {cs} f room e e') ea ok =
    let (d, ds', et) = take_chunk-cons _ c cs in
    rw (e' ∙ et) (
      release_after-here (p - header) from b d ds' (omega arith)
      ∙ rejoin-take_chunk _ b c cs ds' d f room ok.0 ok.1 et)
release_after-Allocates {p} from b (there {c} {cs} {ds} a e) ea ok = rw e (
    release_after-later (p - header) from b c ds (omega (arith, Allocates-le a))
    ∙ ap (◌∷◌ b) (release_after-Allocates (after from b) c a (omega arith) ok.1))

release-Allocates :
    {n at : ℕ} {cs ds : Chunks} {p : Ptr}
    → Allocates n at cs p ds
    → IsCoalesced false cs
    → release (p - header) at ds ≡ cs
release-Allocates {at} {p} (here {c} {cs} f room e e') ok =
    let ep : p - header ≡ at = omega arith in rw (e', ep) (release-take_chunk _ at c cs f room ok.1)
release-Allocates {at} {p} (there {c} {cs} {ds} a e) ok = rw e (
    release-later (p - header) at c ds (omega (arith, Allocates-le a))
    ∙ release_after-Allocates at c a refl ok.1)

-- Releasing what first fit has just taken restores a list without adjacent free chunks.
pub release-alloc :
    (n at : ℕ) (cs : Chunks) (p : Ptr) (ds : Chunks)
    → IsCoalesced false cs
    → alloc n at cs ≡ some (p, ds)
    → release (p - header) at ds ≡ cs
release-alloc n at cs p ds ok e = release-Allocates (alloc-Allocates n at cs p ds e) ok
