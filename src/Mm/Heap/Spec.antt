-- ===== src/Mm/Heap/Spec.antt =====
-- What `kmalloc_ap` and `kfree` of kernel/mm.c promise, on the list of chunks.
use vaelen.Prelude.{
  ℕ, ◌+◌, ◌-◌, ◌≤◌, ◌<◌, ◌≡◌, ◌≢◌, ◌⊎◌, Bool, true, false, ◌&&◌, Option, arith, refl, none, some,
  [], ◌∷◌, ◌==◌, leb, if◌then◌else◌,
}
use vaelen.Mm.Heap.{Ptr, header}
use vaelen.Mm.Heap.Tiles.{Chunk, Chunks, chunk, after}

abbrev pub fits : ℕ → Chunk → Bool
fits n c = c.free && leb (n + header) c.size

-- A hole that is used: the rest is a chunk of its own when it holds 8 bytes.
unfoldable pub take_chunk : ℕ → Chunk → Chunks → Chunks
take_chunk n c cs =
    if leb (n + header + 8) c.size
    then chunk n false ∷ chunk (c.size - n - header) true ∷ cs
    else chunk c.size false ∷ cs

abbrev pub in_front : Chunk → Option (Ptr × Chunks) → Option (Ptr × Chunks)
in_front c none = none
in_front c (some (p, ds)) = some (p, c ∷ ds)

-- First fit from the chunk at `at` on: the address of the bytes, and the chunks afterwards.
unfoldable pub alloc : ℕ → ℕ → Chunks → Option (Ptr × Chunks)
unfolding take_chunk
alloc n at [] = none
alloc n at (c ∷ cs) =
    if fits n c then some (at + header, take_chunk n c cs) else in_front c (alloc n (after at c) cs)

abbrev pub freed : Chunk → Chunk
freed c = chunk c.size true

abbrev pub joined : Chunk → Chunk → Chunk
joined c d = chunk (c.size + header + d.size) true

-- A free chunk takes a free chunk behind it in.
unfoldable pub settle : Chunk → Chunks → Chunks
settle c [] = c ∷ []
settle c (d ∷ ds) = if d.free then joined c d ∷ ds else c ∷ d ∷ ds

-- The second of two chunks becomes free and joins its free neighbours.
unfoldable pub rejoin : Chunk → Chunk → Chunks → Chunks
unfolding settle
rejoin c d ds = if c.free then settle (joined c d) ds else c ∷ settle (freed d) ds

-- The chunk at `p`, not the first, becomes free.
unfoldable pub release_after : Ptr → ℕ → Chunk → Chunks → Chunks
unfolding rejoin
release_after p at c [] = c ∷ []
release_after p at c (d ∷ ds) =
    if after at c == p then rejoin c d ds else c ∷ release_after p (after at c) d ds

unfoldable pub release : Ptr → ℕ → Chunks → Chunks
unfolding release_after settle
release p at [] = []
release p at (c ∷ cs) = if at == p then settle (freed c) cs else release_after p at c cs

-- A chunk starts at `p`.
abbrev pub Starts : Ptr → ℕ → Chunks → Type 0
Starts p at [] = ⊥
Starts p at (c ∷ cs) = (at ≡ p) ⊎ Starts p (after at c) cs

pub settle-nil : (c : Chunk) → settle c [] ≡ c ∷ []
unfolding settle
settle-nil c = refl

pub settle-used : (c d : Chunk) (ds : Chunks) → d.free ≡ false → settle c (d ∷ ds) ≡ c ∷ d ∷ ds
unfolding settle
settle-used c d ds e = ground arith

pub settle-hole : (c d : Chunk) (ds : Chunks) → d.free ≡ true → settle c (d ∷ ds) ≡ joined c d ∷ ds
unfolding settle
settle-hole c d ds e = ground arith

pub rejoin-used :
    (c d : Chunk) (ds : Chunks) → c.free ≡ false → rejoin c d ds ≡ c ∷ settle (freed d) ds
unfolding rejoin
rejoin-used c d ds e = ground arith

pub rejoin-hole :
    (c d : Chunk) (ds : Chunks) → c.free ≡ true → rejoin c d ds ≡ settle (joined c d) ds
unfolding rejoin
rejoin-hole c d ds e = ground arith

pub take_chunk-split :
    (n : ℕ) (c : Chunk) (cs : Chunks)
    → n + header + 8 ≤ c.size
    → take_chunk n c cs ≡ chunk n false ∷ chunk (c.size - n - header) true ∷ cs
unfolding take_chunk
take_chunk-split n c cs room = ground arith

pub take_chunk-whole :
    (n : ℕ) (c : Chunk) (cs : Chunks)
    → c.size < n + header + 8
    → take_chunk n c cs ≡ chunk c.size false ∷ cs
unfolding take_chunk
take_chunk-whole n c cs tight = ground arith

pub release_after-here :
    (p at : ℕ) (c d : Chunk) (ds : Chunks)
    → after at c ≡ p
    → release_after p at c (d ∷ ds) ≡ rejoin c d ds
unfolding release_after
release_after-here p at c d ds e = ground arith

pub release_after-later :
    (p at : ℕ) (c d : Chunk) (ds : Chunks)
    → after at c ≢ p
    → release_after p at c (d ∷ ds) ≡ c ∷ release_after p (after at c) d ds
unfolding release_after
release_after-later p at c d ds ne = ground arith

pub release-here :
    (p at : ℕ) (c : Chunk) (cs : Chunks) → at ≡ p → release p at (c ∷ cs) ≡ settle (freed c) cs
unfolding release
release-here p at c cs e = ground arith

pub release-later :
    (p at : ℕ) (c : Chunk) (cs : Chunks) → at ≢ p → release p at (c ∷ cs) ≡ release_after p at c cs
unfolding release
release-later p at c cs ne = ground arith
