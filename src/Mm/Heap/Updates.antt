-- ===== src/Mm/Heap/Updates.antt =====
-- What `kmalloc_ap` and `kfree` of kernel/mm.c write, address by address.
use vaelen.Prelude.{
  ℕ, ◌+◌, ◌-◌, ◌^◌, ◌≤◌, ◌<◌, ◌≡◌, ◌≢◌, Bool, true, false, not, ◌&&◌, arith, ◌==◌, if◌then◌else◌,
}
use vaelen.Mm.Heap.{Ptr, null, Block, block, Cells, header, carve, merge_prev, merge_next}

-- `h` with the header at `p` replaced by `c`, and the one at `q`, if any, pointing back to `r`.
abbrev pub rewired : Cells → Ptr → Block → Ptr → Ptr → Cells
rewired h p c q r a =
    if a == p then c else if a == q && not (q == null) then record (h a) { prev = r } else h a

module _ (h : Cells) (p n m pv q : Ptr) (s s' : ℕ) (f f' : Bool) where
  pub merge_next_lem :
      h p ≡ block s n pv f
      → h n ≡ block s' m q f'
      → n ≢ p
      → m ≢ p
      → s + header + s' < 2 ^ 32
      → (a : Ptr) → merge_next h p a ≡ rewired h p (block (s + header + s') m pv f) m p a
  unfolding merge_next
  merge_next_lem e e' np mp fits a = ground (arith, e, e')

  pub merge_prev_lem :
      h p ≡ block s n pv f
      → h n ≡ block s' m p f'
      → n ≢ p
      → m ≢ p
      → m ≢ n
      → s + header + s' < 2 ^ 32
      → (a : Ptr) → merge_prev h n a ≡ rewired h p (block (s + header + s') m pv f) m p a
  unfolding merge_prev
  merge_prev_lem e e' np mp mn fits a = ground (arith, e, e')

module _ (h : Cells) (p n pv : Ptr) (s size : ℕ) (e : h p ≡ block s n pv true) where
  -- A hole with room for a second block is cut in two.
  pub carve_split :
      size + header + 8 ≤ s
      → p + header + s < 2 ^ 32
      → n ≢ p
      → n ≢ p + header + size
      → (a : Ptr)
      → carve h p size a ≡ (
          if a == p
          then block size (p + header + size) pv false
          else rewired h
              (p + header + size)
              (block (s - size - header) n p true)
              n
              (p + header + size)
              a)
  unfolding carve
  carve_split room fits np nr a = ground (arith, e)

  -- A hole without that room is used whole.
  pub carve_whole :
      s < size + header + 8
      → size + header + 8 < 2 ^ 32
      → (a : Ptr) → carve h p size a ≡ (if a == p then block s n pv false else h a)
  unfolding carve
  carve_whole tight fits a = ground (arith, e)
