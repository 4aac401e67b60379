-- ===== src/Mm/Heap.antt =====
-- kernel/mm.c: the kernel heap, `kmalloc_ap` and `kfree`, over a store of block headers.
pub mod Tiles
pub mod Updates
pub mod Spec
pub mod Became
pub mod Join
pub mod Free
pub mod Carve
pub mod Alloc
pub mod Kmalloc
pub mod Exhausted
pub mod Laws
pub mod RoundTrip
mod Tests
use vaelen.Prelude.{
  ℕ, zero, suc, ◌+◌, ◌-◌, ◌*◌, ◌%◌, ◌^◌, Bool, true, false, not, ◌&&◌, ◌==◌, leb, ltb,
  if◌then◌else◌, update,
}
use vaelen.Mm.Frames.{kernel_heap_start}

abbrev pub Ptr : Type 0
Ptr = ℕ

abbrev pub null : Ptr
null = 0

-- `mem_block_t`: a header of 16 bytes in front of `size` bytes.
pub record Block : Type 0 where
  pub size : ℕ
  pub next : Ptr
  pub prev : Ptr
  pub free : Bool

abbrev pub block : ℕ → Ptr → Ptr → Bool → Block
block size next prev free = record { size = size; next = next; prev = prev; free = free }

-- The header that memory holds at an address.
abbrev pub Cells : Type 0
Cells = Ptr → Block

-- The static variables of mm.c that stand for the heap, and the memory they point into.
pub record Heap : Type 0 where
  pub heap_start : Ptr
  pub heap_end : Ptr
  pub heap_placement : ℕ
  pub cells : Cells

-- `sizeof(mem_block_t)`
abbrev pub header : ℕ
header = 16

-- `KERNEL_HEAP_SIZE`
abbrev pub kernel_heap_size : ℕ
kernel_heap_size = 16 * 1024 * 1024

-- `uint32_t` arithmetic
abbrev pub u32 : ℕ → ℕ
u32 n = n % 2 ^ 32

abbrev pub sub32 : ℕ → ℕ → ℕ
sub32 a b = u32 (a + 2 ^ 32 - b)

-- Assignments to one field of `*p`.
abbrev pub set_size : Cells → Ptr → ℕ → Cells
set_size h p n = update h p (record (h p) { size = n })

abbrev pub set_next : Cells → Ptr → Ptr → Cells
set_next h p q = update h p (record (h p) { next = q })

abbrev pub set_prev : Cells → Ptr → Ptr → Cells
set_prev h p q = update h p (record (h p) { prev = q })

abbrev pub set_free : Cells → Ptr → Bool → Cells
set_free h p b = update h p (record (h p) { free = b })

-- `if (p) p->prev = q;`
abbrev pub relink : Cells → Ptr → Ptr → Cells
relink h p q = if p == null then h else set_prev h p q

pub data Search : Type 0 where
  hole : Ptr → Search
  no_hole : Search
  out_of_fuel : Search

-- The loop of `mm_find_smallest_hole`, a round for each block visited.
unfoldable pub find_hole : ℕ → Cells → ℕ → Ptr → Search
find_hole zero h need current = out_of_fuel
find_hole (suc fuel) h need current =
    let rest = find_hole fuel h need (h current).next in
    if current == null
    then no_hole
    else if (h current).free && leb need (h current).size
    then hole current
    else rest

-- The split of a hole, and the mark that it is in use.
unfoldable pub split : Cells → Ptr → ℕ → Cells
split h p size =
    let rest = u32 (p + header + size) in
    let h₁ = update h rest (block (sub32 (sub32 (h p).size size) header) (h p).next p true) in
    let h₂ = relink h₁ (h₁ p).next rest in set_size (set_next h₂ p rest) p size

unfoldable pub carve : Cells → Ptr → ℕ → Cells
unfolding split
carve h p size =
    set_free (if leb (u32 (size + header + 8)) (h p).size then split h p size else h) p false

pub data Outcome : Type 0 where
  returns : Ptr → Heap → Outcome
  panics : Outcome
  hangs : Outcome

-- `heap_start` is set up on the first call.
unfoldable pub set_up : Heap → Heap
set_up m =
    if m.heap_start == null
    then record m {
      heap_start = kernel_heap_start;
      heap_end = kernel_heap_start;
      cells = update m.cells kernel_heap_start (block (kernel_heap_size - header) null null true);
    }
    else m

-- The branch of `kmalloc_ap` where no hole fits: a new block at `heap_placement`.
unfoldable pub place : Heap → ℕ → Outcome
place m size =
    let old = m.heap_placement in
    let placement = u32 (old + u32 (size + header)) in
    if ltb (kernel_heap_start + kernel_heap_size) placement
    then panics
    else let h₁ = update m.cells old (block size null m.heap_end false) in
      let h₂ = if m.heap_end == null then h₁ else set_next h₁ m.heap_end old in
      returns (u32 (old + header))
        (record m { heap_end = old; heap_placement = placement; cells = h₂ })

unfoldable pub serve : Heap → ℕ → Search → Outcome
unfolding carve place
serve m size (hole p) = returns (u32 (p + header)) (record m { cells = carve m.cells p size })
serve m size no_hole = place m size
serve m size out_of_fuel = hangs

-- `kmalloc_ap`. Its second result, `*phys`, is the address that it returns.
unfoldable pub kmalloc_ap : ℕ → Heap → ℕ → Outcome
unfolding serve set_up find_hole
kmalloc_ap fuel m size =
    let m' = set_up m in
    if size == 0
    then returns null m'
    else serve m' size (find_hole fuel m'.cells (u32 (size + header)) m'.heap_start)

-- `prev` takes the block behind it in.
unfoldable pub merge_prev : Cells → Ptr → Cells
merge_prev h b =
    let h₁ = set_size h (h b).prev (u32 ((h (h b).prev).size + u32 ((h b).size + header))) in
    let h₂ = set_next h₁ (h₁ b).prev (h₁ b).next in relink h₂ (h₂ b).next (h₂ b).prev

-- The block takes the next one in.
unfoldable pub merge_next : Cells → Ptr → Cells
merge_next h b =
    let h₁ = set_size h b (u32 ((h b).size + u32 ((h (h b).next).size + header))) in
    let h₂ = set_next h₁ b (h₁ (h₁ b).next).next in relink h₂ (h₂ b).next b

-- The last part of `kfree`.
unfoldable pub join_next : Cells → Ptr → Cells
unfolding merge_next
join_next h b = if not ((h b).next == null) && (h (h b).next).free then merge_next h b else h

-- `block->prev && block->prev->free`
abbrev pub joins_prev : Cells → Ptr → Bool
joins_prev h b = not ((h b).prev == null) && (h (h b).prev).free

unfoldable pub free_block : Cells → Ptr → Cells
unfolding merge_prev join_next
free_block h b =
    let h₁ = set_free h b true in
    let h₂ = merge_prev h₁ b in if joins_prev h₁ b then join_next h₂ (h₂ b).prev else join_next h₁ b

unfoldable pub kfree : Heap → Ptr → Heap
unfolding free_block
kfree m p = if p == null then m else record m { cells = free_block m.cells (sub32 p header) }

-- `kmalloc`, `kmalloc_a` and `kmalloc_p` pass the size on.
unfoldable pub kmalloc_p : ℕ → Heap → ℕ → Outcome
unfolding kmalloc_ap
kmalloc_p fuel m size = kmalloc_ap fuel m size

unfoldable pub kmalloc : ℕ → Heap → ℕ → Outcome
unfolding kmalloc_p
kmalloc fuel m size = kmalloc_p fuel m size

unfoldable pub kmalloc_a : ℕ → Heap → ℕ → Outcome
unfolding kmalloc_ap
kmalloc_a fuel m size = kmalloc_ap fuel m size
