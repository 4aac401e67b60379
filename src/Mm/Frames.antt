-- ===== src/Mm/Frames.antt =====
-- kernel/mm.c: the bitmap of physical frames, `mm_init`, `mm_alloc_frame` and `mm_free_frame`, and
-- the three counters of memory.
pub mod Bitmap
pub mod Count
pub mod Alloc
pub mod Account
pub mod Init
mod Tests
use vaelen.Prelude.{
  ℕ, zero, suc, ◌+◌, ◌-◌, ◌*◌, ◌/◌, ◌%◌, ◌^◌, bit_and, bit_or, Bool, true, false, not, Option, none,
  some, ◌==◌, if◌then◌else◌, update,
}
use vaelen.Prelude.Bits.{complement}

-- `page_t`: its bit fields.
pub record Page : Type 0 where
  pub present : ℕ
  pub rw : ℕ
  pub user : ℕ
  pub accessed : ℕ
  pub dirty : ℕ
  pub unused : ℕ
  pub frame : ℕ

-- `mem_bitmap`: the 32-bit words from the address that `mm_init` is given.
abbrev pub Bitmap : Type 0
Bitmap = ℕ → ℕ

-- The static variables of mm.c that stand for physical memory.
pub record Frames : Type 0 where
  pub bitmap : Bitmap
  pub total_memory : ℕ
  pub total_blocks : ℕ
  pub used_blocks : ℕ

abbrev pub page_size : ℕ
page_size = 4096

abbrev pub kernel_base : ℕ
kernel_base = 0xC0000000

abbrev pub kernel_heap_start : ℕ
kernel_heap_start = 0xD0000000

abbrev pub set_bit_in : ℕ → ℕ → ℕ
set_bit_in w k = bit_or w (2 ^ k)

abbrev pub unset_bit_in : ℕ → ℕ → ℕ
unset_bit_in w k = bit_and w (complement (2 ^ k))

unfoldable pub set_bit : Bitmap → ℕ → Bitmap
set_bit m b = update m (b / 32) (set_bit_in (m (b / 32)) (b % 32))

unfoldable pub unset_bit : Bitmap → ℕ → Bitmap
unset_bit m b = update m (b / 32) (unset_bit_in (m (b / 32)) (b % 32))

-- Not zero, as C tests it.
unfoldable pub test_bit : Bitmap → ℕ → Bool
test_bit m b = not (bit_and (m (b / 32)) (2 ^ (b % 32)) == 0)

-- The loop of `mm_first_free` from `i` on, with `n` rounds left.
unfoldable pub first_free_from : Bitmap → ℕ → ℕ → Option ℕ
first_free_from m zero i = none
first_free_from m (suc n) i =
    let rest = first_free_from m n (i + 1) in if not (test_bit m i) then some i else rest

-- `none` is the source's -1.
unfoldable pub first_free : Frames → Option ℕ
unfolding first_free_from
first_free s = first_free_from s.bitmap s.total_blocks 0

abbrev flag : Bool → ℕ
flag b = if b then 1 else 0

-- The tail of `mm_alloc_frame`, once `mm_first_free` has answered; `none` is the panic, which does
-- not return. The field `frame` has 20 bits.
take_frame : Frames → Page → Bool → Bool → Option ℕ → Option (Page × Frames)
take_frame s page is_kernel is_writeable none = none
take_frame s page is_kernel is_writeable (some idx) = some (
  record page {
    present = 1;
    rw = flag is_writeable;
    user = flag (not is_kernel);
    frame = idx % 2 ^ 20;
  },
  record s { bitmap = set_bit s.bitmap idx; used_blocks = (s.used_blocks + 1) % 2 ^ 32 },
)

unfoldable pub alloc_frame : Frames → Page → Bool → Bool → Option (Page × Frames)
unfolding take_frame
alloc_frame s page is_kernel is_writeable =
    if not (page.frame == 0)
    then some (page, s)
    else take_frame s page is_kernel is_writeable (first_free s)

unfoldable pub free_frame : Frames → Page → Page × Frames
free_frame s page = if page.frame == 0 then (page, s) else (
  record page { frame = 0 },
  record s {
    bitmap = unset_bit s.bitmap page.frame;
    used_blocks = (s.used_blocks + 2 ^ 32 - 1) % 2 ^ 32;
  },
)

-- `memset(mem_bitmap, 0xFF, n)`, byte by byte: byte `i` of the words is set to ones.
unfoldable pub fill_ones : Bitmap → ℕ → Bitmap
fill_ones m zero = m
fill_ones m (suc i) =
    let m' = fill_ones m i in update m' (i / 4) (bit_or (m' (i / 4)) (255 * 256 ^ (i % 4)))

-- The loop of `mm_init` over the kernel's blocks, `n` of them.
unfoldable pub unset_below : Bitmap → ℕ → Bitmap
unset_below m zero = m
unset_below m (suc i) = unset_bit (unset_below m i) i

abbrev pub kernel_blocks : ℕ
kernel_blocks = (kernel_heap_start - kernel_base) / page_size

unfoldable pub init : ℕ → Bitmap → Frames
init mem_size words = record {
  bitmap = unset_below (fill_ones words (mem_size / page_size / 8)) kernel_blocks;
  total_memory = mem_size;
  total_blocks = mem_size / page_size;
  used_blocks = kernel_blocks;
}

unfoldable pub get_total_memory : Frames → ℕ
get_total_memory s = s.total_memory

unfoldable pub get_free_memory : Frames → ℕ
get_free_memory s = (s.total_blocks + 2 ^ 32 - s.used_blocks) % 2 ^ 32 * page_size % 2 ^ 32

unfoldable pub get_used_memory : Frames → ℕ
get_used_memory s = s.used_blocks * page_size % 2 ^ 32
