-- ===== src/Mm/Frames/Tests.antt =====
-- Runs of the frame allocator, and its theorems at concrete states.
use vaelen.Prelude.{ℕ, ◌+◌, ◌≡◌, refl, true, false, ltb, some, arith, if◌then◌else◌, ◌==◌}
use vaelen.Mm.Frames.{Page, Frames, set_bit, test_bit, first_free, alloc_frame, init, kernel_blocks}
use vaelen.Mm.Frames.Count.{count}
use vaelen.Mm.Frames.Alloc.{Answered, alloc_frame-Answered}
use vaelen.Mm.Frames.Account.{IsCounted, alloc_frame-IsCounted}
use vaelen.Mm.Frames.Init.{count-init}

abbrev blank : Page
blank = record { present = 0; rw = 0; user = 0; accessed = 0; dirty = 0; unused = 0; frame = 0 }

-- Forty frames, of which the first three are in use.
abbrev three_used : Frames
three_used = record {
  bitmap = λ i. if i == 0 then 7 else 0;
  total_memory = 163840;
  total_blocks = 40;
  used_blocks = 3;
}

abbrev page_of : ℕ → Page
page_of f = record { present = 1; rw = 1; user = 0; accessed = 0; dirty = 0; unused = 0; frame = f }

abbrev after : Frames → ℕ → Frames
after s f = record s { bitmap = set_bit s.bitmap f; used_blocks = s.used_blocks + 1 }

alloc_three : alloc_frame three_used blank true true ≡ some (page_of 3, after three_used 3)
unfolding alloc_frame first_free test_bit
alloc_three = refl

three_used-IsCounted : IsCounted three_used
unfolding count test_bit
three_used-IsCounted = record { fits = omega arith; counted = refl }

alloc_frame-Answered_example :
    Answered three_used blank true true (alloc_frame three_used blank true true)
alloc_frame-Answered_example = alloc_frame-Answered three_used blank true true

alloc_frame-IsCounted_example : IsCounted (after three_used 3)
alloc_frame-IsCounted_example =
    alloc_frame-IsCounted three_used blank true true three_used-IsCounted alloc_three

count-init_example :
    ((b : ℕ)
      → test_bit (init 0x18000000 (λ i. 0)).bitmap b ≡ (
          if ltb b kernel_blocks then false else if ltb b 98304 then true else test_bit (λ i. 0) b))
    × (count (init 0x18000000 (λ i. 0)).bitmap 98304 ≡ 32768)
    × ((init 0x18000000 (λ i. 0)).used_blocks ≡ kernel_blocks)
count-init_example = count-init 0x18000000 (λ i. 0) refl
