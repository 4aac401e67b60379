-- ===== src/Drivers/Vga/Scroll.antt =====
-- `vga_scroll` and `vga_clear` of drivers/vga.c: what their loops leave in every cell.
use vaelen.Prelude.{
  ℕ, zero, suc, ◌+◌, ◌*◌, ◌≤◌, ◌≡◌, ◌&&◌, ltb, leb, if◌then◌else◌, arith, Bool-cases, inl, inr,
  ◌==◌, ap,
}
use vaelen.Drivers.Vga.{
  Console, cell, space, lift_row, lift_rows, blank_row, blank_rows, scroll, clear,
}

lift_row-at :
    (y n p : ℕ) (buffer : ℕ → ℕ)
    → n ≤ 80
    → lift_row (suc y) n buffer p
      ≡ (if leb (y * 80) p && ltb p (y * 80 + n) then buffer (p + 80) else buffer p)
unfolding lift_row
lift_row-at y zero p buffer h = ground arith
lift_row-at y (suc n) p buffer h =
    rw (lift_row-at y n p buffer (omega arith)) rw
      (lift_row-at y n (suc y * 80 + n) buffer (omega arith))
      elim (Bool-cases (y * 80 + n == p)) [
        | inl e ↦ ground (arith, ap buffer {x = suc y * 80 + n} {y = p + 80} (ground arith))
        | inr e ↦ ground arith
      ]

lift_rows-at :
    (n p : ℕ) (buffer : ℕ → ℕ)
    → lift_rows n buffer p ≡ (if ltb p (n * 80) then buffer (p + 80) else buffer p)
unfolding lift_rows
lift_rows-at zero p buffer = ground arith
lift_rows-at (suc n) p buffer =
    rw (lift_row-at n 80 p (lift_rows n buffer) (omega arith)) rw (lift_rows-at n p buffer) rw
      (lift_rows-at n (p + 80) buffer) ground arith

blank_row-at :
    (fill y n p : ℕ) (buffer : ℕ → ℕ)
    → blank_row fill y n buffer p
      ≡ (if leb (y * 80) p && ltb p (y * 80 + n) then fill else buffer p)
unfolding blank_row
blank_row-at fill y zero p buffer = ground arith
blank_row-at fill y (suc n) p buffer = ground (arith, blank_row-at fill y n p buffer)

blank_rows-at :
    (fill n p : ℕ) (buffer : ℕ → ℕ)
    → blank_rows fill n buffer p ≡ (if ltb p (n * 80) then fill else buffer p)
unfolding blank_rows
blank_rows-at fill zero p buffer = ground arith
blank_rows-at fill (suc n) p buffer =
    ground
      (arith, blank_row-at fill n 80 p (blank_rows fill n buffer), blank_rows-at fill n p buffer)

-- What cell `p` should hold after a scroll.
abbrev pub scrolled : Console → ℕ → ℕ
scrolled v p =
    if ltb p 1920
    then v.vga_buffer (p + 80)
    else if ltb p 2000
    then cell space v.vga_color
    else v.vga_buffer p

-- After `vga_scroll` every row of the screen is the one that was below it, the last is blank in the
-- current color, and the cells behind the screen are unchanged.
pub scroll-at : (v : Console) (p : ℕ) → (scroll v).vga_buffer p ≡ scrolled v p
unfolding scroll
scroll-at v p =
    rw (blank_row-at (cell space v.vga_color) 24 80 p (lift_rows 24 v.vga_buffer)) rw
      (lift_rows-at 24 p v.vga_buffer) ground arith

pub scrolled-behind : (v : Console) (p : ℕ) → 2000 ≤ p → scrolled v p ≡ v.vga_buffer p
scrolled-behind v p h = ground arith

pub clear-at :
    (v : Console) (p : ℕ)
    → (clear v).vga_buffer p ≡ (if ltb p 2000 then cell space v.vga_color else v.vga_buffer p)
unfolding clear
clear-at v p = blank_rows-at (cell space v.vga_color) 25 p v.vga_buffer
