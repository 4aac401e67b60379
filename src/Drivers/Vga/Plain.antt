-- ===== src/Drivers/Vga/Plain.antt =====
-- `vga_putchar` of drivers/vga.c for a character that is none of the four control characters, and a
-- backspace after it.
use vaelen.Prelude.{
  ==_differ, ℕ, ◌+◌, ◌≤◌, ◌<◌, ◌≡◌, ◌≢◌, refl, ap, ap₂, subst, sym, ◌∙◌, Bool, false, ltb, leb,
  if◌then◌else◌, arith, update, ◌⊎◌, inl, inr, dec_lt, Bool-cases,
}
use vaelen.Drivers.Vga.{
  Console, vga_width, cell, space, move_cursor, place, wrap_line, wrap_screen, scroll, putchar,
}
use vaelen.Drivers.Vga.Scroll.{scrolled, scroll-at}
use vaelen.Drivers.Vga.Cursor.{OnScreen, position, scroll-cursor_x}

abbrev pub IsPlain : ℕ → Type 0
IsPlain c = (c ≢ 10) × (c ≢ 13) × (c ≢ 9) × (c ≢ 8)

-- The screen with a character at the cursor, and the cursor one to the right.
abbrev pub with_char : ℕ → Console → Console
with_char c v = record v {
  vga_buffer = update v.vga_buffer (position v) (cell c v.vga_color);
  cursor_x = v.cursor_x + 1;
}

place-plain : (c : ℕ) (v : Console) → IsPlain c → OnScreen v → place c v ≡ with_char c v
unfolding place
place-plain c v (n₁, n₂, n₃, n₄) on =
    rw (==_differ c 10 n₁) rw (==_differ c 13 n₂) rw (==_differ c 9 n₃) rw (==_differ c 8 n₄)
      (ap (λ (x : ℕ). record (with_char c v) { cursor_x = x }) (omega (arith, on.column)))

-- What follows `place` in `vga_putchar`, for a cursor that has just gone one to the right.
record Ended (w u : Console) : Type 0 where
  wrapped : position u ≡ position w
  column : u.cursor_x < 80
  row : u.cursor_y ≤ 25
  same : (p : ℕ) → u.vga_buffer p ≡ w.vga_buffer p
  color : u.vga_color ≡ w.vga_color

wrap_line-Ended : (w : Console) → w.cursor_x ≤ 80 → w.cursor_y < 25 → Ended w (wrap_line w)
unfolding wrap_line
wrap_line-Ended w hx hy = elim (Bool-cases (leb vga_width w.cursor_x)) [
  | inl e ↦ record {
    wrapped = rw e ground arith;
    column = rw e (omega arith);
    row = rw e (omega arith);
    same = λ p. rw e refl;
    color = rw e refl;
  }
  | inr e ↦ record {
    wrapped = rw e refl;
    column = rw e (ground arith);
    row = rw e (omega arith);
    same = λ p. rw e refl;
    color = rw e refl;
  }
]

-- The end of `vga_putchar`, for either answer of its last test.
abbrev settle : Bool → Console → Console
settle full w = if full then record (scroll w) { cursor_y = 24 } else w

fits : (y : ℕ) → y < 25 → leb 25 y ≡ false
fits y h = ground arith

wrap_screen-below : (w : Console) → w.cursor_y < 25 → wrap_screen w ≡ w
unfolding wrap_screen
wrap_screen-below w h = ap (λ (b : Bool). settle b w) (fits w.cursor_y h)

wrap_screen-full :
    (w : Console) → w.cursor_y ≡ 25 → wrap_screen w ≡ record (scroll w) { cursor_y = 24 }
unfolding wrap_screen
wrap_screen-full w e = ap (λ (y : ℕ). settle (leb 25 y) w) e

-- What `vga_putchar` of a plain character does: the cell under the cursor gets the character in the
-- current color and the cursor goes on by one, except that behind the last cell of the screen the
-- screen scrolls and the cursor goes to the start of the last row.
abbrev pub Typed : ℕ → Console → Console → Type 0
Typed c v w =
    ((position v < 1999)
      × (position w ≡ position v + 1)
      × ((p : ℕ) → w.vga_buffer p ≡ (with_char c v).vga_buffer p))
    ⊎ ((position v ≡ 1999)
        × (position w ≡ 1920)
        × ((p : ℕ) → w.vga_buffer p ≡ scrolled (with_char c v) p))

scrolled-same :
    (w u : Console)
    → ((p : ℕ) → u.vga_buffer p ≡ w.vga_buffer p)
    → u.vga_color ≡ w.vga_color
    → (p : ℕ) → scrolled u p ≡ scrolled w p
scrolled-same w u same color p =
    ap₂ (λ (a b : ℕ). if ltb p 1920 then a else if ltb p 2000 then b else u.vga_buffer p)
      (same (p + 80)) (ap (cell space) color)
    ∙ ap
        (λ (a : ℕ).
          if ltb p 1920
          then w.vga_buffer (p + 80)
          else if ltb p 2000
          then cell space w.vga_color
          else a)
        (same p)

wrap_screen-Typed :
    (c : ℕ) (v u : Console) → Ended (with_char c v) u → OnScreen v → Typed c v (wrap_screen u)
wrap_screen-Typed c v u ended on = elim (dec_lt u.cursor_y 25) [
  | yes h ↦
      subst (Typed c v) (sym (wrap_screen-below u h))
        (inl (omega (arith, ended.wrapped, ended.column), omega (arith, ended.wrapped), ended.same))
  | no h ↦ subst (Typed c v) (sym (wrap_screen-full u (omega (arith, ended.row)))) (
      inr (
        omega (arith, ended.wrapped, ended.row, ended.column, on.row, on.column),
        omega (arith, scroll-cursor_x u, ended.wrapped, ended.row, on.row, on.column),
        λ p. scroll-at u p ∙ scrolled-same (with_char c v) u ended.same ended.color p,
      ))
]

-- With the cursor on the screen, `vga_putchar` of a character other than newline, carriage return,
-- tab and backspace writes the cell under the cursor and no other, and the cursor goes on by one;
-- behind the last cell the screen scrolls and the cursor goes to the start of the last row.
pub putchar-Typed : (c : ℕ) (v : Console) → IsPlain c → OnScreen v → Typed c v (putchar c v)
unfolding putchar move_cursor
putchar-Typed c v plain on = rw (place-plain c v plain on) (
    wrap_screen-Typed c v (wrap_line (with_char c v))
      (wrap_line-Ended (with_char c v) (omega (arith, on.column)) on.row) on)
