-- ===== src/Drivers/Vga/Cursor.antt =====
-- `vga_putchar` of drivers/vga.c: where the cursor goes, what is written where, and what the
-- hardware cursor is told.
use vaelen.Prelude.{
  ℕ, ◌+◌, ◌-◌, ◌*◌, ◌/◌, ◌^◌, ◌%◌, ◌≤◌, ◌<◌, ◌≡◌, refl, ap, ap₂, ◌∙◌, Bool, true, false, ltb, leb,
  ◌==◌, if◌then◌else◌, arith, bit_and, List, [], ◌∷◌, ◌++◌, ◌⊎◌, inl, inr, Bool-cases,
}
use vaelen.Prelude.Bits.{all_below, all_below_sound, bit_and-byte}
use vaelen.Drivers.Vga.{
  Console, vga_width, vga_height, move_cursor, place, wrap_line, wrap_screen, scroll, putchar,
}
use vaelen.Drivers.Vga.Scroll.{scroll-at, scrolled-behind}

pub record OnScreen (v : Console) : Type 0 where
  pub column : v.cursor_x < 80
  pub row : v.cursor_y < 25

-- The cell under the cursor.
abbrev pub position : Console → ℕ
position v = v.cursor_y * 80 + v.cursor_x

-- The cursor before the two tests at the end of `vga_putchar`, and the cells behind the screen.
record Placed (v w : Console) : Type 0 where
  column : w.cursor_x ≤ 80
  row : w.cursor_y ≤ 25
  both : w.cursor_x < 80 ⊎ w.cursor_y < 25
  behind : (p : ℕ) → 2000 ≤ p → w.vga_buffer p ≡ v.vga_buffer p
  ports : w.ports ≡ v.ports

tab_table : all_below 80 (λ x. leb (bit_and (x + 8) (2 ^ 32 - 8) % 2 ^ 8) 80) ≡ true
unfolding all_below
tab_table = refl

tab_bound : (x : ℕ) → x < 80 → bit_and (x + 8) (2 ^ 32 - 8) % 2 ^ 8 ≤ 80
tab_bound x h = ground (arith, all_below_sound 80 _ x tab_table h)

place-Placed : (c : ℕ) (v : Console) → OnScreen v → Placed v (place c v)
unfolding place
place-Placed c v on = elim (Bool-cases (c == 10)) [
  | inl e ↦ rw e record {
    column = omega arith;
    row = omega (arith, on.row);
    both = inl (omega arith);
    behind = λ p h. refl;
    ports = refl;
  }
  | inr e ↦ rw e elim (Bool-cases (c == 13)) [
    | inl e ↦ rw e record {
      column = omega arith;
      row = omega (arith, on.row);
      both = inr on.row;
      behind = λ p h. refl;
      ports = refl;
    }
    | inr e ↦ rw e elim (Bool-cases (c == 9)) [
      | inl e ↦ rw e record {
        column = tab_bound v.cursor_x on.column;
        row = omega (arith, on.row);
        both = inr on.row;
        behind = λ p h. refl;
        ports = refl;
      }
      | inr e ↦ rw e elim (Bool-cases (c == 8)) [
        | inl e ↦ rw e elim (Bool-cases (ltb 0 v.cursor_x)) [
          | inl e ↦ rw e record {
            column = omega (arith, on.column);
            row = omega (arith, on.row);
            both = inr on.row;
            behind = λ p h. ground (arith, on.column, on.row);
            ports = refl;
          }
          | inr e ↦ rw e record {
            column = omega (arith, on.column);
            row = omega (arith, on.row);
            both = inr on.row;
            behind = λ p h. refl;
            ports = refl;
          }
        ]
        | inr e ↦ rw e record {
          column = omega (arith, on.column);
          row = omega (arith, on.row);
          both = inr on.row;
          behind = λ p h. ground (arith, on.column, on.row);
          ports = refl;
        }
      ]
    ]
  ]
]

wrap_line-Placed :
    (v w : Console) → Placed v w → Placed v (wrap_line w) × ((wrap_line w).cursor_x < 80)
unfolding wrap_line
wrap_line-Placed v w h = elim (Bool-cases (leb vga_width w.cursor_x)) [
  | inl e ↦ rw e (
    record {
      column = omega arith;
      row = ground (arith, h.row, h.both);
      both = inl (omega arith);
      behind = h.behind;
      ports = h.ports;
    },
    omega arith,
  )
  | inr e ↦ rw e (h, ground arith)
]

pub scroll-cursor_x : (w : Console) → (scroll w).cursor_x ≡ w.cursor_x
unfolding scroll
scroll-cursor_x w = refl

scroll-ports : (w : Console) → (scroll w).ports ≡ w.ports
unfolding scroll
scroll-ports w = refl

-- What is left when both tests have been passed.
record Settled (v w : Console) : Type 0 where
  shown : OnScreen w
  behind : (p : ℕ) → 2000 ≤ p → w.vga_buffer p ≡ v.vga_buffer p
  ports : w.ports ≡ v.ports

Settled-scroll :
    (v w : Console) → Placed v w → w.cursor_x < 80 → Settled v (record (scroll w) { cursor_y = 24 })
Settled-scroll v w h column = record {
  shown = record { column = omega (arith, scroll-cursor_x w, column); row = omega arith };
  behind = λ p far. scroll-at w p ∙ scrolled-behind w p far ∙ h.behind p far;
  ports = scroll-ports w ∙ h.ports;
}

not_below : (y : ℕ) → leb 25 y ≡ false → y < 25
not_below y e = ground arith

wrap_screen-Settled : (v w : Console) → Placed v w → w.cursor_x < 80 → Settled v (wrap_screen w)
unfolding wrap_screen
wrap_screen-Settled v w h column =
    choose (leb vga_height w.cursor_y) refl (Settled-scroll v w h column)
  where
    choose :
        (full : Bool)
        → leb vga_height w.cursor_y ≡ full
        → Settled v (record (scroll w) { cursor_y = 24 })
        → Settled v (if full then record (scroll w) { cursor_y = 24 } else w)
    choose true e settled = settled
    choose false e settled = record {
      shown = record { column = column; row = not_below w.cursor_y e };
      behind = h.behind;
      ports = h.ports;
    }

-- The four bytes that `vga_move_cursor` sends, for a cursor at `position`.
abbrev pub cursor_bytes : ℕ → List (ℕ × ℕ)
cursor_bytes position =
    (0x3D4, 14) ∷ (0x3D5, position / 256) ∷ (0x3D4, 15) ∷ (0x3D5, position % 256) ∷ []

move_cursor-ports :
    (v : Console)
    → OnScreen v
    → (move_cursor v.cursor_x v.cursor_y v).ports ≡ v.ports ++ cursor_bytes (position v)
unfolding move_cursor
move_cursor-ports v on =
    ap₂ (λ (hi lo : ℕ). v.ports ++ ((0x3D4, 14) ∷ (0x3D5, hi) ∷ (0x3D4, 15) ∷ (0x3D5, lo) ∷ []))
      (omega
        (arith, bit_and-byte ((v.cursor_y * 80 + v.cursor_x) % 65536 / 256), on.row, on.column))
      (omega (arith, bit_and-byte ((v.cursor_y * 80 + v.cursor_x) % 65536), on.row, on.column))

-- After `vga_putchar` of any byte with the cursor on the screen, the cursor is on the screen, no
-- cell behind the screen has changed, and the hardware cursor has been sent the place of the
-- cursor, high byte first.
pub putchar-OnScreen :
    (c : ℕ) (v : Console)
    → OnScreen v
    → OnScreen (putchar c v)
      × ((p : ℕ) → 2000 ≤ p → (putchar c v).vga_buffer p ≡ v.vga_buffer p)
      × ((putchar c v).ports ≡ v.ports ++ cursor_bytes (position (putchar c v)))
unfolding putchar move_cursor
putchar-OnScreen c v on =
    let placed = wrap_line-Placed v (place c v) (place-Placed c v on) in
    let settled = wrap_screen-Settled v _ placed.0 placed.1 in
    (
      record { column = settled.shown.column; row = settled.shown.row },
      settled.behind,
      move_cursor-ports _ settled.shown
          ∙ ap (λ (sent : List (ℕ × ℕ)). sent ++ cursor_bytes (position (putchar c v)))
              settled.ports,
    )
