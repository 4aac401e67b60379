-- ===== src/Drivers/Vga.antt =====
-- drivers/vga.c: the text screen, its cursor and the bytes sent to the ports of the hardware cursor.
pub mod Scroll
pub mod Cursor
pub mod Plain
pub mod Written
use vaelen.Prelude.{
  ℕ, zero, suc, ◌+◌, ◌-◌, ◌*◌, ◌/◌, ◌%◌, ◌^◌, bit_and, bit_or, Bool, List, [], ◌∷◌, ◌++◌, ltb, leb,
  ◌==◌, if◌then◌else◌, update,
}

-- `outb(port, value)` calls, in order.
abbrev pub Ports : Type 0
Ports = List (ℕ × ℕ)

-- The static variables of vga.c; `vga_buffer` counts in cells from VGA_MEMORY. `ports` is what was
-- sent to the ports so far.
pub record Console : Type 0 where
  pub vga_color : ℕ
  pub vga_buffer : ℕ → ℕ
  pub cursor_x : ℕ
  pub cursor_y : ℕ
  pub ports : Ports

abbrev pub vga_width : ℕ
vga_width = 80

abbrev pub vga_height : ℕ
vga_height = 25

-- `(uint16_t)c | (uint16_t)color << 8` for the byte of a signed `char`.
unfoldable pub cell : ℕ → ℕ → ℕ
cell c color = bit_or (if ltb c 128 then c else c + 0xFF00) (color * 256)

abbrev pub space : ℕ
space = 32

unfoldable pub set_color : ℕ → Console → Console
set_color color v = record v { vga_color = color }

unfoldable pub move_cursor : ℕ → ℕ → Console → Console
move_cursor x y v =
    let position = (y * vga_width + x) % 2 ^ 16 in
    record v {
      ports =
          v.ports
          ++ ((0x3D4, 14)
              ∷ (0x3D5, bit_and (position / 256) 0xFF)
              ∷ (0x3D4, 15)
              ∷ (0x3D5, bit_and position 0xFF)
              ∷ []);
    }

-- The inner loop of `vga_scroll`: the first `n` cells of row `y` go one row up.
unfoldable pub lift_row : ℕ → ℕ → (ℕ → ℕ) → ℕ → ℕ
lift_row y zero buffer = buffer
lift_row y (suc x) buffer =
    let lifted = lift_row y x buffer in
    update lifted ((y - 1) * vga_width + x) (lifted (y * vga_width + x))

-- The outer loop, for the rows 1 to `n`.
unfoldable pub lift_rows : ℕ → (ℕ → ℕ) → ℕ → ℕ
unfolding lift_row
lift_rows zero buffer = buffer
lift_rows (suc y) buffer = lift_row (suc y) vga_width (lift_rows y buffer)

-- The loop that fills the first `n` cells of row `y`.
unfoldable pub blank_row : ℕ → ℕ → ℕ → (ℕ → ℕ) → ℕ → ℕ
blank_row fill y zero buffer = buffer
blank_row fill y (suc x) buffer = update (blank_row fill y x buffer) (y * vga_width + x) fill

unfoldable pub scroll : Console → Console
unfolding cell lift_rows blank_row
scroll v = record v {
  vga_buffer =
      blank_row (cell space v.vga_color) (vga_height - 1) vga_width
        (lift_rows (vga_height - 1) v.vga_buffer);
}

-- The chain of tests on the character at the start of `vga_putchar`.
unfoldable pub place : ℕ → Console → Console
unfolding cell
place c v =
    if c == 10
    then record v { cursor_x = 0; cursor_y = (v.cursor_y + 1) % 2 ^ 8 }
    else if c == 13
    then record v { cursor_x = 0 }
    else if c == 9
    then record v { cursor_x = bit_and (v.cursor_x + 8) (2 ^ 32 - 8) % 2 ^ 8 }
    else if c == 8
    then (if ltb 0 v.cursor_x
        then record v {
          cursor_x = v.cursor_x - 1;
          vga_buffer =
              update v.vga_buffer (v.cursor_y * vga_width + (v.cursor_x - 1))
                (cell space v.vga_color);
        }
        else v)
    else record v {
      vga_buffer = update v.vga_buffer (v.cursor_y * vga_width + v.cursor_x) (cell c v.vga_color);
      cursor_x = (v.cursor_x + 1) % 2 ^ 8;
    }

unfoldable pub wrap_line : Console → Console
wrap_line v =
    if leb vga_width v.cursor_x
    then record v { cursor_x = 0; cursor_y = (v.cursor_y + 1) % 2 ^ 8 }
    else v

unfoldable pub wrap_screen : Console → Console
wrap_screen v =
    if leb vga_height v.cursor_y then record (scroll v) { cursor_y = vga_height - 1 } else v

unfoldable pub putchar : ℕ → Console → Console
unfolding place wrap_line wrap_screen move_cursor
putchar c v = let v' = wrap_screen (wrap_line (place c v)) in move_cursor v'.cursor_x v'.cursor_y v'

-- `vga_write` of the bytes given, and `vga_puts` of the bytes before the terminating 0.
unfoldable pub write : List ℕ → Console → Console
unfolding putchar
write [] v = v
write (c ∷ cs) v = write cs (putchar c v)

-- The loops of `vga_clear`, for the rows below `n`.
unfoldable pub blank_rows : ℕ → ℕ → (ℕ → ℕ) → ℕ → ℕ
unfolding blank_row
blank_rows fill zero buffer = buffer
blank_rows fill (suc y) buffer = blank_row fill y vga_width (blank_rows fill y buffer)

unfoldable pub clear : Console → Console
unfolding blank_rows cell move_cursor
clear v = move_cursor 0 0 (record v {
  vga_buffer = blank_rows (cell space v.vga_color) vga_height v.vga_buffer;
  cursor_x = 0;
  cursor_y = 0;
})

-- `vga_buffer` points to VGA_MEMORY from here on.
unfoldable pub init : Console → Console
unfolding clear
init v = clear (record v { cursor_x = 0; cursor_y = 0; vga_color = 0x07 })

unfoldable pub get_cursor : Console → ℕ × ℕ
get_cursor v = (v.cursor_x, v.cursor_y)
