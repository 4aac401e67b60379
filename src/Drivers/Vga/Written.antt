-- ===== src/Drivers/Vga/Written.antt =====
-- `vga_write` of drivers/vga.c for a text without control characters that ends before the last cell.
use vaelen.Prelude.{ℕ, ◌+◌, ◌-◌, ◌≡◌, ◌&&◌, ltb, leb, if◌then◌else◌, List, [], ◌∷◌, length, get_or}
use vaelen.Drivers.Vga.{Console, cell}
use vaelen.Drivers.Vga.Cursor.{OnScreen, position}
use vaelen.Drivers.Vga.Plain.{IsPlain}

abbrev pub AllPlain : List ℕ → Type 0
AllPlain [] = Unit {0}
AllPlain (c ∷ cs) = IsPlain c × AllPlain cs

-- The cells with `cs` from cell `start` on.
abbrev pub with_text : List ℕ → ℕ → ℕ → (ℕ → ℕ) → ℕ → ℕ
with_text cs color start buffer p =
    if leb start p && ltb p (start + length cs)
    then cell (get_or cs (p - start) 0) color
    else buffer p

-- The screen with a text at the cursor, and the cursor behind it.
pub record Written (cs : List ℕ) (v w : Console) : Type 0 where
  pub shown : OnScreen w
  pub cursor : position w ≡ position v + length cs
  pub color : w.vga_color ≡ v.vga_color
  pub cells : (p : ℕ) → w.vga_buffer p ≡ with_text cs v.vga_color (position v) v.vga_buffer p
