-- ===== src/Drivers/Keyboard/Letters.antt =====
-- The two key tables of drivers/keyboard.c: what the modifiers do to a letter.
use vaelen.Prelude.{
  ℕ, ◌-◌, ◌<◌, ◌≡◌, refl, Bool, true, not, ◌&&◌, xor, ◌||◌, leb, ◌==◌, if◌then◌else◌, arith,
}
use vaelen.Prelude.Bits.{all_below, all_below_sound}
use vaelen.Drivers.Keyboard.{Keyboard, kb_us, kb_us_shift, look_up, decode}

abbrev pub is_letter : ℕ → Bool
is_letter c = leb 97 c && leb c 122

-- The tables side by side: a letter and its capital stand in the same place.
capital_table :
    all_below 59
      (λ s. not (is_letter (look_up kb_us s)) || (look_up kb_us_shift s == look_up kb_us s - 32))
    ≡ true
unfolding all_below
capital_table = refl

inside : (s : ℕ) → is_letter (look_up kb_us s) ≡ true → s < 59
inside s e = ground arith

capital :
    (s : ℕ) → is_letter (look_up kb_us s) ≡ true → look_up kb_us_shift s ≡ look_up kb_us s - 32
capital s e = ground (arith, all_below_sound 59 _ s capital_table (inside s e))

-- A key that types a small letter types the capital when exactly one of Shift and Caps Lock is on.
pub decode-letter :
    (k : Keyboard) (s : ℕ)
    → is_letter (look_up kb_us s) ≡ true
    → decode k s
      ≡ (if xor k.shift_pressed k.caps_lock then look_up kb_us s - 32 else look_up kb_us s)
unfolding decode
decode-letter k s e = rw (capital s e) refl
