-- ===== src/Drivers/Keyboard.antt =====
-- drivers/keyboard.c: the key tables, the interrupt handler with its modifiers, and the ring of
-- characters that `keyboard_getchar` reads.
pub mod Letters
pub mod Queue
pub mod Stream
use vaelen.Prelude.{
  ℕ, ◌+◌, ◌-◌, ◌%◌, bit_and, Bool, true, false, not, ◌&&◌, ◌||◌, xor, Option, none, some, List, [],
  ◌∷◌, ltb, ◌==◌, if◌then◌else◌, length, get_or, update,
}

-- The static variables of keyboard.c.
pub record Keyboard : Type 0 where
  pub kb_buffer : ℕ → ℕ
  pub kb_buf_head : ℕ
  pub kb_buf_tail : ℕ
  pub kb_buf_count : ℕ
  pub shift_pressed : Bool
  pub caps_lock : Bool

-- Before the first interrupt.
abbrev pub blank : Keyboard
blank = record {
  kb_buffer = λ i. 0;
  kb_buf_head = 0;
  kb_buf_tail = 0;
  kb_buf_count = 0;
  shift_pressed = false;
  caps_lock = false;
}

abbrev pub kb_us : List ℕ
kb_us =
    0 ∷ 0 ∷ 49 ∷ 50 ∷ 51 ∷ 52 ∷ 53 ∷ 54 ∷ 55 ∷ 56 ∷ 57 ∷ 48 ∷ 45 ∷ 61 ∷ 8 ∷ 9 ∷ 113 ∷ 119 ∷ 101
    ∷ 114 ∷ 116 ∷ 121 ∷ 117 ∷ 105 ∷ 111 ∷ 112 ∷ 91 ∷ 93 ∷ 10 ∷ 0 ∷ 97 ∷ 115 ∷ 100 ∷ 102 ∷ 103 ∷ 104
    ∷ 106 ∷ 107 ∷ 108 ∷ 59 ∷ 39 ∷ 96 ∷ 0 ∷ 92 ∷ 122 ∷ 120 ∷ 99 ∷ 118 ∷ 98 ∷ 110 ∷ 109 ∷ 44 ∷ 46 ∷ 47
    ∷ 0 ∷ 42 ∷ 0 ∷ 32 ∷ 0 ∷ []

abbrev pub kb_us_shift : List ℕ
kb_us_shift =
    0 ∷ 0 ∷ 33 ∷ 64 ∷ 35 ∷ 36 ∷ 37 ∷ 94 ∷ 38 ∷ 42 ∷ 40 ∷ 41 ∷ 95 ∷ 43 ∷ 8 ∷ 9 ∷ 81 ∷ 87 ∷ 69 ∷ 82
    ∷ 84 ∷ 89 ∷ 85 ∷ 73 ∷ 79 ∷ 80 ∷ 123 ∷ 125 ∷ 10 ∷ 0 ∷ 65 ∷ 83 ∷ 68 ∷ 70 ∷ 71 ∷ 72 ∷ 74 ∷ 75 ∷ 76
    ∷ 58 ∷ 34 ∷ 126 ∷ 0 ∷ 124 ∷ 90 ∷ 88 ∷ 67 ∷ 86 ∷ 66 ∷ 78 ∷ 77 ∷ 60 ∷ 62 ∷ 63 ∷ 0 ∷ 42 ∷ 0 ∷ 32
    ∷ 0 ∷ []

-- `(scancode < sizeof(table)) ? table[scancode] : 0`
abbrev pub look_up : List ℕ → ℕ → ℕ
look_up table scancode = if ltb scancode (length table) then get_or table scancode 0 else 0

unfoldable pub decode : Keyboard → ℕ → ℕ
decode k scancode =
    if xor k.shift_pressed k.caps_lock then look_up kb_us_shift scancode else look_up kb_us scancode

-- `if (c && kb_buf_count < 256)`, and what it guards.
unfoldable pub put : ℕ → Keyboard → Keyboard
put c k =
    if not (c == 0) && ltb k.kb_buf_count 256
    then record k {
      kb_buffer = update k.kb_buffer k.kb_buf_tail c;
      kb_buf_tail = (k.kb_buf_tail + 1) % 256;
      kb_buf_count = k.kb_buf_count + 1;
    }
    else k

-- `keyboard_handler`, for the byte that it reads from port 0x60.
unfoldable pub handler : ℕ → Keyboard → Keyboard
unfolding put decode
handler scancode k =
    if scancode == 0x2A || scancode == 0x36
    then record k { shift_pressed = true }
    else if scancode == 0xAA || scancode == 0xB6
    then record k { shift_pressed = false }
    else if scancode == 0x3A
    then record k { caps_lock = not k.caps_lock }
    else if not (bit_and scancode 0x80 == 0)
    then k
    else put (decode k scancode) k

-- `keyboard_getchar`: the character and the new state, or none while it halts.
unfoldable pub getchar : Keyboard → Option (ℕ × Keyboard)
getchar k =
    if k.kb_buf_count == 0
    then none
    else some (
      k.kb_buffer k.kb_buf_head,
      record k { kb_buf_head = (k.kb_buf_head + 1) % 256; kb_buf_count = k.kb_buf_count - 1 },
    )

unfoldable pub haschar : Keyboard → Bool
haschar k = ltb 0 k.kb_buf_count
