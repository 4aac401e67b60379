-- ===== src/Drivers/Keyboard/Stream.antt =====
-- Interrupts and reads of drivers/keyboard.c in any order: what is read, and what still waits.
use mathlib.Core.List.{append_assoc, append-nil}
use vaelen.Prelude.{
  ℕ, suc, ◌+◌, ◌≤◌, ◌<◌, ◌≡◌, refl, ap, ap₂, sym, ◌∙◌, Bool, true, false, not, ◌&&◌, ◌||◌, ltb,
  ◌==◌, if◌then◌else◌, Option, none, some, List, [], ◌∷◌, ◌++◌, length, arith, Bool-cases, inl, inr,
  bit_and,
}
use vaelen.Drivers.Keyboard.{Keyboard, blank, put, decode, handler, getchar}
use vaelen.Drivers.Keyboard.Queue.{IsRing, contents, enqueue, typed, handler-Queue, getchar-Queue}

-- An interrupt with the scancode that the port gives, or a look for a character.
pub data Event : Type 0 where
  press : ℕ → Event
  look : Event

-- The characters that are read, in order, and the keyboard then; a look at an empty ring finds none.
unfoldable pub run : List Event → Keyboard → List ℕ × Keyboard
run [] k = ([], k)
run (press scancode ∷ events) k = run events (handler scancode k)
run (look ∷ events) k = elim (getchar k) [
  | none ↦ run events k
  | some found ↦ (found.0 ∷ (run events found.1).0, (run events found.1).1)
]

-- What a scancode does to Shift and to Caps Lock.
abbrev pub shift_after : ℕ → Bool → Bool
shift_after scancode shift =
    if scancode == 0x2A || scancode == 0x36
    then true
    else if scancode == 0xAA || scancode == 0xB6
    then false
    else shift

abbrev pub caps_after : ℕ → Bool → Bool
caps_after scancode caps = if scancode == 0x3A then not caps else caps

-- The character of a key under these modifiers, if it has one.
abbrev pub symbol : ℕ → Bool → Bool → List ℕ
symbol scancode shift caps =
    let c = typed (record blank { shift_pressed = shift; caps_lock = caps }) scancode in
    if c == 0 then [] else c ∷ []

-- What is typed, read off the scancodes alone.
abbrev pub characters : List Event → Bool → Bool → List ℕ
characters [] shift caps = []
characters (press scancode ∷ events) shift caps =
    symbol scancode shift caps
    ++ characters events (shift_after scancode shift) (caps_after scancode caps)
characters (look ∷ events) shift caps = characters events shift caps

abbrev pub presses : List Event → ℕ
presses [] = 0
presses (press scancode ∷ events) = suc (presses events)
presses (look ∷ events) = presses events

abbrev pub AllCodes : List Event → Type 0
AllCodes [] = Unit {0}
AllCodes (press scancode ∷ events) = (scancode < 256) × AllCodes events
AllCodes (look ∷ events) = AllCodes events

put-modifiers :
    (c : ℕ) (k : Keyboard)
    → ((put c k).shift_pressed ≡ k.shift_pressed) × ((put c k).caps_lock ≡ k.caps_lock)
unfolding put
put-modifiers c k = elim (Bool-cases (not (c == 0) && ltb k.kb_buf_count 256)) [
  | inl e ↦ rw e (refl, refl)
  | inr e ↦ rw e (refl, refl)
]

-- The keys that change a modifier are three different ones.
shift_key : (s : ℕ) → (s == 0x2A || s == 0x36) ≡ true → (s == 0x3A) ≡ false
shift_key s e = ground arith

release_key : (s : ℕ) → (s == 0xAA || s == 0xB6) ≡ true → (s == 0x3A) ≡ false
release_key s e = ground arith

handler-modifiers :
    (s : ℕ) (k : Keyboard)
    → ((handler s k).shift_pressed ≡ shift_after s k.shift_pressed)
      × ((handler s k).caps_lock ≡ caps_after s k.caps_lock)
unfolding handler
handler-modifiers s k = elim (Bool-cases (s == 0x2A || s == 0x36)) [
  | inl e ↦ rw e rw (shift_key s e) (refl, refl)
  | inr e ↦ rw e elim (Bool-cases (s == 0xAA || s == 0xB6)) [
    | inl e ↦ rw e rw (release_key s e) (refl, refl)
    | inr e ↦ rw e elim (Bool-cases (s == 0x3A)) [
      | inl e ↦ rw e (refl, refl)
      | inr e ↦ rw e elim (Bool-cases (not (bit_and s 0x80 == 0))) [
        | inl e ↦ rw e (refl, refl)
        | inr e ↦ rw e (put-modifiers (decode k s) k)
      ]
    ]
  ]
]

enqueue-room :
    (c : ℕ) (q : List ℕ) → length q < 256 → enqueue c q ≡ q ++ (if c == 0 then [] else c ∷ [])
enqueue-room c q room = elim (Bool-cases (c == 0)) [
  | inl e ↦ rw e (sym (append-nil q))
  | inr e ↦ rw e rw (fits (length q) room) refl
]
  where
    fits : (n : ℕ) → n < 256 → ltb n 256 ≡ true
    fits n h = ground arith

contents-handler :
    (s : ℕ) (k : Keyboard)
    → IsRing k
    → s < 256
    → length (contents k) < 256
    → contents (handler s k) ≡ contents k ++ symbol s k.shift_pressed k.caps_lock
unfolding decode
contents-handler s k ring code room =
    (handler-Queue k s ring code).1 ∙ enqueue-room (typed k s) (contents k) room

abbrev flags : Keyboard → Bool × Bool
flags k = (k.shift_pressed, k.caps_lock)

flags_of : Keyboard → Option (ℕ × Keyboard) → Bool × Bool
flags_of k none = flags k
flags_of k (some (c, k')) = flags k'

flags_of-getchar : (k : Keyboard) → flags_of k (getchar k) ≡ flags k
unfolding getchar flags_of
flags_of-getchar k = elim (Bool-cases (k.kb_buf_count == 0)) [
  | inl e ↦ rw e refl
  | inr e ↦ rw e refl
]

getchar-modifiers : (k k' : Keyboard) (c : ℕ) → getchar k ≡ some (c, k') → flags k' ≡ flags k
unfolding flags_of
getchar-modifiers k k' c e = sym (ap (flags_of k) e) ∙ flags_of-getchar k

length-symbol : (s : ℕ) (shift caps : Bool) → length (symbol s shift caps) ≤ 1
length-symbol s shift caps =
    at_most (typed (record blank { shift_pressed = shift; caps_lock = caps }) s)
  where
    at_most : (c : ℕ) → length (if c == 0 then [] else c ∷ []) ≤ 1
    at_most c = elim (Bool-cases (c == 0)) [
      | inl e ↦ rw e (omega arith)
      | inr e ↦ rw e (omega arith)
    ]

length-append : (xs ys : List ℕ) → length (xs ++ ys) ≡ length xs + length ys
length-append [] ys = omega arith
length-append (x ∷ xs) ys = omega (arith, length-append xs ys)

-- What waits, and what is typed from here on.
abbrev pub due : List Event → Keyboard → List ℕ
due events k = contents k ++ characters events k.shift_pressed k.caps_lock

-- Interrupts and reads in any order, while the ring has room for a character of each interrupt: what is
-- read and what then waits are together exactly what waited before and what the scancodes type,
-- so no character is lost, repeated or out of order; and the ring's indices still agree.
pub run-due :
    (events : List Event) (k : Keyboard)
    → IsRing k
    → AllCodes events
    → length (contents k) + presses events ≤ 256
    → IsRing (run events k).1 × ((run events k).0 ++ contents (run events k).1 ≡ due events k)
unfolding run
run-due [] k ring codes room = (ring, sym (append-nil (contents k)))
run-due (press s ∷ events) k ring (code, codes) room =
    let typed_now = contents-handler s k ring code (omega (arith, room)) in
    let changed = handler-modifiers s k in
    let rest = run-due events (handler s k) (handler-Queue k s ring code).0 codes (
      omega (
        arith,
        room,
        ap length typed_now,
        length-append (contents k) (symbol s k.shift_pressed k.caps_lock),
        length-symbol s k.shift_pressed k.caps_lock,
      )) in
    (
      rest.0,
      rest.1
          ∙ ap₂ (λ (q more : List ℕ). q ++ more) typed_now
              (ap₂ (λ (shift caps : Bool). characters events shift caps) changed.0 changed.1)
          ∙ append_assoc (contents k) _ _,
    )
run-due (look ∷ events) k ring codes room = elim (getchar-Queue k ring) [
  | inl (none_found, empty, nothing) ↦ rw (none_found, run) (run-due events k ring codes room)
  | inr (c, k', found, waiting, ring', front) ↦
      let kept = getchar-modifiers k k' c found in
      let rest = run-due events k' ring' codes (omega (arith, room, ap length front)) in
      rw (found, run)
        (
          rest.0,
          ap (λ (cs : List ℕ). c ∷ cs)
                (rest.1 ∙ ap (λ (f : Bool × Bool). contents k' ++ characters events f.0 f.1) kept)
              ∙ ap (λ (q : List ℕ). q ++ characters events k.shift_pressed k.caps_lock) (sym front),
        )
]
