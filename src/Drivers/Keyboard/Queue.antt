-- ===== src/Drivers/Keyboard/Queue.antt =====
-- The ring of drivers/keyboard.c against a queue of at most 256 characters.
use vaelen.Prelude.{
  ℕ, zero, suc, ◌+◌, ◌%◌, ◌≤◌, ◌<◌, ◌≡◌, refl, ap, ap₂, ◌∙◌, Bool, true, false, not, ◌&&◌, none,
  some, List, [], ◌∷◌, ◌++◌, ltb, ◌==◌, if◌then◌else◌, length, update, arith, bit_and, ◌||◌,
  Bool-cases, inl, inr, leb, ◌⊎◌, ◌-◌,
}
use vaelen.Prelude.Bits.{all_below, all_below_sound}
use vaelen.Drivers.Keyboard.{Keyboard, decode, put, handler, getchar, haschar}

-- The `n` characters from the index `i` of the ring on.
abbrev pub from : ℕ → ℕ → (ℕ → ℕ) → List ℕ
from zero i buffer = []
from (suc n) i buffer = buffer i ∷ from n ((i + 1) % 256) buffer

-- What a reader has yet to get, in order.
abbrev pub contents : Keyboard → List ℕ
contents k = from k.kb_buf_count k.kb_buf_head k.kb_buffer

-- Head, tail and count agree.
pub record IsRing (k : Keyboard) : Type 0 where
  pub head_bound : k.kb_buf_head < 256
  pub count_bound : k.kb_buf_count ≤ 256
  pub tail_place : k.kb_buf_tail ≡ (k.kb_buf_head + k.kb_buf_count) % 256

-- A write behind the next `n` characters changes none of them.
from-update :
    (n d i v : ℕ) (buffer : ℕ → ℕ)
    → i < 256
    → n ≤ d
    → d < 256
    → from n i (update buffer ((i + d) % 256) v) ≡ from n i buffer
from-update zero d i v buffer hi hn hd = refl
from-update (suc n) zero i v buffer hi hn hd = absurd (omega arith)
from-update (suc n) (suc d) i v buffer hi hn hd = ap₂ ◌∷◌ (ground arith) (
    ap (λ (j : ℕ). from n ((i + 1) % 256) (update buffer j v)) (omega arith)
    ∙ from-update n d ((i + 1) % 256) v buffer (omega arith) (omega arith) (omega arith))

from-snoc :
    (n i : ℕ) (buffer : ℕ → ℕ)
    → i < 256
    → from (suc n) i buffer ≡ from n i buffer ++ (buffer ((i + n) % 256) ∷ [])
from-snoc zero i buffer hi = ap (λ (j : ℕ). buffer j ∷ []) (omega arith)
from-snoc (suc n) i buffer hi =
    ap (λ (xs : List ℕ). buffer i ∷ xs)
      (from-snoc n ((i + 1) % 256) buffer (omega arith)
        ∙ ap (λ (j : ℕ). from n ((i + 1) % 256) buffer ++ (buffer j ∷ [])) (omega arith))

-- A queue that takes no character 0 and no more than 256 characters.
abbrev pub enqueue : ℕ → List ℕ → List ℕ
enqueue c q = if not (c == 0) && ltb (length q) 256 then q ++ (c ∷ []) else q

length-from : (n i : ℕ) (buffer : ℕ → ℕ) → length (from n i buffer) ≡ n
length-from zero i buffer = refl
length-from (suc n) i buffer = ap suc (length-from n ((i + 1) % 256) buffer)

pub put-IsRing : (c : ℕ) (k : Keyboard) → IsRing k → IsRing (put c k)
unfolding put
put-IsRing c k ring = elim (Bool-cases (not (c == 0) && ltb k.kb_buf_count 256)) [
  | inl taken ↦ rw taken record {
    head_bound = ring.head_bound;
    count_bound = ground (arith, ring.count_bound);
    tail_place = omega (arith, ring.tail_place);
  }
  | inr refused ↦ rw refused ring
]

from-append :
    (k : Keyboard) (c : ℕ)
    → IsRing k
    → k.kb_buf_count < 256
    → from (k.kb_buf_count + 1) k.kb_buf_head (update k.kb_buffer k.kb_buf_tail c)
      ≡ contents k ++ (c ∷ [])
from-append k c ring h =
    let place = (k.kb_buf_head + k.kb_buf_count) % 256 in
    ap₂ (λ (n j : ℕ). from n k.kb_buf_head (update k.kb_buffer j c)) {y = suc k.kb_buf_count}
      (omega arith) ring.tail_place
    ∙ from-snoc k.kb_buf_count k.kb_buf_head (update k.kb_buffer place c) ring.head_bound
    ∙ ap₂ (λ (xs : List ℕ) (x : ℕ). xs ++ (x ∷ []))
        (from-update k.kb_buf_count k.kb_buf_count k.kb_buf_head c k.kb_buffer ring.head_bound
          (omega arith) h)
        (ground arith)

pub contents-put : (c : ℕ) (k : Keyboard) → IsRing k → contents (put c k) ≡ enqueue c (contents k)
unfolding put
contents-put c k ring =
    rw (length-from k.kb_buf_count k.kb_buf_head k.kb_buffer)
      elim (Bool-cases (not (c == 0) && ltb k.kb_buf_count 256)) [
        | inl taken ↦ rw taken (from-append k c ring (ground arith))
        | inr refused ↦ rw refused refl
      ]

-- The character that a scancode stands for, 0 for the keys that only change a modifier and for the
-- codes of a released key, which have bit 7 set.
abbrev pub typed : Keyboard → ℕ → ℕ
typed k scancode =
    if scancode == 0x2A || scancode == 0x36
    then 0
    else if scancode == 0x3A || leb 128 scancode
    then 0
    else decode k scancode

release_table :
    all_below 256 (λ s. if leb 128 s then not (bit_and s 0x80 == 0) else (bit_and s 0x80 == 0))
    ≡ true
unfolding all_below
release_table = refl

release_bit : (s : ℕ) → s < 256 → not (bit_and s 0x80 == 0) ≡ leb 128 s
release_bit s h = ground (arith, all_below_sound 256 _ s release_table h)

released : (s : ℕ) → (s == 0xAA || s == 0xB6) ≡ true → (s == 0x3A || leb 128 s) ≡ true
released s e = ground arith

IsRing-modifiers :
    (k : Keyboard) (shift caps : Bool)
    → IsRing k
    → IsRing (record k { shift_pressed = shift; caps_lock = caps })
IsRing-modifiers k shift caps ring = record {
  head_bound = ring.head_bound;
  count_bound = ring.count_bound;
  tail_place = ring.tail_place;
}

-- An interrupt with any scancode keeps the ring's head, tail and count in agreement, and does to the
-- waiting characters what a queue of at most 256 does: the character of the key is added behind
-- them, unless there is none or the queue is full.
pub handler-Queue :
    (k : Keyboard) (scancode : ℕ)
    → IsRing k
    → scancode < 256
    → IsRing (handler scancode k)
      × (contents (handler scancode k) ≡ enqueue (typed k scancode) (contents k))
unfolding handler
handler-Queue k scancode ring h = elim (Bool-cases (scancode == 0x2A || scancode == 0x36)) [
  | inl e ↦ rw e (IsRing-modifiers k true k.caps_lock ring, refl)
  | inr e ↦ rw e elim (Bool-cases (scancode == 0xAA || scancode == 0xB6)) [
    | inl e ↦ rw e rw (released scancode e) (IsRing-modifiers k false k.caps_lock ring, refl)
    | inr e ↦ rw e elim (Bool-cases (scancode == 0x3A)) [
      | inl e ↦ rw e (IsRing-modifiers k k.shift_pressed (not k.caps_lock) ring, refl)
      | inr e ↦ rw e rw (release_bit scancode h) elim (Bool-cases (leb 128 scancode)) [
        | inl e ↦ rw e (ring, refl)
        | inr e ↦
            rw e (put-IsRing (decode k scancode) k ring, contents-put (decode k scancode) k ring)
      ]
    ]
  ]
]

from-front :
    (n i : ℕ) (buffer : ℕ → ℕ)
    → from n i buffer ≡ (if n == 0 then [] else buffer i ∷ from (n - 1) ((i + 1) % 256) buffer)
from-front zero i buffer = refl
from-front (suc n) i buffer = ground arith

-- A read either finds no waiting character, and then `keyboard_haschar` says so, or takes the first
-- of them, leaves the others in order and keeps the ring's head, tail and count in agreement.
pub getchar-Queue :
    (k : Keyboard)
    → IsRing k
    → ((getchar k ≡ none) × (haschar k ≡ false) × (contents k ≡ []))
      ⊎ ((c : ℕ) × (k' : Keyboard) × (getchar k ≡ some (c, k'))
          × (haschar k ≡ true)
          × IsRing k'
          × (contents k ≡ c ∷ contents k'))
unfolding getchar haschar
getchar-Queue k ring =
    rw (from-front k.kb_buf_count k.kb_buf_head k.kb_buffer)
      elim (Bool-cases (k.kb_buf_count == 0)) [
        | inl e ↦ rw e (inl (refl, ground arith, refl))
        | inr e ↦ rw e (
            inr (
              _,
              _,
              refl,
              ground arith,
              record {
                head_bound = omega arith;
                count_bound = omega (arith, ring.count_bound);
                tail_place = ground (arith, ring.tail_place, ring.head_bound);
              },
              refl,
            ))
      ]
