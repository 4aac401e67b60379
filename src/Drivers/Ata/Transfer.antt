-- ===== src/Drivers/Ata/Transfer.antt =====
-- The 256 words of a sector that drivers/ata.c writes to the drive and reads from it.
use vaelen.Prelude.{
  ℕ, zero, suc, ◌+◌, ◌*◌, ◌/◌, ◌%◌, ◌^◌, ◌≤◌, ◌<◌, ◌≡◌, refl, ap, ◌∙◌, bit_and, bit_or, false, ◌==◌,
  update, List, ◌++◌, map, Option, none, some, arith, ◌⊎◌, inl, inr, dec_lt, ℕ_discrete, subst, sym,
}
use vaelen.Prelude.Bits.{bit_and-byte, bit_or-bytes}
use vaelen.Prelude.Int.{pos}
use vaelen.Drivers.Vga.{Ports}
use vaelen.Strings.{Bytes}
use vaelen.Drivers.Ata.{
  Ata, wait_idle, poll, select, read_words, write_words, ata_read_sector, read_when_idle,
  after_read,
}

-- Memory that holds a byte everywhere.
abbrev pub HoldsBytes : Bytes → Type 0
HoldsBytes m = (a : ℕ) → m a < 256

abbrev pub values : Ports → List ℕ
values = map (λ (sent : ℕ × ℕ). sent.1)

-- The word of two bytes, as it is written.
abbrev word_of : ℕ → ℕ → ℕ
word_of first second = bit_or first (second * 2 ^ 8) % 2 ^ 16

first-word_of : (a b : ℕ) → a < 256 → b < 256 → bit_and (word_of a b) 0xFF ≡ a
first-word_of a b ha hb = omega (arith, bit_and-byte (word_of a b), bit_or-bytes a b ha)

second-word_of : (a b : ℕ) → a < 256 → b < 256 → bit_and (word_of a b / 2 ^ 8) 0xFF ≡ b
second-word_of a b ha hb = omega (arith, bit_and-byte (word_of a b / 2 ^ 8), bit_or-bytes a b ha)

-- What the rounds from `i` on leave in memory, where they copy `n` words.
abbrev Copied : ℕ → ℕ → ℕ → ℕ → Bytes → Bytes → Bytes → Type 0
Copied n i from to source before after =
    ((k : ℕ) → i * 2 ≤ k → k < (i + n) * 2 → after (to + k) ≡ source (from + k))
    × ((a : ℕ) → (a < to + i * 2) ⊎ (to + (i + n) * 2 ≤ a) → after a ≡ before a)

-- One round: the memory with both bytes of a word.
abbrev put : ℕ → ℕ → ℕ → ℕ → Bytes → Bytes
put i to a b m =
    update (update m (to + i * 2) (bit_and (word_of a b) 0xFF)) (to + (i * 2 + 1))
      (bit_and (word_of a b / 2 ^ 8) 0xFF)

put-first : (i to a b : ℕ) (m : Bytes) → a < 256 → b < 256 → put i to a b m (to + i * 2) ≡ a
put-first i to a b m ha hb = ground (arith, first-word_of a b ha hb)

put-second : (i to a b : ℕ) (m : Bytes) → a < 256 → b < 256 → put i to a b m (to + (i * 2 + 1)) ≡ b
put-second i to a b m ha hb = ground (arith, second-word_of a b ha hb)

put-else :
    (i to a b x : ℕ) (m : Bytes)
    → (x < to + i * 2) ⊎ (to + (i + 1) * 2 ≤ x)
    → put i to a b m x ≡ m x
put-else i to a b x m (inl before) = ground arith
put-else i to a b x m (inr behind) = ground arith

Copied-suc :
    (n i from to : ℕ) (source before after : Bytes)
    → HoldsBytes source
    → Copied n
        (i + 1)
        from
        to
        source
        (put i to (source (from + i * 2)) (source (from + (i * 2 + 1))) before)
        after
    → Copied (suc n) i from to source before after
Copied-suc n i from to source before after bytes (copied, kept) = (all_copied, all_kept)
  where
    first : after (to + i * 2) ≡ source (from + i * 2)
    first =
        kept (to + i * 2) (inl (omega arith))
        ∙ put-first i to (source (from + i * 2)) (source (from + (i * 2 + 1))) before (bytes _)
            (bytes _)

    second : after (to + (i * 2 + 1)) ≡ source (from + (i * 2 + 1))
    second =
        kept (to + (i * 2 + 1)) (inl (omega arith))
        ∙ put-second i to (source (from + i * 2)) (source (from + (i * 2 + 1))) before (bytes _)
            (bytes _)

    all_copied : (k : ℕ) → i * 2 ≤ k → k < (i + suc n) * 2 → after (to + k) ≡ source (from + k)
    all_copied k low high = elim (dec_lt k (i * 2 + 2)) [
      | no late ↦ copied k (omega arith) (omega arith)
      | yes early ↦ elim (ℕ_discrete k (i * 2)) [
        | yes here ↦ subst (λ j. after (to + j) ≡ source (from + j)) (sym here) first
        | no there ↦
            subst (λ j. after (to + j) ≡ source (from + j)) {x = i * 2 + 1} {y = k} (omega arith)
              second
      ]
    ]

    all_kept : (x : ℕ) → (x < to + i * 2) ⊎ (to + (i + suc n) * 2 ≤ x) → after x ≡ before x
    all_kept x (inl out) =
        kept x (inl (omega arith))
        ∙ put-else i to (source (from + i * 2)) (source (from + (i * 2 + 1))) x before (inl out)
    all_kept x (inr out) =
        kept x (inr (omega arith))
        ∙ put-else i to (source (from + i * 2)) (source (from + (i * 2 + 1))) x before
            (inr (omega arith))

read_words-write_words :
    (n i from to : ℕ) (source before : Bytes) (rest : List ℕ)
    → HoldsBytes source
    → (after : Bytes) × (read_words n i (values (write_words n i from source) ++ rest) to before
        ≡ some (after, rest))
      × Copied n i from to source before after
unfolding read_words write_words
read_words-write_words zero i from to source before rest bytes =
    (before, refl, ((λ k low high. absurd (omega arith)), (λ a out. refl)))
read_words-write_words (suc n) i from to source before rest bytes =
    let later =
      read_words-write_words n (i + 1) from to source
        (put i to (source (from + i * 2)) (source (from + (i * 2 + 1))) before) rest bytes in
    (later.0, later.1, Copied-suc n i from to source before later.0 bytes later.2)

after_wait :
    (lba to : ℕ) (before : Bytes) (idle : List ℕ) (d : Ata)
    → (d.drive_present == 0) ≡ false
    → wait_idle d.status ≡ some idle
    → ata_read_sector lba to before d ≡ read_when_idle lba to before (record d { status = idle })
unfolding ata_read_sector
after_wait lba to before idle d present e = rw present rw e refl

after_answer :
    (lba to status : ℕ) (before after : Bytes) (left rest : List ℕ) (d : Ata)
    → poll d.status ≡ some (some status, left)
    → read_words 256 0 d.words to before ≡ some (after, rest)
    → read_when_idle lba to before d
      ≡ some
          (pos 0, record d { status = left; words = rest; sent = d.sent ++ select lba 0x20 }, after)
unfolding read_when_idle after_read
after_answer lba to status before after left rest d e_poll e_words =
    ap
      (λ (answer : Option (Option ℕ × List ℕ)). elim answer [
        | none ↦ none
        | some a ↦ after_read to before (record d { sent = d.sent ++ select lba 0x20 }) a
      ])
      e_poll
    ∙ ap
        (λ (copied : Option (Bytes × List ℕ)). elim copied [
          | none ↦ none
          | some (m', words) ↦ some (
            pos 0,
            record d { status = left; words = words; sent = d.sent ++ select lba 0x20 },
            m',
          )
        ])
        e_words

-- A drive that is present, gets ready, reports no error while it is busy and then gives the words
-- that `ata_write_sector` sends for the 512 bytes at `from`: `ata_read_sector` returns 0, has sent
-- the read command, has put those bytes at `to` and has changed no other byte.
pub ata_read_sector-write_words :
    (lba from to status : ℕ) (source before : Bytes) (idle left rest : List ℕ) (d : Ata)
    → HoldsBytes source
    → (d.drive_present == 0) ≡ false
    → wait_idle d.status ≡ some idle
    → poll idle ≡ some (some status, left)
    → d.words ≡ values (write_words 256 0 from source) ++ rest
    → (after : Bytes) × (ata_read_sector lba to before d
        ≡ some (
          pos 0,
          record d { status = left; words = rest; sent = d.sent ++ select lba 0x20 },
          after,
        ))
      × ((k : ℕ) → k < 512 → after (to + k) ≡ source (from + k))
      × ((a : ℕ) → (a < to) ⊎ (to + 512 ≤ a) → after a ≡ before a)
ata_read_sector-write_words lba from to status source before idle left rest d bytes present e_idle
      e_poll e_words =
    let read = read_words-write_words 256 0 from to source before rest bytes in
    (
      read.0,
      after_wait lba to before idle d present e_idle
          ∙ after_answer lba to status before read.0 left rest (record d { status = idle }) e_poll
              (ap (λ words. read_words 256 0 words to before) e_words ∙ read.1),
      (λ k below. read.2.0 k (omega arith) below),
      (λ a out. read.2.1 a (elim out [ inl h ↦ inl (omega arith) | inr h ↦ inr (omega arith) ])),
    )
