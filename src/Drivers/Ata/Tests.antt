-- ===== src/Drivers/Ata/Tests.antt =====
-- A drive that is looked for, and the theorems on sectors at a concrete drive.
use vaelen.Prelude.{ℕ, ◌+◌, ◌%◌, ◌<◌, ◌≤◌, ◌≡◌, ◌⊎◌, refl, List, [], ◌∷◌, ◌++◌, some, none, arith}
use vaelen.Prelude.Int.{pos, negsuc}
use vaelen.Strings.{Bytes}
use vaelen.Drivers.Ata.{
  Ata, init_commands, ata_init, init_answered, after_poll, wait_data, wait_idle, poll, select,
  write_words, ata_read_sector,
}
use vaelen.Drivers.Ata.Transfer.{values, ata_read_sector-write_words}

abbrev counting : Bytes
counting a = a % 256

-- A drive that is busy twice, gets ready, is busy once more and has data.
abbrev drive : List ℕ → Ata
drive words = record {
  drive_present = 1;
  status = 0x80 ∷ 0x80 ∷ 0x50 ∷ 0x80 ∷ 0x58 ∷ 0x50 ∷ [];
  words = words;
  sent = [];
}

wait_idle-drive : wait_idle (drive []).status ≡ some (0x80 ∷ 0x58 ∷ 0x50 ∷ [])
unfolding wait_idle
wait_idle-drive = refl

poll-drive : poll (0x80 ∷ 0x58 ∷ 0x50 ∷ []) ≡ some (some 0x58, 0x50 ∷ [])
unfolding poll
poll-drive = refl

abbrev full : Ata
full = drive (values (write_words 256 0 1000 counting) ++ (7 ∷ []))

ata_read_sector-write_words_example :
    (after : Bytes) × (ata_read_sector 5 4096 counting full
      ≡ some (
        pos 0,
        record full { status = 0x50 ∷ []; words = 7 ∷ []; sent = full.sent ++ select 5 0x20 },
        after,
      ))
    × ((k : ℕ) → k < 512 → after (4096 + k) ≡ counting (1000 + k))
    × ((a : ℕ) → (a < 4096) ⊎ (4096 + 512 ≤ a) → after a ≡ counting a)
ata_read_sector-write_words_example =
    ata_read_sector-write_words 5 1000 4096 0x58 counting counting (0x80 ∷ 0x58 ∷ 0x50 ∷ [])
      (0x50 ∷ []) (7 ∷ []) full (λ a. omega arith) refl wait_idle-drive poll-drive refl

-- A drive that reports an error as soon as it is no longer busy: `ata_init` waits for ever.
init_waits :
    ata_init (record { drive_present = 0; status = 0x80 ∷ 0x51 ∷ 0x51 ∷ []; words = []; sent = [] })
    ≡ none
unfolding ata_init init_answered after_poll wait_data poll
init_waits = refl

nobody_there :
    ata_init (record { drive_present = 1; status = 0 ∷ []; words = []; sent = [] })
    ≡ some (negsuc 0, record { drive_present = 0; status = []; words = []; sent = init_commands })
unfolding ata_init init_answered
nobody_there = refl
