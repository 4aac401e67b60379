-- ===== src/Drivers/Ata.antt =====
-- drivers/ata.c: a drive on the primary channel, one sector at a time. A loop on the status port walks
-- the list of the answers that the port will give, and waits for ever where they run out.
pub mod Transfer
pub mod Address
mod Tests
use vaelen.Prelude.{
  ℕ, zero, suc, ◌+◌, ◌*◌, ◌/◌, ◌%◌, ◌^◌, bit_and, bit_or, Bool, true, false, not, ◌==◌,
  if◌then◌else◌, update, List, [], ◌∷◌, ◌++◌, Option, none, some,
}
use vaelen.Prelude.Int.{ℤ, pos, negsuc}
use vaelen.Drivers.Vga.{Ports}
use vaelen.Strings.{Bytes}

-- `ata_drive_present`, the answers that the status port and the data port will give, and what was
-- sent to the ports so far.
pub record Ata : Type 0 where
  pub drive_present : ℕ
  pub status : List ℕ
  pub words : List ℕ
  pub sent : Ports

abbrev pub busy : ℕ → Bool
busy status = not (bit_and status 0x80 == 0)

abbrev pub failed : ℕ → Bool
failed status = not (bit_and status 0x01 == 0)

-- `while (inb(ATA_PRIMARY_STATUS) & 0x80) {}`: the answers that are left.
unfoldable pub wait_idle : List ℕ → Option (List ℕ)
wait_idle [] = none
wait_idle (status ∷ more) = let rest = wait_idle more in if busy status then rest else some more

-- The first answer and the loop behind it: the last status read, if no error was seen, and the
-- answers that are left.
unfoldable pub poll : List ℕ → Option (Option ℕ × List ℕ)
poll [] = none
poll (status ∷ more) =
    let rest = poll more in
    if busy status
    then (if failed status then some (none, more) else rest)
    else some (some status, more)

-- `while ((status & 0x08) == 0)`, from a status on.
unfoldable pub wait_data : ℕ → List ℕ → Option (List ℕ)
wait_data status [] = if bit_and status 0x08 == 0 then none else some []
wait_data status (next ∷ more) =
    let rest = wait_data next more in if bit_and status 0x08 == 0 then rest else some (next ∷ more)

abbrev pub init_commands : Ports
init_commands =
    (0x1F6, 0xA0) ∷ (0x1F2, 0) ∷ (0x1F3, 0) ∷ (0x1F4, 0) ∷ (0x1F5, 0) ∷ (0x1F7, 0xEC) ∷ []

abbrev absent : List ℕ → Ata → ℤ × Ata
absent rest d = (negsuc 0, record d { drive_present = 0; status = rest })

unfoldable after_poll : Ata → Option ℕ × List ℕ → Option (ℤ × Ata)
after_poll d (none, rest) = some (absent rest d)
after_poll d (some status, rest) = elim (wait_data status rest) [
  | none ↦ none
  | some left ↦ some (pos 0, record d { drive_present = 1; status = left })
]

unfoldable init_answered : Ata → List ℕ → Option (ℤ × Ata)
unfolding after_poll
init_answered d [] = none
init_answered d (status ∷ more) =
    if status == 0
    then some (absent more d)
    else elim (poll (status ∷ more)) [ none ↦ none | some answer ↦ after_poll d answer ]

unfoldable pub ata_init : Ata → Option (ℤ × Ata)
unfolding init_answered
ata_init d = init_answered (record d { sent = d.sent ++ init_commands }) d.status

-- The six calls of `outb` for a sector and a command.
unfoldable pub select : ℕ → ℕ → Ports
select lba command =
    (0x1F6, bit_or 0xE0 (bit_and (lba / 2 ^ 24) 0x0F))
    ∷ (0x1F2, 1)
    ∷ (0x1F3, bit_and lba 0xFF)
    ∷ (0x1F4, bit_and (lba / 2 ^ 8) 0xFF)
    ∷ (0x1F5, bit_and (lba / 2 ^ 16) 0xFF)
    ∷ (0x1F7, command)
    ∷ []

-- The loop of `ata_read_sector` from `i` on, with `n` rounds left, for the words that the data port
-- will give: the memory, and the words that are left.
unfoldable pub read_words : ℕ → ℕ → List ℕ → ℕ → Bytes → Option (Bytes × List ℕ)
read_words zero i words buffer m = some (m, words)
read_words (suc n) i [] buffer m = none
read_words (suc n) i (word ∷ words) buffer m = read_words n (i + 1) words buffer (
    update (update m (buffer + i * 2) (bit_and word 0xFF)) (buffer + (i * 2 + 1))
      (bit_and (word / 2 ^ 8) 0xFF))

-- The loop of `ata_write_sector` likewise: the calls of `outw`.
unfoldable pub write_words : ℕ → ℕ → ℕ → Bytes → Ports
write_words zero i buffer m = []
write_words (suc n) i buffer m =
    (0x1F0, bit_or (m (buffer + i * 2)) (m (buffer + (i * 2 + 1)) * 2 ^ 8) % 2 ^ 16)
    ∷ write_words n (i + 1) buffer m

-- What follows the command in `ata_read_sector`.
unfoldable after_read : ℕ → Bytes → Ata → Option ℕ × List ℕ → Option (ℤ × Ata × Bytes)
after_read buffer m d (none, rest) = some (negsuc 0, record d { status = rest }, m)
after_read buffer m d (some status, rest) = elim (read_words 256 0 d.words buffer m) [
  | none ↦ none
  | some (m', words) ↦ some (pos 0, record d { status = rest; words = words }, m')
]

unfoldable read_when_idle : ℕ → ℕ → Bytes → Ata → Option (ℤ × Ata × Bytes)
unfolding after_read
read_when_idle lba buffer m d = elim (poll d.status) [
  | none ↦ none
  | some answer ↦ after_read buffer m (record d { sent = d.sent ++ select lba 0x20 }) answer
]

unfoldable pub ata_read_sector : ℕ → ℕ → Bytes → Ata → Option (ℤ × Ata × Bytes)
unfolding read_when_idle
ata_read_sector lba buffer m d =
    if d.drive_present == 0 then some (negsuc 0, d, m) else elim (wait_idle d.status) [
      | none ↦ none
      | some rest ↦ read_when_idle lba buffer m (record d { status = rest })
    ]

abbrev pub after_write : Ata → Option ℕ × List ℕ → ℤ × Ata
after_write d (none, rest) = (negsuc 0, record d { status = rest })
after_write d (some status, rest) = (pos 0, record d { status = rest })

unfoldable write_when_idle : ℕ → ℕ → Bytes → Ata → Option (ℤ × Ata)
write_when_idle lba buffer m d = elim (poll d.status) [
  | none ↦ none
  | some answer ↦ some (
      after_write (record d { sent = d.sent ++ (select lba 0x30 ++ write_words 256 0 buffer m) })
        answer)
]

unfoldable pub ata_write_sector : ℕ → ℕ → Bytes → Ata → Option (ℤ × Ata)
unfolding write_when_idle
ata_write_sector lba buffer m d =
    if d.drive_present == 0 then some (negsuc 0, d) else elim (wait_idle d.status) [
      | none ↦ none
      | some rest ↦ write_when_idle lba buffer m (record d { status = rest })
    ]

abbrev pub ata_is_present : Ata → ℕ
ata_is_present d = d.drive_present
