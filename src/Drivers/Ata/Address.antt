-- ===== src/Drivers/Ata/Address.antt =====
-- The sector that the commands of drivers/ata.c select, and what `ata_write_sector` sends.
use vaelen.Prelude.{
  ℕ, ◌+◌, ◌*◌, ◌/◌, ◌%◌, ◌^◌, bit_and, bit_or, ◌==◌, if◌then◌else◌, List, [], ◌∷◌, Option, none,
  some, update,
}
use vaelen.Prelude.Int.{ℤ, pos, negsuc}
use vaelen.Drivers.Vga.{Ports}
use vaelen.Drivers.Ata.{Ata}

-- A command as a drive takes it when its code is written to the command port: `mode` is the upper
-- half of the drive register, 14 for a sector number (LBA) on the first drive, and the sector number
-- has 28 bits, the highest four from the lower half of that register.
pub record Command : Type 0 where
  pub code : ℕ
  pub count : ℕ
  pub mode : ℕ
  pub sector : ℕ

-- What a drive sees: a command, or a word on the data port.
pub data Event : Type 0 where
  command : Command → Event
  data_word : ℕ → Event

abbrev pub command_of : (ℕ → ℕ) → ℕ → Command
command_of registers code = record {
  code = code;
  count = registers 0x1F2;
  mode = registers 0x1F6 / 16;
  sector =
      registers 0x1F3
      + registers 0x1F4 * 2 ^ 8
      + registers 0x1F5 * 2 ^ 16
      + registers 0x1F6 % 16 * 2 ^ 24;
}

-- What a drive with the given registers sees of what is sent to the ports, in order: a command takes
-- the registers as they stand when it is sent.
unfoldable pub seen : (ℕ → ℕ) → Ports → List Event
seen registers [] = []
seen registers ((port, value) ∷ sent) =
    let rest = seen (update registers port value) sent in
    if port == 0x1F7
    then command (command_of registers value) ∷ rest
    else if port == 0x1F0
    then data_word value ∷ rest
    else rest

-- One sector is to be written or read, by its number, on the first drive.
abbrev pub single_sector : ℕ → ℕ → Command
single_sector code sector = record { code = code; count = 1; mode = 14; sector = sector }

module _ (lba : ℕ) where
  abbrev drive_byte : ℕ
  drive_byte = bit_or 0xE0 (bit_and (lba / 2 ^ 24) 0x0F)

-- The registers of a drive after the six calls of `outb`.
abbrev selected : ℕ → ℕ → (ℕ → ℕ) → ℕ → ℕ
selected lba code registers =
    let drive = update registers 0x1F6 (drive_byte lba) in
    let low = update (update drive 0x1F2 1) 0x1F3 (bit_and lba 0xFF) in
    let middle = update low 0x1F4 (bit_and (lba / 2 ^ 8) 0xFF) in
    update (update middle 0x1F5 (bit_and (lba / 2 ^ 16) 0xFF)) 0x1F7 code

-- 0 where no error was seen, else -1.
abbrev pub returned : Option ℕ → ℤ
returned none = negsuc 0
returned (some status) = pos 0
