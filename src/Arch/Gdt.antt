-- ===== src/Arch/Gdt.antt =====
-- arch/x86_64/gdt.c: segment descriptors and the table that `gdt_init` loads.
use vaelen.Prelude.{
  ℕ, ◌+◌, ◌-◌, ◌*◌, ◌/◌, ◌%◌, ◌^◌, ◌<◌, ◌≡◌, refl, bit_and, bit_or, ◌==◌, true, arith, update,
}
use vaelen.Prelude.{==_iff}
use vaelen.Prelude.Bits.{
  all_below, all_below_sound, bit_and-nibble, bit_and-byte, bit_and-half_word,
}

-- `struct gdt_entry`
pub record GdtEntry : Type 0 where
  pub limit_low : ℕ
  pub base_low : ℕ
  pub base_middle : ℕ
  pub access : ℕ
  pub granularity : ℕ
  pub base_high : ℕ

-- `struct gdt_ptr`
pub record GdtPtr : Type 0 where
  pub limit : ℕ
  pub base : ℕ

-- The variables of gdt.c.
pub record Gdt : Type 0 where
  pub gdt : ℕ → GdtEntry
  pub gp : GdtPtr

abbrev pub gdt_entries : ℕ
gdt_entries = 5

unfoldable pub encode : ℕ → ℕ → ℕ → ℕ → GdtEntry
encode base limit access gran = record {
  base_low = bit_and base 0xFFFF;
  base_middle = bit_and (base / 2 ^ 16) 0xFF;
  base_high = bit_and (base / 2 ^ 24) 0xFF;
  limit_low = bit_and limit 0xFFFF;
  granularity = bit_or (bit_and (limit / 2 ^ 16) 0x0F) (bit_and gran 0xF0);
  access = access;
}

-- `gdt_set_gate`
unfoldable pub set_gate : ℕ → ℕ → ℕ → ℕ → ℕ → Gdt → Gdt
unfolding encode
set_gate num base limit access gran g = record g {
  gdt = update g.gdt num (encode base limit access gran);
}

-- `gdt_init`, for the address of the table; `gdt_flush` loads what `gp` points to.
unfoldable pub init : ℕ → Gdt → Gdt
unfolding set_gate
init address g = set_gate 4 0 0xFFFFFFFF 0xF2 0xCF (
    set_gate 3 0 0xFFFFFFFF 0xFA 0xCF (
      set_gate 2 0 0xFFFFFFFF 0x92 0xCF (
        set_gate 1 0 0xFFFFFFFF 0x9A 0xCF (
          set_gate 0 0 0 0 0
            (record g { gp = record { limit = 8 * gdt_entries - 1; base = address } })))))

-- How the processor reads a descriptor: the base, the limit of 20 bits and the four flags.
abbrev pub base_of : GdtEntry → ℕ
base_of e = e.base_low + e.base_middle * 2 ^ 16 + e.base_high * 2 ^ 24

abbrev pub limit_of : GdtEntry → ℕ
limit_of e = e.limit_low + e.granularity % 16 * 2 ^ 16

abbrev pub flags_of : GdtEntry → ℕ
flags_of e = e.granularity / 16

nibbles_table :
    all_below 16 (λ l. all_below 256 (λ g. bit_or l (bit_and g 0xF0) == l + g / 16 * 16)) ≡ true
unfolding all_below
nibbles_table = refl

nibbles : (l g : ℕ) → l < 16 → g < 256 → bit_or l (bit_and g 0xF0) ≡ l + g / 16 * 16
nibbles l g hl hg =
    (==_iff _ _).0 (all_below_sound 256 _ g (all_below_sound 16 _ l nibbles_table hl) hg)

-- A descriptor that `gdt_set_gate` writes is read back by the processor with the base that was
-- given, the low 20 bits of the limit, the access byte and the high four bits of `gran`, whatever
-- 32-bit base and limit and bytes are given.
pub encode-decode :
    (base limit access gran : ℕ)
    → base < 2 ^ 32
    → gran < 256
    → (base_of (encode base limit access gran) ≡ base)
      × (limit_of (encode base limit access gran) ≡ limit % 2 ^ 20)
      × ((encode base limit access gran).access ≡ access)
      × (flags_of (encode base limit access gran) ≡ gran / 16)
unfolding encode
encode-decode base limit access gran hb hg =
    rw (bit_and-nibble (limit / 2 ^ 16)) rw (nibbles (limit / 2 ^ 16 % 16) gran (omega arith) hg) (
      omega (
        arith,
        bit_and-half_word base,
        bit_and-byte (base / 2 ^ 16),
        bit_and-byte (base / 2 ^ 24),
      ),
      omega (arith, bit_and-half_word limit),
      refl,
      omega arith,
    )
