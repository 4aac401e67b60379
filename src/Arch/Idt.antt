-- ===== src/Arch/Idt.antt =====
-- arch/x86_64/idt.c: interrupt gates and the table that `idt_init` loads.
use vaelen.Prelude.{
  ℕ, zero, suc, ◌+◌, ◌-◌, ◌*◌, ◌/◌, ◌%◌, ◌^◌, ◌<◌, ◌≡◌, refl, ap, bit_and, Bool, true, false, ◌==◌,
  ◌||◌, ltb, if◌then◌else◌, arith, update, ℕ_discrete, dec_lt, lt→ltb, ◌≢◌, ◌≤◌, subst, sym,
}
use vaelen.Prelude.Bits.{bit_and-half_word}

-- `struct idt_entry`
pub record IdtEntry : Type 0 where
  pub base_lo : ℕ
  pub sel : ℕ
  pub always0 : ℕ
  pub flags : ℕ
  pub base_hi : ℕ

-- `struct idt_ptr`
pub record IdtPtr : Type 0 where
  pub limit : ℕ
  pub base : ℕ

-- The variables of idt.c.
pub record Idt : Type 0 where
  pub idt : ℕ → IdtEntry
  pub idtp : IdtPtr

abbrev pub zero_entry : IdtEntry
zero_entry = record { base_lo = 0; sel = 0; always0 = 0; flags = 0; base_hi = 0 }

unfoldable pub encode : ℕ → ℕ → ℕ → IdtEntry
encode base sel flags = record {
  base_lo = bit_and base 0xFFFF;
  base_hi = bit_and (base / 2 ^ 16) 0xFFFF;
  sel = sel;
  always0 = 0;
  flags = flags;
}

-- `idt_set_gate`
abbrev pub set_gate : ℕ → ℕ → ℕ → ℕ → (ℕ → IdtEntry) → ℕ → IdtEntry
set_gate num base sel flags table = update table num (encode base sel flags)

-- The run of `idt_set_gate` calls for the gates below `n`, in order.
unfoldable pub set_gates : (ℕ → ℕ) → ℕ → (ℕ → IdtEntry) → ℕ → IdtEntry
set_gates stub zero table = table
set_gates stub (suc n) table = set_gate n (stub n) 0x08 0x8E (set_gates stub n table)

-- `idt_init`, for the address of the table and the addresses of the assembly stubs: `stub n` is
-- `isr<n>` below 32, `irq<n - 32>` from there to 47, and `isr128`. `idt_flush` loads `idtp`.
unfoldable pub init : ℕ → (ℕ → ℕ) → Idt → Idt
init address stub g = record g {
  idtp = record { limit = 8 * 256 - 1; base = address };
  idt =
      set_gate 0x80 (stub 0x80) 0x08 0xEE
        (set_gates stub 48 (λ n. if ltb n 256 then zero_entry else g.idt n));
}

-- How the processor reads a gate: the offset in the code segment `sel` where it leads, whether it
-- is present, the lowest privilege that may raise it with an `int` instruction, and its type, which
-- is `interrupt_gate` for a 32-bit interrupt gate.
abbrev pub target_of : IdtEntry → ℕ
target_of e = e.base_lo + e.base_hi * 2 ^ 16

abbrev pub is_present : IdtEntry → Bool
is_present e = e.flags / 128 % 2 == 1

abbrev pub privilege_of : IdtEntry → ℕ
privilege_of e = e.flags / 32 % 4

abbrev pub type_of : IdtEntry → ℕ
type_of e = e.flags % 32

abbrev pub interrupt_gate : ℕ
interrupt_gate = 0x0E

-- The code segment of the kernel.
abbrev pub kernel_code : ℕ
kernel_code = 0x08

set_gates-at :
    (stub : ℕ → ℕ) (n k : ℕ) (table : ℕ → IdtEntry)
    → set_gates stub n table k ≡ (if ltb k n then encode (stub k) 0x08 0x8E else table k)
unfolding set_gates
set_gates-at stub zero k table = rw (nothing k) refl
  where
    nothing : (k : ℕ) → ltb k 0 ≡ false
    nothing k = ground arith
set_gates-at stub (suc n) k table = elim (ℕ_discrete n k) [
  | yes p ↦ rw (same n k p) rw (within n k p) (ap (λ (j : ℕ). encode (stub j) 0x08 0x8E) p)
  | no p ↦ rw (other n k p) rw (further n k p) (set_gates-at stub n k table)
]
  where
    same : (n k : ℕ) → n ≡ k → (n == k) ≡ true
    same n k p = ground arith

    within : (n k : ℕ) → n ≡ k → ltb k (suc n) ≡ true
    within n k p = ground arith

    other : (n k : ℕ) → n ≢ k → (n == k) ≡ false
    other n k p = ground arith

    further : (n k : ℕ) → n ≢ k → ltb k (suc n) ≡ ltb k n
    further n k p = ground arith

target-encode : (base sel flags : ℕ) → base < 2 ^ 32 → target_of (encode base sel flags) ≡ base
unfolding encode
target-encode base sel flags h =
    omega (arith, bit_and-half_word base, bit_and-half_word (base / 2 ^ 16))

flags-encode : (base sel flags : ℕ) → (encode base sel flags).flags ≡ flags
unfolding encode
flags-encode base sel flags = refl

sel-encode : (base sel flags : ℕ) → (encode base sel flags).sel ≡ sel
unfolding encode
sel-encode base sel flags = refl

always0-encode : (base sel flags : ℕ) → (encode base sel flags).always0 ≡ 0
unfolding encode
always0-encode base sel flags = refl

abbrev pub is_used : ℕ → Bool
is_used n = ltb n 48 || n == 0x80

-- What the processor finds at vector `n`, where the stub of `n` is at `target`.
abbrev pub GateOf : ℕ → ℕ → IdtEntry → Type 0
GateOf n target e =
    (is_present e ≡ is_used n)
    × (target_of e ≡ (if is_used n then target else 0))
    × (privilege_of e ≡ (if n == 0x80 then 3 else 0))
    × (e.sel ≡ (if is_used n then kernel_code else 0))
    × (type_of e ≡ (if is_used n then interrupt_gate else 0))
    × (e.always0 ≡ 0)

init-at :
    (address : ℕ) (stub : ℕ → ℕ) (g : Idt) (n : ℕ)
    → (init address stub g).idt n ≡ (
        if 0x80 == n
        then encode (stub 0x80) 0x08 0xEE
        else if ltb n 48
        then encode (stub n) 0x08 0x8E
        else if ltb n 256
        then zero_entry
        else g.idt n)
unfolding init
init-at address stub g n =
    rw (set_gates-at stub 48 n (λ k. if ltb k 256 then zero_entry else g.idt k)) refl

module _ (n : ℕ) where
  kernel_gate : (target : ℕ) → target < 2 ^ 32 → n < 48 → GateOf n target (encode target 0x08 0x8E)
  kernel_gate target word h =
      rw (flags-encode target 0x08 0x8E, sel-encode target 0x08 0x8E) rw
        (target-encode target 0x08 0x8E word, always0-encode target 0x08 0x8E)
        (ground arith, ground arith, ground arith, ground arith, ground arith, refl)

  no_gate : (target : ℕ) → 48 ≤ n → 128 ≢ n → GateOf n target zero_entry
  no_gate target h p = (ground arith, ground arith, ground arith, ground arith, ground arith, refl)

user_gate : (target : ℕ) → target < 2 ^ 32 → GateOf 0x80 target (encode target 0x08 0xEE)
user_gate target word =
    rw (flags-encode target 0x08 0xEE, sel-encode target 0x08 0xEE) rw
      (target-encode target 0x08 0xEE word, always0-encode target 0x08 0xEE)
      (refl, refl, refl, refl, refl, refl)

-- What the processor finds in the table after `idt_init`, for every vector, where the stubs have
-- addresses of 32 bits: a gate is present for the vectors below 48 and for 0x80 alone, each is a
-- 32-bit interrupt gate that leads to the stub of its own number in the kernel's code segment, and
-- only 0x80 can be raised from user mode; every other entry is zero in all these parts.
pub init-GateOf :
    (address : ℕ) (stub : ℕ → ℕ) (g : Idt) (n : ℕ)
    → ((k : ℕ) → stub k < 2 ^ 32)
    → n < 256
    → GateOf n (stub n) ((init address stub g).idt n)
init-GateOf address stub g n words h =
    subst (GateOf n (stub n)) (sym (init-at address stub g n)) elim (ℕ_discrete 0x80 n) [
      | yes p ↦ subst (λ k. GateOf k (stub k) (gate k)) p (user_gate (stub 0x80) (words 0x80))
      | no p ↦ elim (dec_lt n 48) [
        | yes q ↦
            subst (GateOf n (stub n)) (sym (low_gate n q p)) (kernel_gate n (stub n) (words n) q)
        | no q ↦
            subst (GateOf n (stub n)) (sym (high_gate n h q p)) (no_gate n (stub n) (omega arith) p)
      ]
    ]
  where
    gate : ℕ → IdtEntry
    gate k =
        if 0x80 == k
        then encode (stub 0x80) 0x08 0xEE
        else if ltb k 48
        then encode (stub k) 0x08 0x8E
        else if ltb k 256
        then zero_entry
        else g.idt k

    other : (k : ℕ) → 0x80 ≢ k → (0x80 == k) ≡ false
    other k p = ground arith

    above : (k : ℕ) → (k < 48 → ⊥) → ltb k 48 ≡ false
    above k p = ground arith

    low_gate : (k : ℕ) → k < 48 → 0x80 ≢ k → gate k ≡ encode (stub k) 0x08 0x8E
    low_gate k q p = rw (other k p) rw (lt→ltb k 48 q) refl

    high_gate : (k : ℕ) → k < 256 → (k < 48 → ⊥) → 0x80 ≢ k → gate k ≡ zero_entry
    high_gate k h q p = rw (other k p) rw (above k q) rw (lt→ltb k 256 h) refl
