-- ===== src/Arch/Interrupts/Frame.antt =====
-- What arch/x86_64/isr.c makes of the stack that arch/x86_64/irq.s leaves to it.
use mathlib.Core.List.{append_assoc}
use vaelen.Prelude.{
  ℕ, ◌-◌, ◌<◌, ◌≡◌, ◌≢◌, refl, ◌==◌, ==_differ, leb, not, if◌then◌else◌, Option, none, some, List,
  [], ◌∷◌, ◌++◌, Bool-cases, inl, inr, ◌∙◌, ℕ_discrete, subst, lt→ltb,
}
use vaelen.Drivers.Vga.{Ports}
use vaelen.Arch.Interrupts.{Handler, Interrupts, Registers, called, isr_handler, irq_handler, boot}

-- The registers of the code that is interrupted.
pub record Interrupted : Type 0 where
  pub gs : ℕ
  pub fs : ℕ
  pub es : ℕ
  pub ds : ℕ
  pub edi : ℕ
  pub esi : ℕ
  pub ebp : ℕ
  pub esp : ℕ
  pub ebx : ℕ
  pub edx : ℕ
  pub ecx : ℕ
  pub eax : ℕ
  pub eip : ℕ
  pub cs : ℕ
  pub eflags : ℕ

-- The words of a list, and behind them those of another stack.
abbrev pub on_top : List ℕ → (ℕ → ℕ) → ℕ → ℕ
on_top [] stack i = stack i
on_top (w ∷ ws) stack i = if i == 0 then w else on_top ws stack (i - 1)

-- The stack of the common stubs of irq.s at the call of `isr_handler` or `irq_handler`, word by word
-- from the address that they hand over: the four segment registers, the eight of `pusha`, the
-- number of the vector and the error code, and what the processor pushed.
unfoldable pub pushed : Interrupted → ℕ → ℕ → (ℕ → ℕ) → ℕ → ℕ
pushed cpu vector err_code = on_top (
    cpu.gs ∷ cpu.fs ∷ cpu.es ∷ cpu.ds ∷ cpu.edi ∷ cpu.esi ∷ cpu.ebp ∷ cpu.esp ∷ cpu.ebx ∷ cpu.edx
    ∷ cpu.ecx ∷ cpu.eax ∷ vector ∷ err_code ∷ cpu.eip ∷ cpu.cs ∷ cpu.eflags ∷ [])

-- `*regs`, where `regs` points to these words.
unfoldable pub registers_of : (ℕ → ℕ) → Registers
registers_of words = record {
  ds = words 0;
  edi = words 1;
  esi = words 2;
  ebp = words 3;
  esp = words 4;
  ebx = words 5;
  edx = words 6;
  ecx = words 7;
  eax = words 8;
  int_no = words 9;
  err_code = words 10;
  eip = words 11;
  cs = words 12;
  eflags = words 13;
  useresp = words 14;
  ss = words 15;
}

-- What the controllers see of an interrupt that is dispatched by the index `n` of the table: the
-- slave is told only from 40 on.
abbrev pub acknowledged : ℕ → Ports
acknowledged n = if leb 40 n then (0xA0, 0x20) ∷ (0x20, 0x20) ∷ [] else (0x20, 0x20) ∷ []

-- The handlers that `kernel_main` leaves in the table: the timer's at 32 and the keyboard's at 33.
abbrev pub booted : Handler → Handler → ℕ → Option Handler
booted timer_handler keyboard_handler n =
    if 32 == n then some timer_handler else if 33 == n then some keyboard_handler else none

int_no-pushed :
    (cpu : Interrupted) (vector err_code : ℕ) (stack : ℕ → ℕ)
    → (registers_of (pushed cpu vector err_code stack)).int_no ≡ cpu.edx
unfolding registers_of pushed
int_no-pushed cpu vector err_code stack = refl

irq_handler-called :
    (regs : Registers) (s : Interrupts) → (irq_handler regs s).0 ≡ called regs.int_no s
unfolding irq_handler
irq_handler-called regs s = elim (Bool-cases (leb 40 regs.int_no)) [
  | inl e ↦ rw e refl
  | inr e ↦ rw e refl
]

irq_handler-ports :
    (regs : Registers) (s : Interrupts)
    → (irq_handler regs s).1.ports ≡ s.ports ++ acknowledged regs.int_no
unfolding irq_handler
irq_handler-ports regs s = elim (Bool-cases (leb 40 regs.int_no)) [
  | inl e ↦ rw e (append_assoc s.ports ((0xA0, 0x20) ∷ []) ((0x20, 0x20) ∷ []))
  | inr e ↦ rw e refl
]

-- What a table entry is called as.
call : Handler → Option Handler
call h = if not (h == 0) then some h else none

call-given : (h : Handler) → h ≢ 0 → call h ≡ some h
unfolding call
call-given h given = rw (==_differ h 0 given) refl

called-boot :
    (timer_handler keyboard_handler : Handler) (s : Interrupts) (n : ℕ)
    → timer_handler ≢ 0
    → keyboard_handler ≢ 0
    → n < 256
    → called n (boot timer_handler keyboard_handler s) ≡ booted timer_handler keyboard_handler n
unfolding boot call called
called-boot timer keyboard s n t k h = elim (ℕ_discrete 32 n) [
  | yes p ↦ subst at p (call-given timer t)
  | no p ↦ elim (ℕ_discrete 33 n) [
    | yes q ↦ subst at q (call-given keyboard k)
    | no q ↦
        rw (==_differ 32 n p) rw (==_differ 33 n q) rw (lt→ltb n 256 h)
          elim (Bool-cases (0x80 == n)) [ inl e ↦ rw e refl | inr e ↦ rw e refl ]
  ]
]
  where
    at : ℕ → Type 0
    at j = called j (boot timer keyboard s) ≡ booted timer keyboard j

module _ (timer_handler keyboard_handler : Handler) (s : Interrupts) (cpu : Interrupted)
    (vector err_code : ℕ) (stack : ℕ → ℕ) where
  abbrev regs : Registers
  regs = registers_of (pushed cpu vector err_code stack)

  abbrev kernel : Interrupts
  kernel = boot timer_handler keyboard_handler s

  -- When `kernel_main` has run its calls up to `syscall_init`, an interrupt is dispatched by the
  -- `edx` of the code that it interrupts, whatever its vector is, since irq.s pushes three more
  -- words than `registers_t` has: with 32 there `irq_handler` and `isr_handler` call the timer's
  -- handler, with 33 the keyboard's, and with any other number below 256 nothing; and the
  -- slave controller is told of the end of an interrupt where `edx` is 40 or more.
  pub irq_handler-pushed :
      timer_handler ≢ 0
      → keyboard_handler ≢ 0
      → cpu.edx < 256
      → ((irq_handler regs kernel).0 ≡ booted timer_handler keyboard_handler cpu.edx)
        × ((isr_handler regs kernel).0 ≡ booted timer_handler keyboard_handler cpu.edx)
        × ((irq_handler regs kernel).1.ports ≡ kernel.ports ++ acknowledged cpu.edx)
  unfolding isr_handler registers_of pushed
  irq_handler-pushed t k small =
      let found = called-boot timer_handler keyboard_handler s cpu.edx t k small in
      (irq_handler-called regs kernel ∙ found, found, irq_handler-ports regs kernel)
