-- ===== src/Arch/Interrupts.antt =====
-- arch/x86_64/isr.c: the table of handlers, dispatch, and the interrupt controllers; with what
-- `kernel_main`, drivers/timer.c, drivers/keyboard.c and arch/x86_64/syscall.c install.
pub mod Frame
use vaelen.Prelude.{
  ℕ, ◌+◌, ◌/◌, ◌%◌, ◌^◌, ◌<◌, ◌≡◌, ◌≢◌, refl, bit_and, true, false, ◌==◌, ltb, leb, not,
  if◌then◌else◌, arith, update, Option, none, some, List, [], ◌∷◌, ◌++◌, Bool-cases, inl, inr, ◌∙◌,
  sym, ℕ_discrete, subst, lt→ltb,
}
use vaelen.Drivers.Vga.{Ports}

-- The address of a function, 0 for none.
abbrev pub Handler : Type 0
Handler = ℕ

-- `isr_handlers`, and what was sent to the ports so far.
pub record Interrupts : Type 0 where
  pub isr_handlers : ℕ → Handler
  pub ports : Ports

abbrev pub send : List (ℕ × ℕ) → Interrupts → Interrupts
send bytes s = record s { ports = s.ports ++ bytes }

-- `registers_t` of include/isr.h, in the order of its words.
pub record Registers : Type 0 where
  pub ds : ℕ
  pub edi : ℕ
  pub esi : ℕ
  pub ebp : ℕ
  pub esp : ℕ
  pub ebx : ℕ
  pub edx : ℕ
  pub ecx : ℕ
  pub eax : ℕ
  pub int_no : ℕ
  pub err_code : ℕ
  pub eip : ℕ
  pub cs : ℕ
  pub eflags : ℕ
  pub useresp : ℕ
  pub ss : ℕ

-- The handler that is called for an index of the table, if any.
unfoldable pub called : ℕ → Interrupts → Option Handler
called int_no s = if not (s.isr_handlers int_no == 0) then some (s.isr_handlers int_no) else none

-- `isr_handler`
unfoldable pub isr_handler : Registers → Interrupts → Option Handler × Interrupts
unfolding called
isr_handler regs s = (called regs.int_no s, s)

-- `isr_register_handler`, whose number is one byte.
unfoldable pub register_handler : ℕ → Handler → Interrupts → Interrupts
register_handler n handler s = record s { isr_handlers = update s.isr_handlers (n % 2 ^ 8) handler }

-- `isr_init`
unfoldable pub isr_init : Interrupts → Interrupts
isr_init s = record s { isr_handlers = λ n. if ltb n 256 then 0 else s.isr_handlers n }

-- `irq_handler`: the end of interrupt is sent before the handler is called.
unfoldable pub irq_handler : Registers → Interrupts → Option Handler × Interrupts
unfolding called
irq_handler regs s =
    let slave = if leb 40 regs.int_no then send ((0xA0, 0x20) ∷ []) s else s in
    let master = send ((0x20, 0x20) ∷ []) slave in (called regs.int_no master, master)

-- `irq_init`
unfoldable pub irq_init : Interrupts → Interrupts
irq_init = send (
    (0x20, 0x11)
    ∷ (0xA0, 0x11)
    ∷ (0x21, 0x20)
    ∷ (0xA1, 0x28)
    ∷ (0x21, 0x04)
    ∷ (0xA1, 0x02)
    ∷ (0x21, 0x01)
    ∷ (0xA1, 0x01)
    ∷ (0x21, 0x00)
    ∷ (0xA1, 0x00)
    ∷ [])

-- `irq_install_handler` and `irq_uninstall_handler`, for the sixteen lines.
unfoldable pub install_handler : ℕ → Handler → Interrupts → Interrupts
install_handler irq handler s = record s { isr_handlers = update s.isr_handlers (irq + 32) handler }

unfoldable pub uninstall_handler : ℕ → Interrupts → Interrupts
uninstall_handler irq s = record s { isr_handlers = update s.isr_handlers (irq + 32) 0 }

-- `timer_init`, for the address of `timer_handler`.
unfoldable pub timer_init : Handler → ℕ → Interrupts → Interrupts
unfolding install_handler
timer_init timer_handler frequency s =
    let divisor = 1193180 / frequency in
    install_handler 0 timer_handler (
      send
        ((0x43, 0x36) ∷ (0x40, bit_and divisor 0xFF) ∷ (0x40, bit_and (divisor / 2 ^ 8) 0xFF) ∷ [])
        s)

-- `keyboard_init`
unfoldable pub keyboard_init : Handler → Interrupts → Interrupts
unfolding install_handler
keyboard_init = install_handler 1

-- `syscall_init`
unfoldable pub syscall_init : Interrupts → Interrupts
unfolding register_handler
syscall_init = register_handler 0x80 0

-- The calls of `kernel_main` from `isr_init` to `syscall_init` that change the table or the
-- controllers.
unfoldable pub boot : Handler → Handler → Interrupts → Interrupts
unfolding isr_init irq_init timer_init keyboard_init syscall_init
boot timer_handler keyboard_handler s =
    syscall_init
      (keyboard_init keyboard_handler (timer_init timer_handler 100 (irq_init (isr_init s))))
