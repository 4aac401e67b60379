-- ===== src/Arch/Tests.antt =====
-- The theorems on the descriptor tables and on interrupts at concrete inputs.
use vaelen.Prelude.{ℕ, ◌*◌, ◌%◌, ◌^◌, ◌<◌, ◌≡◌, ◌++◌, [], arith}
use vaelen.Arch.Idt.{Idt, zero_entry, GateOf, init-GateOf}
use vaelen.Arch.Idt
use vaelen.Arch.Interrupts.{Interrupts, Registers, irq_handler, isr_handler, boot}
use vaelen.Arch.Interrupts.Frame.{
  Interrupted, registers_of, pushed, booted, acknowledged, irq_handler-pushed,
}

abbrev stubs : ℕ → ℕ
stubs n = n * 16 % 4096

stub_bound : (n : ℕ) → stubs n < 2 ^ 32
stub_bound n = omega arith

abbrev no_table : Idt
no_table = record { idt = λ n. zero_entry; idtp = record { limit = 0; base = 0 } }

init-GateOf_example : GateOf 33 (stubs 33) ((Idt.init 4096 stubs no_table).idt 33)
init-GateOf_example = init-GateOf 4096 stubs no_table 33 stub_bound (omega arith)

abbrev quiet : Interrupts
quiet = record { isr_handlers = λ n. 0; ports = [] }

-- The timer's interrupt of a loop that counts in `edx`.
abbrev counting : Interrupted
counting = record {
  gs = 0x10;
  fs = 0x10;
  es = 0x10;
  ds = 0x10;
  edi = 0;
  esi = 0;
  ebp = 0;
  esp = 4096;
  ebx = 0;
  edx = 33;
  ecx = 0;
  eax = 0;
  eip = 0x100000;
  cs = 0x08;
  eflags = 0x202;
}

abbrev timer_frame : Registers
timer_frame = registers_of (pushed counting 32 0 (λ i. 0))

irq_handler-pushed_example :
    ((irq_handler timer_frame (boot 5000 6000 quiet)).0 ≡ booted 5000 6000 33)
    × ((isr_handler timer_frame (boot 5000 6000 quiet)).0 ≡ booted 5000 6000 33)
    × ((irq_handler timer_frame (boot 5000 6000 quiet)).1.ports
        ≡ (boot 5000 6000 quiet).ports ++ acknowledged 33)
irq_handler-pushed_example =
    irq_handler-pushed 5000 6000 quiet counting 32 0 (λ i. 0) (omega arith) (omega arith)
      (omega arith)
