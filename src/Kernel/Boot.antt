-- ===== src/Kernel/Boot.antt =====
-- How `kernel_main` of kernel/kernel.c ends, and what the screen shows then.
use vaelen.Prelude.{ℕ, ◌^◌, ◌<◌, ◌≡◌, refl, ap, sym, ◌∙◌, List, [], ◌∷◌, ◌++◌, Option, none, some}
use vaelen.Prelude.Int.{ℤ}
use vaelen.Prelude.Text.{bytes}
use vaelen.Strings.{Bytes}
use vaelen.Strings.Chars.{strlen, length_from}
use vaelen.Strings.Numbers.{itoa, emit, swap_ends}
use vaelen.Mm.Frames
use vaelen.Mm.Frames.{kernel_heap_start}
use vaelen.Mm.Heap.{null}
use vaelen.Mm.Paging.{Result}
use vaelen.Mm.Paging.Boot.{mem_size, init_paging-panics}
use vaelen.Arch.Gdt
use vaelen.Arch.Idt
use vaelen.Arch.Interrupts.{isr_init, irq_init, timer_init, keyboard_init, syscall_init}
use vaelen.Drivers.Timer.{set_frequency}
use vaelen.Drivers.Vga
use vaelen.Drivers.Vga.{Console, set_color, write}
use vaelen.Drivers.Ata.{Ata, ata_init}
use vaelen.Printf.{printf, run, convert, number_case, printf_number, printf_signed, puts}
use vaelen.Kernel.{
  Image, Machine, Run, runs, panicked, waits, ◌>>=◌, kernel_panic, say, on_interrupts,
  start_drivers, start_disk, after_ata, start_memory, after_paging, start_services, kernel_main,
}

write-++ : (xs ys : List ℕ) (v : Console) → write (xs ++ ys) v ≡ write ys (write xs v)
unfolding write
write-++ [] ys v = refl
write-++ (x ∷ xs) ys v = write-++ xs ys (Vga.putchar x v)

writes : List (List ℕ) → Console → Console
writes [] v = v
writes (s ∷ ss) v = writes ss (write s v)

abbrev pub joined : List (List ℕ) → List ℕ
joined [] = []
joined (s ∷ ss) = s ++ joined ss

writes-joined : (ss : List (List ℕ)) (v : Console) → writes ss v ≡ write (joined ss) v
unfolding writes write
writes-joined [] v = refl
writes-joined (s ∷ ss) v = writes-joined ss (write s v) ∙ sym (write-++ s (joined ss) v)

-- The lines of the log, as the screen is to show them.
abbrev pub drivers_lines : List (List ℕ)
drivers_lines =
    bytes "Booting Vaelen Linux v0.1.0 (Genesis)...\n"
    ∷ bytes "[OK] GDT initialized\n"
    ∷ bytes "[OK] IDT initialized\n"
    ∷ bytes "[OK] ISR handlers ready\n"
    ∷ bytes "[OK] IRQ remapped\n"
    ∷ bytes "[OK] PIT timer at 100Hz\n"
    ∷ bytes "[OK] PS/2 keyboard driver loaded\n"
    ∷ []

abbrev pub disk_lines : List (List ℕ)
disk_lines =
    bytes "[OK] ATA disk driver initialized\n" ∷ bytes "[OK] System call interface ready\n" ∷ []

abbrev pub memory_lines : List (List ℕ)
memory_lines =
    bytes "[OK] Memory manager: 0 MB total\n"
    ∷ bytes "\n*** KERNEL PANIC ***\n"
    ∷ bytes "Kernel: Vaelen Linux v0.1.0\n"
    ∷ bytes "Error: Out of memory\n"
    ∷ bytes "\nSystem halted. Please restart your computer.\n"
    ∷ []

-- The screen from the first line on.
abbrev pub screen : Machine → Console
screen m = set_color 0x07 (Vga.init m.console)

-- The machine when `keyboard_init` has returned and its line is printed.
driven : Image → Machine → Machine
driven image m = record m {
  console = write (joined drivers_lines) (screen m);
  gdt = Gdt.init image.gdt_address m.gdt;
  idt = Idt.init image.idt_address image.stub m.idt;
  timer = set_frequency 100 m.timer;
  paging = record (m.paging) {
    interrupts =
        keyboard_init image.keyboard_handler
          (timer_init image.timer_handler 100 (irq_init (isr_init m.paging.interrupts)));
  };
}

start_drivers-runs :
    (image : Image) (stack : Bytes) (m : Machine)
    → start_drivers image stack m ≡ runs (driven image m)
unfolding start_drivers say printf run convert number_case driven writes
start_drivers-runs image stack m =
    ap (λ (v : Console). runs (record (driven image m) { console = v }))
      (writes-joined drivers_lines (screen m))

-- The machine when `syscall_init` has returned and its line is printed.
disked : Image → Ata → Machine → Machine
unfolding driven
disked image ata m = record (driven image m) {
  ata = ata;
  console = writes disk_lines (driven image m).console;
  paging = record ((driven image m).paging) {
    interrupts = syscall_init (driven image m).paging.interrupts;
  };
}

-- The machine when the line of `mm_init` is printed.
told : Machine → Machine
told m = record m {
  console = write (bytes "[OK] Memory manager: 0 MB total\n") m.console;
  paging = record (m.paging) { frames = Frames.init mem_size m.words };
}

-- What the source's calls of `vga_puts` write.
panic_pieces : List (List ℕ)
panic_pieces =
    bytes "[OK] Memory manager: 0 MB total\n"
    ∷ bytes "\n*** KERNEL PANIC ***\n"
    ∷ bytes "Kernel: "
    ∷ bytes "Vaelen Linux"
    ∷ bytes " v"
    ∷ bytes "0.1.0"
    ∷ bytes "\nError: "
    ∷ bytes "Out of memory"
    ∷ bytes "\n\nSystem halted. Please restart your computer.\n"
    ∷ []

-- How `kernel_main` ends, by what `ata_init` answers.
abbrev pub ends : Machine → Option (ℤ × Ata) → Run
ends m none = waits (write (joined drivers_lines) (screen m))
ends m (some answer) =
    panicked (write (joined drivers_lines ++ joined disk_lines ++ joined memory_lines) (screen m))

-- What `kernel_main` does behind `ata_init`.
continued : Bytes → ℕ → ℕ → ℕ → List ℕ → Run → Run
continued stack fuel rounds lines keys r =
    r
    >>= say stack "[OK] ATA disk driver initialized\n" []
    >>= on_interrupts syscall_init
    >>= say stack "[OK] System call interface ready\n" []
    >>= start_memory stack fuel rounds
    >>= start_services stack fuel lines keys

module _ (image : Image) (stack : Bytes) (fuel rounds : ℕ) where
  start_memory-panics :
      (m : Machine)
      → m.paging.heap.heap_start ≡ null
      → m.paging.heap.heap_placement ≡ kernel_heap_start
      → 2 ^ 20 < fuel
      → 0 < rounds
      → start_memory stack fuel rounds m ≡ panicked (write (joined memory_lines) m.console)
  unfolding start_memory say printf run convert number_case printf_signed printf_number puts strlen
      length_from itoa emit swap_ends after_paging kernel_panic panic_pieces told writes
  start_memory-panics m unused placement enough some_rounds =
      ap
        (λ (r : Result (Unit {0})).
          after_paging (told m) r >>= say stack "[OK] Paging enabled\n" [])
        (init_paging-panics fuel rounds m.words (told m).paging unused placement refl enough
          some_rounds)
      ∙ ap panicked (writes-joined panic_pieces m.console)

  after_drivers :
      (lines : ℕ) (keys : List ℕ) (m : Machine) (answered : Option (ℤ × Ata))
      → m.paging.heap.heap_start ≡ null
      → m.paging.heap.heap_placement ≡ kernel_heap_start
      → 2 ^ 20 < fuel
      → 0 < rounds
      → continued stack fuel rounds lines keys (after_ata (driven image m) answered)
        ≡ ends m answered
  unfolding continued driven disked writes after_ata say printf run convert number_case
  after_drivers lines keys m none unused placement enough some_rounds = refl
  after_drivers lines keys m (some (answer, ata)) unused placement enough some_rounds =
      ap (λ (r : Run). r >>= start_services stack fuel lines keys)
        (start_memory-panics (disked image ata m) unused placement enough some_rounds)
      ∙ ap panicked (
          writes-joined (joined drivers_lines ∷ (disk_lines ++ (joined memory_lines ∷ [])))
            (screen m))

  -- `kernel_main` never comes to the shell. If `ata_init` waits for ever, the screen shows the log up
  -- to the keyboard; if it returns, whatever its answer, the kernel panics, and the screen shows the
  -- log up to the 0 MB of `mm_init` and below it the panic for want of memory. The heap has not
  -- been used before, and its search may take 2^20 rounds; the screen is what it is after `vga_init`,
  -- with those lines written to it.
  pub kernel_main-panics :
      (lines : ℕ) (keys : List ℕ) (m : Machine)
      → m.paging.heap.heap_start ≡ null
      → m.paging.heap.heap_placement ≡ kernel_heap_start
      → 2 ^ 20 < fuel
      → 0 < rounds
      → kernel_main image stack fuel rounds lines keys m ≡ ends m (ata_init m.ata)
  unfolding kernel_main start_disk continued driven
  kernel_main-panics lines keys m unused placement enough some_rounds =
      ap
        (λ (r : Run).
          r
          >>= start_disk stack
          >>= start_memory stack fuel rounds
          >>= start_services stack fuel lines keys)
        (start_drivers-runs image stack m)
      ∙ after_drivers lines keys m (ata_init m.ata) unused placement enough some_rounds
