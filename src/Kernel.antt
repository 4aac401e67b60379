-- ===== src/Kernel.antt =====
-- kernel/kernel.c and kernel/panic.c: `kernel_main`, which puts the parts together, and `kernel_panic`.
pub mod Boot
mod Tests
use Prim.Native.String.{String}
use vaelen.Prelude.{
  ℕ, zero, suc, ◌+◌, ◌*◌, ◌/◌, ◌%◌, ◌^◌, Bool, true, false, Option, none, some, List, [], ◌∷◌,
  get_or,
}
use vaelen.Prelude.Int.{ℤ}
use vaelen.Prelude.Text.{bytes}
use vaelen.Strings.{Bytes}
use vaelen.Mm.Frames
use vaelen.Mm.Frames.{Frames, Bitmap}
use vaelen.Mm.Heap.{Ptr, null, Heap, Outcome, returns, panics, hangs, kmalloc}
use vaelen.Mm.Paging.{Paging, Result, init_paging, heap_exhausted}
use vaelen.Mm.Paging.Boot.{mem_size}
use vaelen.Arch.Gdt
use vaelen.Arch.Gdt.{Gdt}
use vaelen.Arch.Idt
use vaelen.Arch.Idt.{Idt}
use vaelen.Arch.Interrupts.{
  Handler, Interrupts, isr_init, irq_init, timer_init, keyboard_init, syscall_init,
}
use vaelen.Drivers.Timer.{Timer, set_frequency}
use vaelen.Drivers.Vga
use vaelen.Drivers.Vga.{Console, set_color}
use vaelen.Drivers.Ata.{Ata, ata_init}
use vaelen.Task
use vaelen.Task.{Tasks}
use vaelen.Fs
use vaelen.Fs.{Files, directories}
use vaelen.Printf.{Arg, word, text, printf}
use vaelen.Shell.Dispatch.{History}
use vaelen.Shell.Basic.{kernel_name, kernel_version, kernel_codename}
use vaelen.Shell.Run.{Session, shell_run}

-- What the linker decides: the addresses of the two tables, of the assembly stubs, and of the two
-- interrupt handlers.
pub record Image : Type 0 where
  pub gdt_address : ℕ
  pub idt_address : ℕ
  pub stub : ℕ → ℕ
  pub timer_handler : Handler
  pub keyboard_handler : Handler

-- The state of all parts, the words of memory from 0x100000 on, and whether interrupts are on. The
-- code of the kernel is not part of it.
pub record Machine : Type 0 where
  pub console : Console
  pub gdt : Gdt
  pub idt : Idt
  pub paging : Paging
  pub timer : Timer
  pub ata : Ata
  pub tasks : Tasks
  pub files : Files
  pub history : History
  pub words : Bitmap
  pub interrupts_on : Bool

-- A part of `kernel_main` that is through; or the screen of a panic, or of a wait without end; or the
-- machine that has come back from `shell_run` or stays in it. `unfinished` has used up its rounds,
-- and `undefined` is a `printf` that reads behind its format.
pub data Run : Type 0 where
  runs : Machine → Run
  panicked : Console → Run
  waits : Console → Run
  in_shell : Session → Machine → Run
  unfinished : Run
  undefined : Run

infixl 30 ◌>>=◌
abbrev pub ◌>>=◌ : Run → (Machine → Run) → Run
runs m >>= f = f m
panicked v >>= f = panicked v
waits v >>= f = waits v
in_shell session m >>= f = in_shell session m
unfinished >>= f = unfinished
undefined >>= f = undefined

-- The calls of `vga_puts` in `kernel_panic`, in order.
abbrev pub puts : String → Console → Console
puts s = Vga.write (bytes s)

-- `kernel_panic`: interrupts are off from here on, and it halts for ever.
unfoldable pub kernel_panic : List ℕ → Machine → Run
kernel_panic msg m = panicked (
    puts "\n\nSystem halted. Please restart your computer.\n" (
      Vga.write msg (
        puts "\nError: " (
          Vga.write kernel_version (
            puts " v" (
              Vga.write kernel_name
                (puts "Kernel: " (puts "\n*** KERNEL PANIC ***\n" m.console))))))))

-- A call of `printf`, for what lies on the stack.
unfoldable pub say : Bytes → String → List Arg → Machine → Run
say stack format args m = elim (printf stack (bytes format) args) [
  | none ↦ undefined
  | some out ↦ runs (record m { console = Vga.write out m.console })
]

abbrev pub on_interrupts : (Interrupts → Interrupts) → Machine → Run
on_interrupts f m =
    runs (record m { paging = record (m.paging) { interrupts = f m.paging.interrupts } })

abbrev pub names : List Arg
names = text kernel_name ∷ text kernel_version ∷ text kernel_codename ∷ []

-- From `vga_init` to the line behind `keyboard_init`.
unfoldable pub start_drivers : Image → Bytes → Machine → Run
unfolding say
start_drivers image stack m =
    runs (record m { console = set_color 0x07 (Vga.init m.console) })
    >>= say stack "Booting %s v%s (%s)...\n" names
    >>= (λ m. runs (record m { gdt = Gdt.init image.gdt_address m.gdt }))
    >>= say stack "[OK] GDT initialized\n" []
    >>= (λ m. runs (record m { idt = Idt.init image.idt_address image.stub m.idt }))
    >>= say stack "[OK] IDT initialized\n" []
    >>= on_interrupts isr_init
    >>= say stack "[OK] ISR handlers ready\n" []
    >>= on_interrupts irq_init
    >>= say stack "[OK] IRQ remapped\n" []
    >>= on_interrupts (timer_init image.timer_handler 100)
    >>= (λ m. runs (record m { timer = set_frequency 100 m.timer }))
    >>= say stack "[OK] PIT timer at 100Hz\n" []
    >>= on_interrupts (keyboard_init image.keyboard_handler)
    >>= say stack "[OK] PS/2 keyboard driver loaded\n" []

-- `ata_init` has returned, or waits for ever.
unfoldable pub after_ata : Machine → Option (ℤ × Ata) → Run
after_ata m none = waits m.console
after_ata m (some (answer, ata)) = runs (record m { ata = ata })

-- The line behind `ata_init`, and `syscall_init` with its line.
unfoldable pub start_disk : Bytes → Machine → Run
unfolding say after_ata
start_disk stack m =
    after_ata m (ata_init m.ata)
    >>= say stack "[OK] ATA disk driver initialized\n" []
    >>= on_interrupts syscall_init
    >>= say stack "[OK] System call interface ready\n" []

unfoldable pub after_paging : Machine → Result (Unit {0}) → Run
unfolding kernel_panic
after_paging m (Result.finished u paging) = runs (record m { paging = paging })
after_paging m (Result.panicked message) = kernel_panic message m
after_paging m Result.unfinished = unfinished

-- `mm_init` of the size that fits no 32 bits, and `mm_init_paging`.
unfoldable pub start_memory : Bytes → ℕ → ℕ → Machine → Run
unfolding say after_paging
start_memory stack fuel rounds m =
    runs (record m { paging = record (m.paging) { frames = Frames.init mem_size m.words } })
    >>= say stack "[OK] Memory manager: %d MB total\n" (word (mem_size / 1024 / 1024) ∷ [])
    >>= (λ m. after_paging m (init_paging fuel rounds m.paging))
    >>= say stack "[OK] Paging enabled\n" []

-- `sizeof(fs_node_t)`
abbrev pub node_size : ℕ
node_size = 256 + 7 * 4 + 6 * 4 + 4

-- `n` calls of `kmalloc(sizeof(fs_node_t))`, and what uses the addresses.
unfoldable pub with_nodes : ℕ → ℕ → (List Ptr → Machine → Run) → Machine → Run
unfolding kernel_panic
with_nodes fuel zero use_them m = use_them [] m
with_nodes fuel (suc n) use_them m = elim (kmalloc fuel m.paging.heap node_size) [
  | returns p heap ↦
      with_nodes fuel n (λ ps. use_them (p ∷ ps))
        (record m { paging = record (m.paging) { heap = heap } })
  | panics ↦ kernel_panic heap_exhausted m
  | hangs ↦ unfinished
]

-- `fs_init`, which makes the root and the 15 directories below it.
unfoldable pub start_files : ℕ → Machine → Run
unfolding with_nodes
start_files fuel m =
    with_nodes fuel 16
      (λ ps m'. runs (record m' { files = Fs.init (λ i. get_or ps i null) m'.files })) m

-- From `task_init` on: for the lines that the shell may read and the keys that will be typed.
unfoldable pub start_services : Bytes → ℕ → ℕ → List ℕ → Machine → Run
unfolding say start_files
start_services stack fuel lines keys m =
    runs (record m { tasks = Task.init m.tasks })
    >>= say stack "[OK] Task scheduler initialized\n" []
    >>= start_files fuel
    >>= say stack "[OK] Virtual filesystem mounted\n" []
    >>= say stack "\n%s v%s (%s)\n" names
    >>= say stack "Kernel loaded successfully.\n\n" []
    >>= (λ m. runs (record m { interrupts_on = true }))
    >>= (λ m. in_shell (shell_run lines m.paging.frames keys m.history) m)

-- `kernel_main`, with the rounds that the heap, the first loop of `mm_init_paging` and the shell may
-- take.
unfoldable pub kernel_main : Image → Bytes → ℕ → ℕ → ℕ → List ℕ → Machine → Run
unfolding start_drivers start_disk start_memory start_services
kernel_main image stack fuel rounds lines keys m =
    start_drivers image stack m
    >>= start_disk stack
    >>= start_memory stack fuel rounds
    >>= start_services stack fuel lines keys
