-- ===== src/Kernel/Tests.antt =====
-- The kernel at a concrete machine: a drive that is there, and none that answers.
use vaelen.Prelude.{◌+◌, ◌^◌, ◌≡◌, refl, false, [], ◌∷◌, none, arith}
use vaelen.Mm.Paging.Tests.{booting}
use vaelen.Arch.Gdt.{GdtEntry}
use vaelen.Arch.Idt.{zero_entry}
use vaelen.Drivers.Ata.{ata_init}
use vaelen.Kernel.{Image, Machine, kernel_main}
use vaelen.Kernel.Boot.{ends, kernel_main-panics}

abbrev image : Image
image = record {
  gdt_address = 0x108000;
  idt_address = 0x109000;
  stub = λ n. 0x100400 + n;
  timer_handler = 0x101000;
  keyboard_handler = 0x101200;
}

abbrev no_segment : GdtEntry
no_segment = record {
  limit_low = 0;
  base_low = 0;
  base_middle = 0;
  access = 0;
  granularity = 0;
  base_high = 0;
}

-- The variables as the loader leaves them, and a drive that gives one answer to IDENTIFY: none.
abbrev loaded : Machine
loaded = record {
  console = record { vga_color = 7; vga_buffer = λ p. 0; cursor_x = 0; cursor_y = 0; ports = [] };
  gdt = record { gdt = λ n. no_segment; gp = record { limit = 0; base = 0 } };
  idt = record { idt = λ n. zero_entry; idtp = record { limit = 0; base = 0 } };
  paging = booting;
  timer = record { timer_ticks = 0; timer_frequency = 100 };
  ata = record { drive_present = 0; status = 0 ∷ []; words = []; sent = [] };
  tasks = record { task_list = []; current_task = 0; idle_task = 0; next_pid = 1; task_count = 0 };
  files = record { fs_root_node = 0; fd_table = []; mount_points = []; nodes = λ p. none };
  history = record { history = λ i. []; hist_count = 0; hist_idx = 0 };
  words = λ i. 0xFFFFFFFF;
  interrupts_on = false;
}

kernel_main-panics_example :
    kernel_main image (λ a. 0) (2 ^ 20 + 1) 1 0 [] loaded ≡ ends loaded (ata_init loaded.ata)
kernel_main-panics_example =
    kernel_main-panics image (λ a. 0) (2 ^ 20 + 1) 1 0 [] loaded refl refl (omega arith)
      (omega arith)
