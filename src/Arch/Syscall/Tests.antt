-- ===== src/Arch/Syscall/Tests.antt =====
-- The theorems on system calls at a concrete kernel.
use vaelen.Prelude.{◌≡◌, refl, [], ◌∷◌, replicate, some, none, arith}
use vaelen.Prelude.Int.{pos}
use vaelen.Task.{Task, running, Fresh, no_context, find_task}
use vaelen.Fs.{Memory, free_entry}
use vaelen.Arch.Syscall.{Kernel, returned, int_of, sys_getpid, sys_brk, syscall_handler}
use vaelen.Arch.Syscall.Effect.{IsSound, syscall_handler-IsSound}
use vaelen.Arch.Syscall.Fork.{running_at, syscall_handler-fork}

abbrev shell_task : Task
shell_task = record {
  address = 100;
  pid = 1;
  name = [];
  state = running;
  context = no_context;
  page_directory = 0;
  kernel_stack = 0;
  kernel_stack_top = 0;
  user_stack = 0;
  sleep_ticks = 0;
  priority = pos 1;
  exit_code = pos 0;
  parent = 0;
  heap_start = 0;
  heap_end = 0;
  brk = 0;
}

abbrev kernel : Kernel
kernel = record {
  tasks = record {
    task_list = shell_task ∷ [];
    current_task = 100;
    idle_task = 0;
    next_pid = 2;
    task_count = 1;
  };
  files = record {
    fs_root_node = 0;
    fd_table = replicate 256 free_entry;
    mount_points = [];
    nodes = λ p. none;
  };
  console = record { vga_color = 7; vga_buffer = λ p. 0; cursor_x = 0; cursor_y = 0; ports = [] };
}

abbrev letters : Memory
letters p = 65

abbrev block : Fresh
block = record { task = 400; stack = 5000; directory = 600; physical = 700 }

kernel-IsSound : IsSound kernel
kernel-IsSound = record {
  single = (record { current = λ e. refl; placed = omega arith }, tt);
  numbered = record { falling = (omega arith, tt); counted = refl };
  on_screen = record { column = omega arith; row = omega arith };
  table = refl;
}

abbrev broken : Kernel
broken = record kernel {
  tasks = record (kernel.tasks) { task_list = record shell_task { brk = 8192 } ∷ [] };
}

brk-broken : syscall_handler letters block 45 8192 0 0 kernel ≡ returned (pos 8192) broken
unfolding syscall_handler sys_brk find_task
brk-broken = refl

syscall_handler-IsSound_example : IsSound broken
syscall_handler-IsSound_example =
    syscall_handler-IsSound letters block 45 8192 0 0 kernel broken (pos 8192) (omega arith)
      (omega arith) brk-broken kernel-IsSound

find_task-kernel : find_task kernel.tasks.current_task kernel.tasks.task_list ≡ some shell_task
unfolding find_task
find_task-kernel = refl

syscall_handler-fork_example :
    (k' : Kernel) × (syscall_handler letters block 2 0 0 0 kernel
      ≡ returned (int_of kernel.tasks.next_pid) k')
    × (syscall_handler letters block 20 0 0 0 (running_at block.task k')
        ≡ returned (int_of kernel.tasks.next_pid) (running_at block.task k'))
    × (sys_getpid k' ≡ sys_getpid kernel)
syscall_handler-fork_example =
    syscall_handler-fork letters block 0 0 0 shell_task kernel (omega arith) (omega arith)
      (omega arith) find_task-kernel
