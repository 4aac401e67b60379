-- ===== src/Lib.antt =====
-- The Vaelen kernel: a model of its C code and the theorems about it.
--
-- The kernel is a 32-bit one: `uint32_t` and pointers are natural numbers below 2^32, with `% 2^32`
-- written where the code can wrap, and a null pointer is 0. A static variable is a field of the
-- state of its file, and a function that changes it takes the state and returns the new one. A call
-- that does not return (a panic, `for (;;) hlt`, a loop without end) is a result of its own.
--
-- Parts, from the repository's root, and the files that model them:
--   kernel/mm.c, frames    Mm/Frames.antt, proofs below Mm/Frames/: the bitmap of physical frames
--                          (`mm_set_bit` is `set_bit`, and so on), `mm_init`, `mm_alloc_frame`,
--                          `mm_free_frame` and the memory counters. The bitmap is a function from
--                          the number of a 32-bit word to the word.
--   kernel/mm.c, heap      Mm/Heap.antt, proofs below Mm/Heap/: the doubly linked list of block
--                          headers that `kmalloc_ap` and `kfree` keep, as a store from addresses
--                          to headers. Mm/Heap/Spec.antt has the abstract heap, a list of chunks
--                          with first fit and release, and Tiles.antt says when a store stands for
--                          such a list.
--   kernel/kernel.c        Kernel.antt: `kernel_main` over the state of all parts, from `vga_init` to
--                          `shell_run`, with every line that it prints, and `kernel_panic` of
--                          kernel/panic.c; Kernel/Boot.antt follows it to its end.
--   kernel/mm.c, paging    Mm/Paging.antt: page directories and tables beside the frames and the heap,
--                          `mm_get_page`, `mm_init_paging`, `mm_switch_page_directory`;
--                          Mm/Paging/Boot.antt follows `mm_init_paging` from the state that
--                          `kernel_main` calls it in; Mm/Paging/Clone.antt: `mm_clone_directory`, of
--                          which Whole.antt treats the directory and Shares.antt one table.
--   kernel/task.c          Task.antt, proofs below Task/: the task list, creation, fork, exit,
--                          sleep, wake and `task_schedule`; with `timer_handler` of
--                          drivers/timer.c, which counts sleeping tasks down. Task/Steps.antt has
--                          the relation of a call or an interrupt to the state that it leaves;
--                          Task/Space.antt puts task creation, fork and the scheduler on the heap
--                          and the page directories; Task/Listing.antt is `task_list`.
--   drivers/keyboard.c     Drivers/Keyboard.antt: key tables, modifiers and the ring of characters;
--                          Queue.antt beside it compares the ring with a bounded queue,
--                          Stream.antt follows interrupts and reads in any order.
--   drivers/timer.c        Drivers/Timer.antt: the count of ticks and `timer_sleep`; the interrupt handler
--                          is in Task.antt, the port writes are in Arch/Interrupts.antt.
--   drivers/vga.c          Drivers/Vga.antt: the cells of the screen, the cursor, scrolling, and
--                          the bytes sent to the ports of the hardware cursor; Plain.antt beside
--                          it is about one character, Written.antt about a text.
--   fs/vfs.c               Fs.antt, proofs in Fs/Descriptors.antt: nodes, descriptors, mounts.
--   fs/ramfs.c             Fs/Ram.antt: a tree of files, as a store from addresses to files; its search is
--                          the subject of Fs/Ram/Find.antt.
--   arch/x86_64/gdt.c      Arch/Gdt.antt: segment descriptors.
--   arch/x86_64/idt.c      Arch/Idt.antt: interrupt gates.
--   arch/x86_64/isr.c      Arch/Interrupts.antt: the table of handlers and dispatch, with
--                          `timer_init`, `keyboard_init`, `syscall_init` and the calls of
--                          `kernel_main` in kernel/kernel.c that fill the table; Frame.antt below
--                          it reads `registers_t` of include/isr.h from the stack that
--                          arch/x86_64/irq.s leaves.
--   arch/x86_64/syscall.c  Arch/Syscall.antt: `syscall_handler` and its calls on a record of tasks, files
--                          and console; Numbers.antt beside it has the numbers of
--                          include/syscall.h, Effect.antt lists what one call can do, Fork.antt is
--                          about pids.
--   drivers/ata.c          Drivers/Ata.antt: the ports as lists of answers and a trace of what is sent;
--                          Transfer.antt and Address.antt beside it are about the words and about
--                          what a drive sees.
--   kernel/shell.c         Shell.antt: the table (Table), the commands (Basic, Stubs, Dispatch), the
--                          line editor and the splitting of a line (Line), `shell_execute` and
--                          `shell_run` (Run). The calls that the shell makes are a list, which
--                          Shell/Shown.antt shows on the console.
--   lib/printf.c           Printf.antt: the characters that a format and its arguments give;
--                          Printf/Typed.antt: the arguments that a format takes.
--   lib/string.c           Strings.antt: `memcpy`, `memmove`, `memset` and `memcmp` on memory as a
--                          function from an address to a byte; Strings/Chars.antt: the functions on
--                          strings; Strings/Numbers.antt: `itoa` and `atoi`.
--   lib/stdlib.c           Stdlib.antt: memory for programs, random numbers, classes of characters and
--                          `strtol`, which Stdlib/Strtol.antt sets beside `atoi`.
-- Prelude.antt passes on the library's names and has the Boolean tests, lists and words that the
-- parts share; single bits are in Prelude/Bits.antt, C's signed `int` in Prelude/Int.antt. The
-- modules called Tests apply the theorems to concrete states.
--
-- How the parts meet: `kernel_main` starts them one after another on one state. Tasks and file nodes
-- get their memory from the heap, so the addresses that `kmalloc` returned are arguments of
-- `create`, `fork` and `create_node`, and Task/Space.antt and Kernel.antt have the calls that give
-- them; the heap's constants place the frames of the kernel; the table of handlers leads to the
-- timer, which changes the tasks, or to the keyboard. `printf` stands on `itoa` and
-- `strlen` and writes to the console; the shell asks the frames for its numbers, and its line comes
-- from the keyboard's characters. A system call goes to the tasks, the files or the console, and
-- `mm_init_paging` takes page tables from the heap and frames from the bitmap.
--
-- Bounds and fuel: `kmalloc_ap` searches on fuel, and running out of it is the loop without end.
-- On a heap that tiles its 16 MB, more than 2^20 rounds suffice, since a header has 16 bytes: the
-- theorems on served requests assume that many and show that the search ends. `mm_init_paging` has
-- a second number of rounds, for its first loop. A loop of lib/string.c that ends at a terminator
-- takes fuel too: one round more than the string has bytes is enough, 33 rounds for the texts that
-- `itoa` writes in any base, and the loop of `itoa` itself has 32 rounds, one for each bit of the
-- number. `printf` has 32 rounds for the text of a number, as many as its buffer has bytes.
-- `shell_run` takes a number of lines to read. A loop that waits for a key or a port walks the list
-- of what will come, and waits for ever where the list ends. All other loops are recursions on their
-- bound or on the list that they walk.
--
-- Not modelled: assembly but for the words that arch/x86_64/irq.s leaves on the stack, so neither
-- the context switch nor the port instructions; the contents of
-- kernel stacks but for the frame that `task_create` writes; the bytes of a page, of which a copy is
-- recorded by its addresses; and the code of the kernel in memory, which `mm_init` overwrites.
-- `mm_clone_directory` hands out the address of a field of a directory that it has not got yet: what
-- the write through that pointer does is a parameter of the model. The table of messages in
-- arch/x86_64/isr.c and the constants of the headers that no function reads are left out. The
-- bytes sent to ports are recorded by device, so not in which order two devices got theirs.
pub mod Prelude
pub mod Arch
pub mod Drivers
pub mod Fs
pub mod Kernel
pub mod Mm
pub mod Printf
pub mod Shell
pub mod Stdlib
pub mod Strings
pub mod Task
