-- ===== src/Arch.antt =====
-- arch/x86_64: the descriptor tables, interrupt dispatch and system calls.
pub mod Gdt
pub mod Idt
pub mod Interrupts
pub mod Syscall
mod Tests
