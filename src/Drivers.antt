-- ===== src/Drivers.antt =====
-- The drivers that keep state of their own: drivers/ata.c, drivers/keyboard.c,
-- drivers/timer.c and drivers/vga.c.
pub mod Ata
pub mod Keyboard
pub mod Timer
pub mod Vga
mod Tests
