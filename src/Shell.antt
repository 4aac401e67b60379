-- ===== src/Shell.antt =====
-- kernel/shell.c: the line editor, the splitting of a line, the commands and the loop of the shell.
pub mod Calls
pub mod Table
pub mod Basic
pub mod Stubs
pub mod Dispatch
pub mod Line
pub mod Run
pub mod Shown
mod Tests
