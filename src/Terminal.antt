-- ===== src/Terminal.antt =====
-- kernel/tty.c, kernel/console.c and kernel/keyboard.c: keyboard, terminals and screen.
pub mod Ring
pub mod Console
pub mod Keyboard
pub mod Input
pub mod Printing
mod Examples
