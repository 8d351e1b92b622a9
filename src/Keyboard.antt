-- ===== src/Keyboard.antt =====
-- kernel/keyboard.c and kernel/tty.c.
pub mod Keys
pub mod Keymap
pub mod State
pub mod Read
pub mod Fifo
pub mod Rounds
pub mod Press
mod Examples
