-- ===== src/Programs.antt =====
-- The programs of the system: the shell of kernel/shell.c and the game of kernel/pacman.c.
mod Tests
pub mod Shell
pub mod Pacman
