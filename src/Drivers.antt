-- ===== src/Drivers.antt =====
-- The drivers of the keyboard and the timer, and the event manager: kernel/keyb.c, kernel/timer.c
-- and kernel/em.c.
mod Tests
pub mod Keyboard
pub mod Timer
pub mod Events
