-- ===== src/Kernel.antt =====
-- The kernel proper: memory, processes, the dispatcher and interprocess communication.
pub mod State
pub mod Memory
pub mod Dispatch
pub mod Ipc
pub mod Intr
pub mod Process
pub mod System
pub mod Tests
