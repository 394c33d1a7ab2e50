-- ===== src/SysvShm.antt =====
-- packages/sys_call_demo/sysv_shm_demo: a writer copies its standard input through a shared
-- buffer to a reader, with two semaphores.
pub mod Model
pub mod Invariant
pub mod Safety
pub mod Progress
pub mod Channel
pub mod Termination
pub mod Setup
mod Tests
