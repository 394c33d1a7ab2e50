-- ===== src/PosixShm.antt =====
-- packages/sys_call_demo/posix_shm_demo: a client hands words to a server through shared memory,
-- with two POSIX semaphores in it.
pub mod Model
pub mod Words
pub mod Safety
pub mod Channel
pub mod Progress
pub mod Setup
mod Tests
