-- ===== src/NamedSem.antt =====
-- packages/sys_call_demo/posix_sem_demo/posix_sem_demo.c: the functions on the named semaphore.
pub mod Calls
pub mod Demos
pub mod Threads
pub mod Termination
pub mod Progress
mod Tests
