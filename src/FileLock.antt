-- ===== src/FileLock.antt =====
-- packages/sys_call_demo/file_lock_demo/file_lock_demo.c: locks on a file, with flock and with fcntl.
pub mod Programs
pub mod Flock
mod Tests
