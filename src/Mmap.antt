-- ===== src/Mmap.antt =====
-- packages/sys_call_demo/mmap_demo/mmap_demo.c: a file printed, and a file written, through a mapping.
pub mod Programs
pub mod Contents
mod Tests
