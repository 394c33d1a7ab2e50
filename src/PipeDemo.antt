-- ===== src/PipeDemo.antt =====
-- packages/sys_call_demo/pipe_demo/pipe_demo.c: three uses of a pipe between a parent and its children.
pub mod Programs
pub mod Sync
pub mod Safety
pub mod Progress
mod Tests
