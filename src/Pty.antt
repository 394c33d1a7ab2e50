-- ===== src/Pty.antt =====
-- packages/sys_call_demo/pty_demo/pty_demo.c: a shell on a pseudo terminal.
pub mod Calls
pub mod Open
pub mod Relay
pub mod Session
mod Tests
