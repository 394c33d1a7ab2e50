-- ===== src/SeqNum.antt =====
-- packages/sys_call_demo/pipe_demo, pipe_server.c and pipe_client.c: a server hands out sequence
-- numbers over named pipes.
pub mod Calls
pub mod Server
pub mod Client
pub mod Blocks
pub mod Clients
mod Tests
