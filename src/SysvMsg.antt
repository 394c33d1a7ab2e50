-- ===== src/SysvMsg.antt =====
-- packages/sys_call_demo/sysv_msg_demo, with NEW_SERVER_CLIENT_MODEL defined as its Makefile does:
-- a server sends files to clients over message queues.
pub mod Calls
pub mod Server
pub mod Client
pub mod Mbuf
pub mod Reaper
pub mod Transfer
mod Tests
