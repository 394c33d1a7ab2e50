-- ===== src/Inet.antt =====
-- packages/sys_call_demo/inet_socket_demo: a datagram server that echoes, its client, and two demos
-- of name resolution.
pub mod Calls
pub mod Server
pub mod Client
pub mod Names
pub mod Session
mod Tests
