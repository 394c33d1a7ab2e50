-- ===== src/UnixSocket.antt =====
-- packages/sys_call_demo/unix_socket_demo: a stream server with a thread for each client, a datagram
-- server, and their clients.
pub mod Calls
pub mod Server
pub mod Client
pub mod Session
mod Tests
