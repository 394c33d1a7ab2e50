-- ===== src/PosixMq.antt =====
-- packages/sys_call_demo/posix_mq_demo: a POSIX message queue, its messages and its notifications.
pub mod Calls
pub mod Queue
pub mod Messages
pub mod Notify
mod Tests
