-- ===== src/SysvQueue.antt =====
-- packages/sys_call_demo/sysv_msg_demo/sysv_msg_demo.c: the attributes of a System V message queue, and
-- a table of all queues.
pub mod Programs
mod Tests
