-- ===== src/Lib.antt =====
-- A model of the demo programs of this repository: kernel modules under packages/driver, programs
-- that exercise the system calls of Linux under packages/sys_call_demo, the progress bar library
-- packages/colorprint, and packages/demo_code/memory_debug.
--
-- The programs are small and independent. What they share is their way of work: a sequence of
-- calls of the kernel or the C library, a test of each return value, and the release of what was
-- acquired. The kernel and the C library are no part of the repository. They are arguments here:
--   Base/Sys: a program is a function of a system, which maps any history of calls and answers
--     and a next call to an answer, and of the history so far. Nothing is assumed of the answers
--     but what a theorem names. Theorems speak about the history that a program leaves.
--   Base/Semaphore: the semaphores, by the laws of their manual pages.
--   Base/Channel: an abstract channel with room for one value, and what it is to simulate it.
--   Base, Base/Int, Base/Lists, Base/Text, Base/CString: shared names, C's signed results, lists,
--     texts, strings that end with a zero. Base/Descriptors: the descriptors open after a
--     history.
--
-- The parts; their tests and concrete instances are in a child Tests, where a part has them:
--   Driver: packages/driver. Driver/Kernel has the calls and a ledger of what a module holds
--     after a history. HelloClass is helloworld_class_driver.c (`hello_init`, `hello_exit`),
--     HelloChar is helloworld_char_driver.c, and from vexpress-a9: CharClass is
--     char_class_driver.c, FirstCdev is first_cdev.c, CharMisc is char_miscdevices.c, Hello is
--     helloworld.c (and helloworld/helloworld.c), Timer is helloworld_with_timer.c. UeventDemo is
--     uevent/uevent.c. Static variables are a record that the init function returns. IoctlTest
--     has the three test programs, and what they make a driver print. Modules has what four of
--     the modules have in common.
--   SysvShm: sysv_shm_demo. Setup has the part of both programs above their loops and their exit
--     functions. Model has the loops of sysv_shm_writer.c and sysv_shm_reader.c as two processes
--     interleaved in any order, one constructor for each statement that touches shared state;
--     Invariant, Safety, Progress and Termination are about all states that are reached, Channel
--     about an abstract channel with room for one block.
--   PosixShm: posix_shm_demo.c. Setup has `create_demo`, `unlink_demo` and what precedes the
--     loops, Model the loops of `server_demo` and `client_demo`, interleaved in the same way;
--     Words is about what the server prints of a word; Safety and Progress are about all states
--     that are reached, Channel about an abstract channel.
--   SeqNum: pipe_server.c and pipe_client.c of pipe_demo. Blocks is about the numbers handed out,
--     Clients about the two programs joined by their pipes.
--   SysvMsg: sysv_msg_server.c and sysv_msg_client.c, in the variant NEW_SERVER_CLIENT_MODEL that
--     the Makefile builds; Reaper has the handler of SIGCHLD, Transfer joins the two by the
--     client's queue. Mbuf has the variant without NEW_SERVER_CLIENT_MODEL.
--   SysvQueue: sysv_msg_demo.c, System V queues and their table.
--   PosixMq: posix_mq_demo.c. Queue, Messages and Notify have its functions in this order.
--   Inet: inet_socket_demo.c, the datagram server and client and the look-up of names; Session
--     joins the two by a network.
--   UnixSocket: unix_socket_demo.c, the stream and the datagram server and client; Session joins
--     the stream client and a thread of the stream server by their connection.
--   PipeDemo: pipe_demo.c. Programs has `pipe_demo` and `pipe_redirect`; Sync has `pipe_sync`
--     after its call of `pipe`, as a step relation of the parent and its children; Safety and
--     Progress are about all its runs.
--   FileLock: file_lock_demo.c. Flock has `share_lc_demo` and `mutex_lc_demo` in any number of
--     processes on one file.
--   Mmap: mmap_demo.c. IoModule: io_module_demo.c. SysvSem: sysv_sem_demo.c.
--   Pty: pty_demo.c. Open has `ptyMasterOpen` and `ptyFork`, Relay the loop of `pty_demo` and
--     what it copies, Session the rest of it.
--   MemoryDebug: packages/demo_code/memory_debug/memory_debug.c; Laws has a heap with its
--     mistakes.
--   Libdemo: libdemo/libdemo.c and libtmp.c; Laws has a run of the process; which handlers the C
--     library calls at its exit is an argument.
--   Colorprint: packages/colorprint. Codes has the macros and types of colorprint.h, Terminal
--     reads the escape sequences back, Demo is demo.c, the sample program. In colorprint.c:
--     Memory is a buffer in which an access out of range is a fault, Bar has `clprogress_init`
--     and `clprogress`, Print has `clprogress_print`.
--   Commands: the `main` functions that choose a function by `argv[1]`, and the usage texts.
--   NamedSem: `create_demo`, `unlink_demo`, `wait_demo`, `post_demo` and `get_demo` of
--     posix_sem_demo.c, with POSIX_SEM_TIMED 1; Threads has `uname_demo` and its threads after
--     `sem_init`, with the increment of `glob` as a load and a store, Termination and Progress
--     are about their runs.
--
-- Bounds and fuel. Loops without an end (the servers, the relay) are run for a number of rounds,
-- and the theorems hold for every number. The loops that end (`send_file`, `receive_rest`) take
-- fuel, and the theorems about them prove that more fuel than messages or reads gives the result,
-- and the same of `drain` of PosixMq. The step relations take no fuel. Sequence numbers wrap at 2
-- ^ 32; a `size_t` made from -1 is 2 ^ 64 - 1.
--
-- Not modelled: floats (`clprogress` takes the product of length and percentage as an integer),
-- signals and their handlers except the calls that they make, what the kernel does beyond the
-- laws named, what a word that `scanf` stores behind the mapping of posix_shm_demo.c would
-- overwrite (the client is killed there), the counts of transfers in sysv_shm_demo, which nothing
-- reads. packages/sys_call_demo/sysv_shm_demo/sysv_shm_demo.c is left out, since its `main`
-- stands under `#if 0`, and study/cpp, which prints a line.
pub mod Base
pub mod Driver
pub mod SysvShm
pub mod PosixShm
pub mod SeqNum
pub mod SysvMsg
pub mod Commands
pub mod Colorprint
pub mod Pty
pub mod NamedSem
pub mod Inet
pub mod PosixMq
pub mod PipeDemo
pub mod Mmap
pub mod FileLock
pub mod UnixSocket
pub mod SysvQueue
pub mod IoModule
pub mod SysvSem
pub mod Libdemo
pub mod MemoryDebug
