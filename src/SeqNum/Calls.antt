-- ===== src/SeqNum/Calls.antt =====
-- The calls of pipe_server.c and pipe_client.c, and the structures of pipe_demo.h.
use myfreelib.Base.{ℕ, ℤ, String, List, Arg}
use myfreelib.Base.Sys.{Trace, Prog}

-- `request_t`; the number is the bit pattern of an `int`.
pub record Request : Type 0 where
  pub pid : ℕ
  pub seq_len : ℕ

-- `response_t`
pub record Response : Type 0 where
  pub seq_num : ℕ

-- `SERVER_FIFO`, and `CLIENT_FIFO_TEMPLATE` with a process number
pub data FifoName : Type 0 where
  server_fifo : FifoName
  client_fifo : (pid : ℕ) → FifoName

pub data OpenMode : Type 0 where
  read_only write_only : OpenMode

pub data Call : Type 0 where
  print : String → List Arg → Call
  print_name : String → FifoName → Call  -- a `printf` of the name of a pipe
  getpid : Call
  mkfifo : FifoName → Call
  atexit_unlink : FifoName → Call  -- `atexit` of the function that unlinks this name
  unlink : FifoName → Call
  open_fifo : FifoName → OpenMode → Call
  close : (fd : ℤ) → Call
  ignore_sigpipe : Call  -- `signal(SIGPIPE, SIG_IGN)`
  read_request : (fd : ℤ) → Call
  write_request : (fd : ℤ) → Request → Call
  read_response : (fd : ℤ) → Call
  write_response : (fd : ℤ) → Response → Call

-- The return value, and the structure that a read filled in. The process number that `getpid`
-- returns is `request.pid`.
pub record Reply : Type 0 where
  pub ret : ℤ
  pub request : Request
  pub response : Response

abbrev pub Io : Type 0 → Type 0
Io A = Prog Call Reply A

abbrev pub History : Type 0
History = Trace Call Reply
