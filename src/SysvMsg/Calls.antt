-- ===== src/SysvMsg/Calls.antt =====
-- The calls of sysv_msg_server.c and sysv_msg_client.c, and the structures of sysv_msg_demo.h.
use myfreelib.Base.{ℕ, ℤ, String, List, Arg, Bool}
use myfreelib.Base.Sys.{Trace, Prog}

-- `requestMsg`, with the path as the bytes before the zero
pub record Request : Type 0 where
  pub client_id : ℤ
  pub pathname : List ℕ

-- A `responseMsg` as it is sent, with as many bytes of `data` as the size argument says.
pub record Response : Type 0 where
  pub mtype : ℕ
  pub data_bytes : List ℕ

abbrev pub resp_mt_failure : ℕ
resp_mt_failure = 1

abbrev pub resp_mt_data : ℕ
resp_mt_data = 2

abbrev pub resp_mt_end : ℕ
resp_mt_end = 3

-- `PATH_MAX`
abbrev pub path_max : ℕ
path_max = 300

-- `SERVER_KEY`
abbrev pub server_key : ℕ
server_key = 0x1aaaaaa1

pub data Call : Type 0 where
  print : String → List Arg → Call
  print_text : List ℕ → Call  -- `printf("%s\n", …)` of bytes
  sigaction : (signal : String) → Call
  atexit : (function : String) → Call
  create_server_queue : Call  -- `msgget(SERVER_KEY, IPC_CREAT|IPC_EXCL|…)`
  open_server_queue : Call  -- `msgget(SERVER_KEY, S_IWUSR)`
  create_private_queue : Call  -- `msgget(IPC_PRIVATE, …)`
  receive_request : (queue : ℤ) → Call
  send_request : (queue : ℤ) → Request → Call
  receive_response : (queue : ℤ) → Call
  send_response : (queue : ℤ) → Response → Call
  msgctl : (queue : ℤ) → (cmd : ℕ) → Call
  fork : Call
  open_input : (path : List ℕ) → Call
  open_output : Call  -- `open("/tmp/sysv_msg_recive", …)`
  truncate_output : (fd : ℤ) → Call
  rewind_output : (fd : ℤ) → Call
  read_input : (fd : ℤ) → Call
  write_output : (fd : ℤ) → (buffer : List ℕ) → (count : ℤ) → Call
  close : (fd : ℤ) → Call

-- The return value, and what the call filled in: the bytes of a read, a request, a response.
pub record Reply : Type 0 where
  pub ret : ℤ
  pub interrupted : Bool  -- `errno == EINTR`
  pub bytes : List ℕ
  pub request : Request
  pub response : Response

abbrev pub Io : Type 0 → Type 0
Io A = Prog Call Reply A

abbrev pub History : Type 0
History = Trace Call Reply
