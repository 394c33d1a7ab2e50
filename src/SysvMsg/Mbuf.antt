-- ===== src/SysvMsg/Mbuf.antt =====
-- sysv_msg_server.c and sysv_msg_client.c without NEW_SERVER_CLIENT_MODEL: the server prints the
-- messages of a queue, a client sends one.
pub mod Laws
use myfreelib.Base.{
  ℕ, zero, suc, ℤ, pos, minus_one, eq_ℤ, int, String, Arg, Option, some, none, List, [], ◌∷◌, ◌++◌,
  length, drop, replicate, codes, ◌==◌, map, if◌then◌else◌,
}
use myfreelib.Base.Sys.{Trace, Prog, pure, call, ◌>>=◌, ◌>>◌}

-- `struct mbuf`, with the 100 bytes of `mtext`
pub record Mbuf : Type 0 where
  pub mtype : ℤ
  pub mtext : List ℕ

-- `MY_KEY` and `IPC_RMID`
abbrev my_key : ℕ
my_key = 1456

abbrev ipc_rmid : ℕ
ipc_rmid = 0

pub data Call : Type 0 where
  print : String → List Arg → Call
  -- `printf("Receive message: type=%ld, data=%s.\n", …)`; `none` means that no zero ends the text
  print_message : (mtype : ℤ) → (data_text : Option (List ℕ)) → Call
  signal : (name : String) → Call
  atexit : (function : String) → Call
  create_queue : (key : ℕ) → Call  -- `msgget(key, IPC_CREAT|IPC_EXCL|…)`
  open_queue : (key : ℕ) → Call  -- `msgget(key, 0)`
  msgrcv : (queue : ℤ) → (size : ℕ) → Call
  msgsnd : (queue : ℤ) → Mbuf → (size : ℕ) → Call
  msgctl : (queue : ℤ) → (cmd : ℕ) → Call
  sleep : (seconds : ℕ) → Call

-- The return value, `errno`, and the type and the bytes of the message that `msgrcv` stores.
pub record Reply : Type 0 where
  pub ret : ℤ
  pub errno : ℕ
  pub mtype : ℤ
  pub bytes : List ℕ

abbrev pub Io : Type 0 → Type 0
Io A = Prog Call Reply A

abbrev pub History : Type 0
History = Trace Call Reply

-- `sig_handler` up to its `exit(-1)`
sig_handler : (msgid sig : ℤ) → Io (Unit {0})
sig_handler msgid sig = do
  call (print "Receive signal(%d).\n" (int sig ∷ []))
  call (msgctl msgid ipc_rmid)
  pure tt

clean : (msgid : ℤ) → Io (Unit {0})
clean msgid = do call (print "Remove message queue.\n" []); call (msgctl msgid ipc_rmid); pure tt

-- The text that `%s` prints: the bytes before the first zero, if the buffer has one.
abbrev pub text_of : List ℕ → Option (List ℕ)
text_of [] = none
text_of (b ∷ bs) =
    let rest = text_of bs in
    if b == 0 then some [] else elim rest [ none ↦ none | some s ↦ some (b ∷ s) ]

-- `msg` after a message was received: it overwrites the front of `mtext`.
abbrev stored : Mbuf → Reply → Mbuf
stored msg r = record { mtype = r.mtype; mtext = r.bytes ++ drop (length r.bytes) msg.mtext }

-- The body of the server's `while(1)`.
unfoldable pub round : (msgid : ℤ) → Mbuf → Io Mbuf
round msgid msg = do
  r ← call (msgrcv msgid 100)
  if eq_ℤ r.ret minus_one then (do call (sleep 1); pure msg) else (do
    call (print_message (stored msg r).mtype (text_of (stored msg r).mtext))
    pure (stored msg r))

-- So many rounds of the loop, which has no end.
unfoldable pub rounds : ℕ → (msgid : ℤ) → Mbuf → Io Mbuf
rounds zero msgid msg = pure msg
rounds (suc n) msgid msg = do msg' ← round msgid msg; rounds n msgid msg'

-- The part of the server's `main` up to its `msgget`, with the answer of that.
unfoldable pub setup : Io Reply
setup = do
  call (signal "SIGINT")
  call (signal "SIGTERM")
  call (atexit "clean")
  q ← call (create_queue my_key)
  pure q

-- `main` of the server with `msg` as it stands on its stack, stopped after so many rounds; `none`
-- means that it has not returned.
unfoldable pub server : ℕ → (msg : Mbuf) → Io (Option ℤ)
server n msg = do
  q ← setup
  if eq_ℤ q.ret minus_one
      then (do
        call (print "Create message queue fail, errno=%d.\n" (int (pos q.errno) ∷ []))
        pure (some minus_one))
      else (do rounds n q.ret msg; pure none)

-- The client's `msg`, whose initializer fills `mtext` with zeros.
abbrev pub hello : Mbuf
hello = record { mtype = pos 100; mtext = codes "hello" ++ replicate 95 0 }

-- `main` of the client
unfoldable pub client : Io ℤ
client = do
  q ← call (open_queue my_key)
  if eq_ℤ q.ret minus_one
      then (do call (print "Get msgid fail.\n" []); pure minus_one)
      else (do call (print "send messgae.\n" []); s ← call (msgsnd q.ret hello 100); pure s.ret)
