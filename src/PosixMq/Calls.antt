-- ===== src/PosixMq/Calls.antt =====
-- The calls of posix_mq_demo.c, and what a history of them has sent, received and printed.
use myfreelib.Base.{
  ℕ, suc, ℤ, minus_one, eq_ℤ, is_neg, Bool, String, List, [], ◌∷◌, ◌++◌, Arg, if◌then◌else◌,
}
use myfreelib.Base.Sys.{Trace, Prog}

-- `msg_t`, with `data` as the bytes before its zero
pub record Msg : Type 0 where
  pub kind : ℤ  -- the field `type`
  pub text : List ℕ

-- The names of the queues, `POSIX_MQ_PATH` and "/test".
pub data Queue : Type 0 where
  posix_mq_path test : Queue

pub data Access : Type 0 where
  rdwr rdonly rdonly_nonblock : Access

-- How a queue is created: with attributes, or with the null pointer in their place.
pub data Attr : Type 0 where
  attr : (mq_maxmsg mq_msgsize : ℕ) → Attr
  default : Attr

pub record Timeout : Type 0 where
  pub tv_sec : ℤ
  pub tv_nsec : ℤ

pub data Call : Type 0 where
  print : String → List Arg → Call
  print_attr : String → (mq_maxmsg mq_msgsize : ℤ) → Call
  print_failure : String → (errno : ℕ) → Call
  print_msg : Msg → Call  -- `printf("type=%d, data=%s\n", …)`
  mq_create : Queue → Attr → Call  -- `mq_open` with `O_RDWR|O_CREAT|O_EXCL`
  mq_open : Queue → Access → Call
  mq_close : (mqd : ℤ) → Call
  mq_unlink : Queue → Call
  mq_getattr : (mqd : ℤ) → Call
  mq_timedsend : (mqd : ℤ) → Msg → (size prio : ℕ) → Timeout → Call
  mq_timedreceive : (mqd : ℤ) → (size : ℕ) → Timeout → Call
  mq_receive : (mqd : ℤ) → (size : ℕ) → Call
  mq_notify_signal : (mqd : ℤ) → Call  -- `mq_notify` with `SIGEV_SIGNAL` and `NOTIFY_SIG`
  mq_notify_thread : (mqd : ℤ) → Call  -- `mq_notify` with `SIGEV_THREAD` and `threadFunc`
  block_signal : Call  -- `sigprocmask(SIG_BLOCK, …)` of `NOTIFY_SIG`
  sigaction : Call  -- with `handler`
  sigsuspend : Call
  time : Call
  malloc : (size : ℕ) → Call
  sleep : (seconds : ℕ) → Call
  pthread_exit : Call

-- The return value, `errno`, whether `malloc` returned a null pointer, the message received, and the
-- two attributes that `mq_getattr` stored.
pub record Reply : Type 0 where
  pub ret : ℤ
  pub errno : ℕ
  pub is_null : Bool
  pub msg : Msg
  pub mq_maxmsg : ℤ
  pub mq_msgsize : ℤ

abbrev pub Io : Type 0 → Type 0
Io A = Prog Call Reply A

abbrev pub History : Type 0
History = Trace Call Reply

abbrev tail : List Msg → List Msg
tail [] = []
tail (m ∷ ms) = ms

-- The messages that were sent and not yet received, by the timed calls that did not fail.
abbrev pub pending : History → List Msg
pending [] = []
pending ((mq_timedsend mqd m size prio to, r) ∷ t) =
    if eq_ℤ r.ret minus_one then pending t else pending t ++ m ∷ []
pending ((mq_timedreceive mqd size to, r) ∷ t) =
    if eq_ℤ r.ret minus_one then pending t else tail (pending t)
pending (_ ∷ t) = pending t

-- The messages printed, the last one first.
abbrev pub printed : History → List Msg
printed [] = []
printed ((print_msg m, r) ∷ t) = m ∷ printed t
printed (_ ∷ t) = printed t

-- How many calls of `mq_receive` did not fail.
abbrev pub taken : History → ℕ
taken [] = 0
taken ((mq_receive mqd size, r) ∷ t) = if is_neg r.ret then taken t else suc (taken t)
taken (_ ∷ t) = taken t
