-- ===== src/PosixMq/Messages.antt =====
-- `send_demo` and `receive_demo` of posix_mq_demo.c, as they are compiled with `USE_TIMED`.
pub mod Laws
use myfreelib.Base.{ℕ, ℤ, pos, minus_one, eq_ℤ, ◌+ℤ◌, Bool, true, false, codes, [], if◌then◌else◌}
use myfreelib.Base.Sys.{pure, call, ◌>>=◌, ◌>>◌}
use myfreelib.PosixMq.Calls.{
  Io, Msg, Timeout, posix_mq_path, rdwr, rdonly, print, print_failure, print_msg, mq_open, mq_close,
  mq_timedsend, mq_timedreceive, time, malloc,
}
use myfreelib.PosixMq.Queue.{msg_size, create_failed}

-- `sizeof(msg_t)`
abbrev sizeof_msg : ℕ
sizeof_msg = 132

abbrev pub hello : Msg
hello = record { kind = pos 1; text = codes "Hello world.\n" }

-- `time_out` of `send_demo`: nothing is stored in its nanoseconds.
abbrev send_timeout : (garbage : ℤ) → Timeout
send_timeout garbage = record { tv_sec = pos 5; tv_nsec = garbage }

unfoldable pub send_demo : (garbage : ℤ) → Io ℤ
send_demo garbage = do
  m ← call (mq_open posix_mq_path rdwr)
  if eq_ℤ m.ret minus_one then create_failed else (do
    s ← call (mq_timedsend m.ret hello sizeof_msg 1 (send_timeout garbage))
    if eq_ℤ s.ret minus_one
        then (do call (print "mq_send fail.\n" []); pure minus_one)
        else (do call (mq_close m.ret); pure (pos 0)))

-- What a call leaves: a result, or a message read through a null pointer.
pub data Ending : Type 0 where
  returned : ℤ → Ending
  fault : Ending

-- The end of `receive_demo`.
abbrev show_msg : (is_null : Bool) (mqd : ℤ) → Msg → Io Ending
show_msg true mqd msg = pure fault
show_msg false mqd msg = do call (print_msg msg); call (mq_close mqd); pure (returned (pos 0))

-- The part of `receive_demo` after the test of `malloc`.
abbrev receive_into : (is_null : Bool) → Timeout → Io Ending
receive_into is_null to = do
  m ← call (mq_open posix_mq_path rdonly)
  if eq_ℤ m.ret minus_one then (do create_failed; pure (returned minus_one)) else (do
    r ← call (mq_timedreceive m.ret msg_size to)
    if eq_ℤ r.ret minus_one
        then (do call (print_failure "receive_demo" r.errno); pure (returned minus_one))
        else show_msg is_null m.ret r.msg)

unfoldable pub receive_demo : Io Ending
receive_demo = do
  now ← call time
  p ← call (malloc msg_size)
  if p.is_null then (do call (print "malloc fail.\n" []); pure tt) else pure tt
  receive_into p.is_null (record { tv_sec = now.ret +ℤ pos 10; tv_nsec = pos 0 })
