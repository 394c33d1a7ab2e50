-- ===== src/PosixMq/Tests.antt =====
-- The theorems about the message queue at systems that answer in a fixed way.
use myfreelib.Base.{
  ℕ, ℤ, pos, minus_one, eq_ℤ, is_neg, not, ltb, false, List, [], ◌∷◌, ◌≡◌, refl, arith, ◌<◌,
  if◌then◌else◌,
}
use myfreelib.PosixMq.Calls.{
  Msg, Call, Reply, History, mq_timedreceive, mq_receive, pending, printed, taken,
}
use myfreelib.PosixMq.Queue.{msg_size}
use myfreelib.PosixMq.Messages.{returned, hello, send_demo, receive_demo}
use myfreelib.PosixMq.Messages.Laws.{Delivers, receive_demo-send_demo}

abbrev no_msg : Msg
no_msg = record { kind = pos 0; text = [] }

abbrev returns : ℤ → Msg → Reply
returns n m = record {
  ret = n;
  errno = 0;
  is_null = false;
  msg = m;
  mq_maxmsg = pos 5;
  mq_msgsize = pos 2048;
}

-- A receive fails at an empty queue and takes the oldest message from any other.
abbrev oldest : List Msg → Reply
oldest [] = returns minus_one no_msg
oldest (m ∷ ms) = returns (pos 132) m

abbrev fifo_os : History → Call → Reply
fifo_os t (mq_timedreceive mqd size to) = oldest (pending t)
fifo_os t c = returns (pos 3) no_msg

oldest-cases :
    (ms : List Msg)
    → eq_ℤ (oldest ms).ret minus_one ≡ false
    → (rest : List Msg) × (ms ≡ (oldest ms).msg ∷ rest)
oldest-cases [] h = cc
oldest-cases (m ∷ ms) h = (ms, refl)

fifo_os-Delivers : Delivers fifo_os
fifo_os-Delivers t mqd size to h = oldest-cases (pending t) h

sends : (send_demo (pos 0) fifo_os []).0 ≡ pos 0
unfolding send_demo
sends = refl

receives : (receive_demo fifo_os (send_demo (pos 0) fifo_os []).1).0 ≡ returned (pos 0)
unfolding send_demo receive_demo
receives = refl

receive_demo-send_demo_example :
    (printed (receive_demo fifo_os (send_demo (pos 0) fifo_os []).1).1 ≡ hello ∷ [])
    × (pending (receive_demo fifo_os (send_demo (pos 0) fifo_os []).1).1 ≡ [])
receive_demo-send_demo_example =
    receive_demo-send_demo fifo_os (pos 0) [] fifo_os-Delivers refl sends receives

-- Two messages can be taken, with a buffer that is large enough.
abbrev two_os : History → Call → Reply
two_os t (mq_receive mqd size) =
    if ltb size msg_size
    then returns minus_one no_msg
    else if ltb (taken t) 2
    then returns (pos 10) no_msg
    else returns minus_one no_msg
two_os t c = returns (pos 0) no_msg

two_messages :
    (t : History) → is_neg (two_os t (mq_receive (pos 3) msg_size)).ret ≡ not (ltb (taken t) 2)
two_messages t = ground arith

size_too_small :
    (t : History) (size : ℕ)
    → size < msg_size
    → (two_os t (mq_receive (pos 3) size)).ret ≡ minus_one
size_too_small t size h = ground arith
