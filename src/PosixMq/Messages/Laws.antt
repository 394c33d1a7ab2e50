-- ===== src/PosixMq/Messages/Laws.antt =====
-- What `receive_demo` prints after `send_demo`.
use myfreelib.Base.{ℕ, ℤ, pos, minus_one, eq_ℤ, false, List, [], ◌∷◌, ◌≡◌, arith, ◌++◌, ◌+ℤ◌}
use myfreelib.PosixMq.Calls.{
  Msg, Timeout, Call, Reply, History, mq_timedreceive, time, malloc, mq_open, posix_mq_path, rdonly,
  pending, printed,
}
use myfreelib.PosixMq.Queue.{msg_size}
use myfreelib.PosixMq.Messages.{hello, returned, send_demo, receive_demo}

-- What a receive that does not fail has stored is the oldest message that is pending.
abbrev pub Delivers : (History → Call → Reply) → Type 0
Delivers os =
    (t : History) (mqd : ℤ) (size : ℕ) (to : Timeout)
    → eq_ℤ (os t (mq_timedreceive mqd size to)).ret minus_one ≡ false
    → (rest : List Msg) × (pending t ≡ (os t (mq_timedreceive mqd size to)).msg ∷ rest)

send_demo_lem :
    (os : History → Call → Reply) (garbage : ℤ) (t : History)
    → let (a, u) = send_demo garbage os t in
      a ≡ pos 0 → (pending u ≡ pending t ++ hello ∷ []) × (printed u ≡ printed t)
unfolding send_demo
send_demo_lem os garbage t h = ground arith

receive_demo_lem :
    (os : History → Call → Reply) (t : History) (m : Msg) (rest : List Msg)
    → Delivers os
    → pending t ≡ m ∷ rest
    → let (b, v) = receive_demo os t in
      b ≡ returned (pos 0) → (printed v ≡ m ∷ printed t) × (pending v ≡ rest)
unfolding receive_demo
receive_demo_lem os t m rest d e h =
    let now = os t time in
    let t1 = (time, now) ∷ t in
    let p = os t1 (malloc msg_size) in
    let t2 = (malloc msg_size, p) ∷ t1 in
    let o = os t2 (mq_open posix_mq_path rdonly) in
    let t3 = (mq_open posix_mq_path rdonly, o) ∷ t2 in
    ground (arith, d t3 o.ret msg_size (record { tv_sec = now.ret +ℤ pos 10; tv_nsec = pos 0 }))

-- If the queue is empty and a receive delivers the oldest message, and `send_demo` and then
-- `receive_demo` return 0, then exactly one message has been printed, type 1 and "Hello world.\n",
-- and the queue is empty again.
pub receive_demo-send_demo :
    (os : History → Call → Reply) (garbage : ℤ) (t : History)
    → Delivers os
    → pending t ≡ []
    → (send_demo garbage os t).0 ≡ pos 0
    → (receive_demo os (send_demo garbage os t).1).0 ≡ returned (pos 0)
    → let v = (receive_demo os (send_demo garbage os t).1).1 in
      (printed v ≡ hello ∷ printed t) × (pending v ≡ [])
receive_demo-send_demo os garbage t d e a b =
    let u = (send_demo garbage os t).1 in
    ground (arith, send_demo_lem os garbage t, receive_demo_lem os u hello [] d)
