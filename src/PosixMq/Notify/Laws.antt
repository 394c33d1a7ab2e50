-- ===== src/PosixMq/Notify/Laws.antt =====
-- What the notification loops of posix_mq_demo.c receive.
use myfreelib.Base.{
  ℕ, zero, suc, ℤ, minus_one, is_neg, ltb, not, some, ◌≡◌, arith, ◌+◌, ◌<◌, ◌-◌, int, [], ◌∷◌,
}
use myfreelib.PosixMq.Calls.{Call, Reply, History, mq_receive, mq_notify_thread, taken, print}
use myfreelib.PosixMq.Queue.{msg_size}
use myfreelib.PosixMq.Notify.{drain, thread_func}

-- If `mq_receive` on a queue succeeds exactly until `total` messages have been taken, the drain loop
-- ends with any fuel above the number of messages left, and it has taken all of them.
drain_takes_all :
    (os : History → Call → Reply) (mqd : ℤ) (size total : ℕ)
    → ((t : History) → is_neg (os t (mq_receive mqd size)).ret ≡ not (ltb (taken t) total))
    → (fuel left : ℕ) (t : History) → taken t + left ≡ total
    → left < fuel
    → let (done, u) = drain fuel mqd size os t in (done ≡ some tt) × (taken u ≡ total)
unfolding drain
drain_takes_all os mqd size total m zero left t e h = elim h [ ]
drain_takes_all os mqd size total m (suc fuel) left t e h =
    let r = os t (mq_receive mqd size) in
    let line = print "read %ld bytes.\n" (int r.ret ∷ []) in
    let u = (mq_receive mqd size, r) ∷ t in
    ground (arith, m t, drain_takes_all os mqd size total m fuel (left - 1) ((line, os u line) ∷ u))

-- If `mq_receive` fails with a size below the queue's message size, 2048, then `threadFunc` ends
-- with no message taken, whatever the queue holds.
thread_func_takes_nothing :
    (os : History → Call → Reply) (mqd : ℤ) (fuel : ℕ) (t : History)
    → ((v : History) (size : ℕ) → size < msg_size → (os v (mq_receive mqd size)).ret ≡ minus_one)
    → let (done, u) = thread_func (suc fuel) mqd os t in (done ≡ some tt) × (taken u ≡ taken t)
unfolding thread_func drain
thread_func_takes_nothing os mqd fuel t h =
    let c = mq_notify_thread mqd in ground (arith, h ((c, os t c) ∷ t) 5)
