-- ===== src/PosixMq/Notify.antt =====
-- `sig_notify_demo`, `threadFunc` and `thr_notify_demo` of posix_mq_demo.c.
pub mod Laws
use myfreelib.Base.{
  ℕ, zero, suc, ℤ, minus_one, eq_ℤ, is_neg, int, [], ◌∷◌, Option, some, none, if◌then◌else◌,
}
use myfreelib.Base.Sys.{pure, call, ◌>>=◌, ◌>>◌}
use myfreelib.PosixMq.Calls.{
  Io, posix_mq_path, rdwr, rdonly_nonblock, print, mq_open, mq_receive, mq_notify_signal,
  mq_notify_thread, block_signal, sigaction, sigsuspend, sleep, pthread_exit,
}
use myfreelib.PosixMq.Queue.{max_msg, msg_size}

-- `while((numRead = mq_receive(mqd, buffer, size, NULL)) >= 0)`, on fuel; `none` means that the
-- fuel ran out.
pub drain : ℕ → (mqd : ℤ) (size : ℕ) → Io (Option (Unit {0}))
drain zero mqd size = pure none
drain (suc fuel) mqd size = do
  r ← call (mq_receive mqd size)
  if is_neg r.ret
      then pure (some tt)
      else (do call (print "read %ld bytes.\n" (int r.ret ∷ [])); drain fuel mqd size)

abbrev failed : Io (Option ℤ)
failed = do call (print "mq_notify failed.\n" []); pure (some minus_one)

-- The loop of `sig_notify_demo` for so many signals: `some` is the value that it returns.
on_signals : (signals fuel : ℕ) (mqd : ℤ) → Io (Option ℤ)
on_signals zero fuel mqd = pure none
on_signals (suc n) fuel mqd = do
  call sigsuspend
  s ← call (mq_notify_signal mqd)
  if eq_ℤ s.ret minus_one then failed else (do drain fuel mqd msg_size; on_signals n fuel mqd)

pub sig_notify_demo : (signals fuel : ℕ) → Io (Option ℤ)
sig_notify_demo signals fuel = do
  m ← call (mq_open posix_mq_path rdonly_nonblock)
  if eq_ℤ m.ret minus_one
      then (do call (print "mq_open fail.\n" []); pure (some minus_one))
      else (do
        b ← call block_signal
        if eq_ℤ b.ret minus_one
            then (do call (print "sigprocmask failed.\n" []); pure (some minus_one))
            else (do
              a ← call sigaction
              if eq_ℤ a.ret minus_one
                  then (do call (print "sigaction failed.\n" []); pure (some minus_one))
                  else (do
                    s ← call (mq_notify_signal m.ret)
                    if eq_ℤ s.ret minus_one then failed else on_signals signals fuel m.ret)))

-- `threadFunc`: it receives with `MAX_MSG` as the size of its buffer.
pub thread_func : (fuel : ℕ) (mqd : ℤ) → Io (Option (Unit {0}))
thread_func fuel mqd = do
  s ← call (mq_notify_thread mqd)
  if eq_ℤ s.ret minus_one then (do call (print "mq_notify failed.\n" []); pure (some tt)) else (do
    done ← drain fuel mqd max_msg
    elim done [ none ↦ pure none | some x ↦ (do call pthread_exit; pure (some x)) ])

-- So many rounds of the last loop of `thr_notify_demo`.
sleep_on : ℕ → Io (Option ℤ)
sleep_on zero = pure none
sleep_on (suc n) = do call (print "sleep...\n" []); call (sleep 1); sleep_on n

pub thr_notify_demo : (rounds : ℕ) → Io (Option ℤ)
thr_notify_demo rounds = do
  m ← call (mq_open posix_mq_path rdwr)
  if eq_ℤ m.ret minus_one
      then (do call (print "mq_open failed.\n" []); pure (some minus_one))
      else (do
        s ← call (mq_notify_thread m.ret)
        if eq_ℤ s.ret minus_one then failed else sleep_on rounds)
