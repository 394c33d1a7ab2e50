-- ===== src/NamedSem/Demos.antt =====
-- `create_demo`, `unlink_demo`, `wait_demo`, `post_demo` and `get_demo` of posix_sem_demo.c, as they
-- are compiled with `POSIX_SEM_TIMED` 1.
pub mod Laws
use myfreelib.Base.{ℕ, ℤ, pos, minus_one, eq_ℤ, ◌+ℤ◌, int, [], ◌∷◌, some, none, if◌then◌else◌}
use myfreelib.Base.Sys.{pure, call, ◌>>=◌, ◌>>◌}
use myfreelib.NamedSem.Calls.{
  Io, print, clock_gettime, sem_create, sem_open, sem_unlink, sem_close, sem_timedwait, sem_post,
  sem_getvalue,
}

-- `POSIX_SEM_INIT`
abbrev posix_sem_init : ℕ
posix_sem_init = 0

abbrev open_failed : Io ℤ
open_failed = do call (print "sem_open failed.\n" []); pure minus_one

-- `sem_close(sem); return 0;`
abbrev close_and_return : (sem : ℕ) → Io ℤ
close_and_return sem = do call (sem_close sem); pure (pos 0)

pub create_demo : Io ℤ
create_demo = do
  o ← call (sem_create posix_sem_init)
  elim o.sem [ none ↦ open_failed | some sem ↦ close_and_return sem ]

pub unlink_demo : Io ℤ
unlink_demo = do
  u ← call sem_unlink
  if eq_ℤ u.ret minus_one
      then (do call (print "sem_unlink failed.\n" []); pure minus_one)
      else pure (pos 0)

-- `wait_demo` from the message on.
wait_for : (tv_sec : ℤ) (sem : ℕ) → Io ℤ
wait_for tv_sec sem = do
  call (print "waitting sem...\n" [])
  w ← call (sem_timedwait sem tv_sec)
  if eq_ℤ w.ret minus_one
      then (do call (print "timeout.\n" []); pure minus_one)
      else (do call (print "finshed.\n" []); close_and_return sem)

unfoldable pub wait_demo : Io ℤ
unfolding wait_for
wait_demo = do
  c ← call clock_gettime
  if eq_ℤ c.ret minus_one
      then (do call (print "clock_gettime failed.\n" []); pure minus_one)
      else (do
        o ← call sem_open
        elim o.sem [ none ↦ open_failed | some sem ↦ wait_for (c.tv_sec +ℤ pos 10) sem ])

-- `post_demo` with the semaphore.
post_to : (sem : ℕ) → Io ℤ
post_to sem = do
  p ← call (sem_post sem)
  if eq_ℤ p.ret minus_one
      then (do call (print "sem_post failed.\n" []); pure minus_one)
      else close_and_return sem

pub post_demo : Io ℤ
unfolding post_to
post_demo = do o ← call sem_open; elim o.sem [ none ↦ open_failed | some sem ↦ post_to sem ]

-- `get_demo` with the semaphore.
get_from : (sem : ℕ) → Io ℤ
get_from sem = do
  g ← call (sem_getvalue sem)
  if eq_ℤ g.ret minus_one
      then (do call (print "sem_getvalue failed.\n" []); pure minus_one)
      else (do call (print "posix sem value is: %d\n" (int g.value ∷ [])); close_and_return sem)

pub get_demo : Io ℤ
unfolding get_from
get_demo = do o ← call sem_open; elim o.sem [ none ↦ open_failed | some sem ↦ get_from sem ]
