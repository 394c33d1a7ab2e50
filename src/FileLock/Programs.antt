-- ===== src/FileLock/Programs.antt =====
-- The functions of file_lock_demo.c as sequences of calls.
use myfreelib.Base.{ℤ, pos, minus_one, eq_ℤ, String, [], ◌∷◌, List, str, int, Arg, ℕ, if◌then◌else◌}
use myfreelib.Base.Sys.{Prog, pure, call, ◌>>=◌, ◌>>◌}

pub data Flock : Type 0 where
  lock_sh lock_ex lock_un : Flock

-- `l_type`; the lock always begins at the current position and goes on to the end of the file.
pub data LockType : Type 0 where
  f_rdlck f_wrlck f_unlck : LockType

pub data Call : Type 0 where
  print : String → List Arg → Call
  system : String → Call
  getpid : Call
  open_lock_file : Call  -- `open(FILE_LOCK_PATH, O_RDWR)`
  flock : (fd : ℤ) → Flock → Call
  set_lock_wait : (fd : ℤ) → LockType → Call  -- `fcntl(fd, F_SETLKW, &fl)`
  sleep : (seconds : ℕ) → Call
  close : (fd : ℤ) → Call

pub record Reply : Type 0 where
  pub ret : ℤ

abbrev pub Io : Type 0 → Type 0
Io A = Prog Call Reply A

pub init : Io ℤ
init = do r ← call (system "ps -A > /tmp/file_lock_test"); pure r.ret

abbrev open_failed : Io ℤ
open_failed = do
  call (print "open file %s failed.\n" (str "/tmp/file_lock_test" ∷ []))
  pure minus_one

abbrev fail : String → Io ℤ
fail message = do call (print message []); pure minus_one

pub share_lc_demo : Io ℤ
share_lc_demo = do
  pid ← call getpid
  f ← call open_lock_file
  if eq_ℤ f.ret minus_one then open_failed else (do
    l ← call (flock f.ret lock_sh)
    if eq_ℤ l.ret minus_one then fail "add LOCK_SH failed.\n" else (do
      call (print "process %d add LOCK_SH.\n" (int pid.ret ∷ []))
      call (sleep 10)
      u ← call (flock f.ret lock_un)
      if eq_ℤ u.ret minus_one then fail "delete LOCK_SH failed.\n" else (do
        call (print "process %d delete LOCK_SH.\n" (int pid.ret ∷ []))
        call (close f.ret)
        pure (pos 0))))

pub mutex_lc_demo : Io ℤ
mutex_lc_demo = do
  pid ← call getpid
  f ← call open_lock_file
  if eq_ℤ f.ret minus_one then open_failed else (do
    l ← call (flock f.ret lock_ex)
    if eq_ℤ l.ret minus_one then fail "add LOCK_EX failed.\n" else (do
      call (print "process %d add LOCK_EX.\n" (int pid.ret ∷ []))
      call (sleep 10)
      u ← call (flock f.ret lock_un)
      if eq_ℤ u.ret minus_one then fail "delete LOCK_EX failed.\n" else (do
        call (print "process %d delete LOCK_EX.\n" (int pid.ret ∷ []))
        call (close f.ret)
        pure (pos 0))))

-- What the three functions with `fcntl` share. A failing `fcntl` makes them return 0.
fcntl_demo : LockType → (done : String) → Io ℤ
fcntl_demo l_type done = do
  pid ← call getpid
  f ← call open_lock_file
  if eq_ℤ f.ret minus_one then open_failed else (do
    l ← call (set_lock_wait f.ret l_type)
    if eq_ℤ l.ret minus_one then (do call (print "fcntl failed.\n" []); pure (pos 0)) else (do
      call (print done (int pid.ret ∷ []))
      call (sleep 10)
      call (print "pid(%d) exit.\n" (int pid.ret ∷ []))
      pure (pos 0)))

pub fcntl_re_demo : Io ℤ
unfolding fcntl_demo
fcntl_re_demo = fcntl_demo f_rdlck "pid(%d) add read lock.\n"

pub fcntl_wr_demo : Io ℤ
unfolding fcntl_demo
fcntl_wr_demo = fcntl_demo f_wrlck "pid(%d) add write lock.\n"

pub fcntl_un_demo : Io ℤ
unfolding fcntl_demo
fcntl_un_demo = fcntl_demo f_unlck "pid(%d) delete a write lock.\n"
