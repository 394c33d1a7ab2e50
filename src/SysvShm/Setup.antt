-- ===== src/SysvShm/Setup.antt =====
-- The parts of sysv_shm_writer.c and sysv_shm_reader.c above their loops, and the functions that run at
-- their exit and on a signal.
pub mod Laws
use myfreelib.Base.{
  ℕ, ℤ, minus_one, eq_ℤ, is_neg, String, List, [], ◌∷◌, Option, some, none, remove, gain,
  if◌then◌else◌,
}
use myfreelib.Base.Sys.{Trace, Prog, pure, call, ◌>>=◌, ◌>>◌}

pub data Call : Type 0 where
  print : String → Call
  atexit_clean : Call
  signal : (name : String) → Call  -- with `sig_handler`
  create_semaphores : Call  -- `semget(SEM_KEY, 2, IPC_CREAT|OBJ_PERMS)`
  open_semaphores : Call  -- `semget(SEM_KEY, 0, 0)`
  set_all : (semid : ℤ) → (write_sem read_sem : ℕ) → Call
  remove_semaphores : (semid : ℤ) → Call
  create_segment : Call
  open_segment : Call
  shmat : (shmid : ℤ) → Call
  shmat_rdonly : (shmid : ℤ) → Call
  shmdt : (shmp : ℤ) → Call
  remove_segment : (shmid : ℤ) → Call

-- The return value; an address is a number.
pub record Reply : Type 0 where
  pub ret : ℤ

abbrev pub Io : Type 0 → Type 0
Io A = Prog Call Reply A

abbrev pub History : Type 0
History = Trace Call Reply

-- The static variables of the writer.
pub record Statics : Type 0 where
  pub semid : ℤ
  pub shmid : ℤ
  pub shmp : ℤ

abbrev statics : Statics
statics = record { semid = minus_one; shmid = minus_one; shmp = minus_one }

-- The value that `main` returns here, if it does not go on to its loop.
abbrev fail : String → Statics → Io (Option ℤ × Statics)
fail message s = do call (print message); pure (some minus_one, s)

-- The writer from `shmget` on.
attach_segment : Statics → Io (Option ℤ × Statics)
attach_segment s = do
  m ← call create_segment
  let s' = record s { shmid = m.ret }
  if eq_ℤ m.ret minus_one then fail "creat shm fail.\n" s' else (do
    p ← call (shmat m.ret)
    let s'' = record s' { shmp = p.ret }
    if eq_ℤ p.ret minus_one then fail "shmat fail.\n" s'' else pure (none, s''))

pub writer_setup : Io (Option ℤ × Statics)
unfolding attach_segment
writer_setup = do
  call atexit_clean
  call (signal "SIGINT")
  call (signal "SIGTERM")
  m ← call create_semaphores
  let s = record statics { semid = m.ret }
  if eq_ℤ m.ret minus_one then fail "creat sem fail.\n" s else (do
    i ← call (set_all m.ret 0 1)
    if is_neg i.ret then fail "init sem fail.\n" s else attach_segment s)

-- `clean` of the writer, and its `sig_handler`, which is the same.
pub writer_clean : Statics → Io (Unit {0})
writer_clean s = do
  if eq_ℤ s.semid minus_one then pure tt else (do call (remove_semaphores s.semid); pure tt)
  if eq_ℤ s.shmp minus_one then pure tt else (do call (shmdt s.shmp); pure tt)
  if eq_ℤ s.shmid minus_one then pure tt else (do call (remove_segment s.shmid); pure tt)

-- The reader: the value that `main` returns, if it does not go on, and its static `shmp`.
pub reader_setup : Io (Option ℤ × ℤ)
reader_setup = do
  call atexit_clean
  call (signal "SIGINT")
  call (signal "SIGTERM")
  m ← call open_semaphores
  if eq_ℤ m.ret minus_one
      then (do call (print "get sem fail.\n"); pure (some minus_one, minus_one))
      else (do
        g ← call open_segment
        if eq_ℤ g.ret minus_one
            then (do call (print "get shm fail.\n"); pure (some minus_one, minus_one))
            else (do
              p ← call (shmat_rdonly g.ret)
              if eq_ℤ p.ret minus_one
                  then (do call (print "shmat fail.\n"); pure (some minus_one, minus_one))
                  else pure (none, p.ret)))

-- `clean` and `sig_handler` of the reader.
pub reader_clean : (shmp : ℤ) → Io (Unit {0})
reader_clean shmp = if eq_ℤ shmp minus_one then pure tt else (do call (shmdt shmp); pure tt)
