-- ===== src/PosixShm/Setup.antt =====
-- The functions of posix_shm_demo.c above their loops.
mod Laws
use myfreelib.Base.{ℕ, ℤ, pos, minus_one, eq_ℤ, String, Option, some, none, if◌then◌else◌}
use myfreelib.Base.Sys.{Prog, pure, call, ◌>>=◌, ◌>>◌}

pub data Semaphore : Type 0 where
  read write : Semaphore

pub data Call : Type 0 where
  print : String → Call
  shm_create : Call  -- `shm_open` with `O_CREAT|O_EXCL|O_RDWR`
  shm_open : Call
  shm_unlink : Call
  ftruncate : (shmd : ℤ) → Call  -- to `SHM_SIZE`
  mmap : (shmd : ℤ) → Call  -- of `SHM_SIZE` bytes, shared
  sem_init : (shmp : ℤ) → Semaphore → (value : ℕ) → Call

-- The return value; an address is a number, and `MAP_FAILED` is -1.
pub record Reply : Type 0 where
  pub ret : ℤ

abbrev pub Io : Type 0 → Type 0
Io A = Prog Call Reply A

pub create_demo : Io ℤ
create_demo = do
  d ← call shm_create
  if eq_ℤ d.ret minus_one then (do call (print "shm_open failed.\n"); pure minus_one) else (do
    f ← call (ftruncate d.ret)
    if eq_ℤ f.ret minus_one
        then (do call (print "ftruncate failed.\n"); pure minus_one)
        else pure (pos 0))

pub unlink_demo : Io ℤ
unlink_demo = do call shm_unlink; pure (pos 0)

abbrev fail : String → Io (Option ℤ)
fail message = do call (print message); pure none

-- What `server_demo` and `client_demo` share: the address of the segment, or `none` where they
-- return -1.
map_segment : Io (Option ℤ)
map_segment = do
  d ← call shm_open
  if eq_ℤ d.ret minus_one then fail "shm_open failed.\n" else (do
    p ← call (mmap d.ret)
    if eq_ℤ p.ret minus_one then fail "mmap failed.\n" else pure (some p.ret))

init_semaphores : Option ℤ → Io (Option ℤ)
init_semaphores none = pure none
init_semaphores (some shmp) = do
  r ← call (sem_init shmp read 0)
  if eq_ℤ r.ret minus_one then fail "init read sem failed.\n" else (do
    w ← call (sem_init shmp write 1)
    if eq_ℤ w.ret minus_one then fail "init write sem failed.\n" else pure (some shmp))

server_setup : Io (Option ℤ)
unfolding map_segment init_semaphores
server_setup = do p ← map_segment; init_semaphores p

client_setup : Io (Option ℤ)
unfolding map_segment
client_setup = map_segment
