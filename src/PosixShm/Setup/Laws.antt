-- ===== src/PosixShm/Setup/Laws.antt =====
-- What the set-up of posix_shm_demo.c leaves.
use myfreelib.Base.{
  ℕ, minus_one, eq_ℤ, Option, none, some, List, [], ◌∷◌, ◌≡◌, ◌≢◌, arith, if◌then◌else◌,
}
use myfreelib.Base.Sys.{Trace}
use myfreelib.PosixShm.Model.{start}
use myfreelib.PosixShm.Setup.{Semaphore, Call, Reply, sem_init, server_setup}

abbrev History : Type 0
History = Trace Call Reply

-- The value that a semaphore got last.
abbrev read_value : History → Option ℕ
read_value [] = none
read_value ((sem_init p Semaphore.read n, r) ∷ t) =
    if eq_ℤ r.ret minus_one then read_value t else some n
read_value (_ ∷ t) = read_value t

abbrev write_value : History → Option ℕ
write_value [] = none
write_value ((sem_init p Semaphore.write n, r) ∷ t) =
    if eq_ℤ r.ret minus_one then write_value t else some n
write_value (_ ∷ t) = write_value t

-- When the server goes on to its loop, with the address of the segment, the two semaphores have the
-- values with which the interleaving of the two loops starts.
server_setup-start :
    (os : History → Call → Reply) (garbage : List ℕ)
    → (server_setup os []).0 ≢ none
    → let (p, u) = server_setup os [] in
      (read_value u ≡ some (start garbage).read) × (write_value u ≡ some (start garbage).write)
unfolding server_setup
server_setup-start os garbage h = ground arith
