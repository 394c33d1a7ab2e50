-- ===== src/SysvSem.antt =====
-- `sysv_sem_simple` of packages/sys_call_demo/sysv_sem_demo/sysv_sem_demo.c.
use myfreelib.Base.{ℕ, ℤ, pos, minus_one, eq_ℤ, int, String, List, [], ◌∷◌, Arg, if◌then◌else◌}
use myfreelib.Base.Sys.{Prog, pure, call, ◌>>=◌, ◌>>◌}

pub data Call : Type 0 where
  print : String → List Arg → Call
  getpid : Call
  create_private : Call  -- `semget(IPC_PRIVATE, 1, …)`
  set_val : (semid val : ℤ) → Call
  semop : (semid sem_op : ℤ) → Call

pub record Reply : Type 0 where
  pub ret : ℤ

abbrev pub Io : Type 0 → Type 0
Io A = Prog Call Reply A

-- `atoi` is the C library's, and `usage` the function of that name.
module _ (atoi : List ℕ → ℤ) (usage : Io (Unit {0})) where
  -- With `argv[2]`: a new semaphore of this value.
  pub create : (value : List ℕ) → Io ℤ
  create value = do
    s ← call create_private
    if eq_ℤ s.ret minus_one then (do call (print "create sem fail.\n" []); pure minus_one) else (do
      v ← call (set_val s.ret (atoi value))
      if eq_ℤ v.ret minus_one
          then (do call (print "SETVAL fail.\n" []); pure minus_one)
          else (do call (print "Semaphore ID = %d\n" (int s.ret ∷ [])); pure (pos 0)))

  -- With `argv[2]` and `argv[3]`: an operation on a semaphore.
  operate : (semid sem_op : List ℕ) → Io ℤ
  operate semid sem_op = do
    p ← call getpid
    call (print "%ld: about to semop\n" (int p.ret ∷ []))
    o ← call (semop (atoi semid) (atoi sem_op))
    if eq_ℤ o.ret minus_one then (do call (print "semop fail.\n" []); pure minus_one) else (do
      q ← call getpid
      call (print "%ld: semop completed\n" (int q.ret ∷ []))
      pure (pos 0))

  pub sysv_sem_simple : (argv : List (List ℕ)) → Io ℤ
  unfolding create operate
  sysv_sem_simple (argv0 ∷ option ∷ value ∷ []) = create value
  sysv_sem_simple (argv0 ∷ option ∷ semid ∷ sem_op ∷ []) = operate semid sem_op
  sysv_sem_simple argv = do usage; pure (pos 0)
