-- ===== src/NamedSem/Calls.antt =====
-- The calls that posix_sem_demo.c makes for its named semaphore.
use myfreelib.Base.{
  ℕ, suc, ℤ, minus_one, eq_ℤ, String, List, [], ◌∷◌, Arg, Option, some, none, if◌then◌else◌,
}
use myfreelib.Base.Sys.{Trace, Prog}

-- A semaphore is the `sem_t *` that a `sem_open` returned, as a number.
pub data Call : Type 0 where
  print : String → List Arg → Call
  clock_gettime : Call
  sem_create : (value : ℕ) → Call  -- `sem_open` with `O_CREAT | O_EXCL`
  sem_open : Call  -- `sem_open(POSIX_SEM_PATH, 0)`
  sem_unlink : Call
  sem_close : (sem : ℕ) → Call
  sem_timedwait : (sem : ℕ) → (tv_sec : ℤ) → Call
  sem_post : (sem : ℕ) → Call
  sem_getvalue : (sem : ℕ) → Call

-- The return value, the semaphore of a `sem_open`, none if that is `SEM_FAILED`, the value and the
-- seconds that a call filled in.
pub record Reply : Type 0 where
  pub ret : ℤ
  pub sem : Option ℕ
  pub value : ℤ
  pub tv_sec : ℤ

abbrev pub Io : Type 0 → Type 0
Io A = Prog Call Reply A

abbrev pub History : Type 0
History = Trace Call Reply

abbrev add_unless_failed : (ret : ℤ) → ℕ → ℕ
add_unless_failed ret n = if eq_ℤ ret minus_one then n else suc n

abbrev add_open : Option ℕ → ℕ → ℕ
add_open none n = n
add_open (some _) n = suc n

-- How many calls have opened the semaphore.
abbrev pub opened : History → ℕ
opened [] = 0
opened ((sem_create v, r) ∷ t) = add_open r.sem (opened t)
opened ((sem_open, r) ∷ t) = add_open r.sem (opened t)
opened (_ ∷ t) = opened t

-- How many calls have closed it.
abbrev pub closed : History → ℕ
closed [] = 0
closed ((sem_close s, r) ∷ t) = suc (closed t)
closed (_ ∷ t) = closed t

-- How many posts have not failed.
abbrev pub posted : History → ℕ
posted [] = 0
posted ((sem_post s, r) ∷ t) = add_unless_failed r.ret (posted t)
posted (_ ∷ t) = posted t

-- How many waits have not failed.
abbrev pub taken : History → ℕ
taken [] = 0
taken ((sem_timedwait s n, r) ∷ t) = add_unless_failed r.ret (taken t)
taken (_ ∷ t) = taken t
