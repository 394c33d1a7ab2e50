-- ===== src/FileLock/Flock.antt =====
-- Any number of processes that run `share_lc_demo` and `mutex_lc_demo` of file_lock_demo.c at the same
-- time.
use myfreelib.Base.{
  ℕ, Bool, true, false, List, [], ◌∷◌, ◌++◌, ◌≡◌, ◌⊎◌, inl, ap, arith, ◌+◌, if◌then◌else◌,
}

pub data Kind : Type 0 where
  shared exclusive : Kind

-- Where a process stands.
pub data At : Type 0 where
  opening : At
  locking : At  -- the `flock` with `LOCK_SH` or `LOCK_EX`
  sleeping : At  -- after it, with the message and `sleep(10)`
  unlocking : At  -- the `flock` with `LOCK_UN`
  closing : At
  ended : At

pub record Process : Type 0 where
  pub kind : Kind
  pub at : At

abbrev pub holds : At → Bool
holds At.sleeping = true
holds At.unlocking = true
holds _ = false

abbrev is_exclusive : Kind → Bool
is_exclusive exclusive = true
is_exclusive shared = false

abbrev one_if : Bool → ℕ
one_if b = if b then 1 else 0

abbrev share : Process → ℕ
share p = if is_exclusive p.kind then 0 else one_if (holds p.at)

abbrev lock : Process → ℕ
lock p = if is_exclusive p.kind then one_if (holds p.at) else 0

-- How many processes hold a shared lock, and how many an exclusive one.
abbrev pub shared_locks : List Process → ℕ
shared_locks [] = 0
shared_locks (p ∷ ps) = share p + shared_locks ps

abbrev pub exclusive_locks : List Process → ℕ
exclusive_locks [] = 0
exclusive_locks (p ∷ ps) = lock p + exclusive_locks ps

-- `flock` as its manual page has it: with so many shared and exclusive locks held by others, a
-- request for a lock of this kind may return 0.
pub record FileLock : Type 1 where
  pub Grants : Kind → (shares exclusives : ℕ) → Type 0
  pub shared_granted : {s x : ℕ} → Grants shared s x → x ≡ 0
  pub exclusive_granted : {s x : ℕ} → Grants exclusive s x → (s ≡ 0) × (x ≡ 0)

module _ (kernel : FileLock) where
  open kernel use {Grants}

  -- One statement of a process, beside the locks that the others hold. A process that fails returns
  -- -1, and its end gives back the lock.
  pub data Move (shares exclusives : ℕ) (k : Kind) : At → At → Type 0 where
    opened : Move shares exclusives k At.opening At.locking
    locked : Grants k shares exclusives → Move shares exclusives k At.locking At.sleeping
    slept : Move shares exclusives k At.sleeping At.unlocking
    unlocked : Move shares exclusives k At.unlocking At.closing
    closed : Move shares exclusives k At.closing At.ended
    failed : {a : At} → Move shares exclusives k a At.ended

  -- One of the processes moves.
  pub data Step (ps qs : List Process) : Type 0 where
    moves :
        (before after : List Process) (k : Kind) (a b : At)
        → ps ≡ before ++ record { kind = k; at = a } ∷ after
        → qs ≡ before ++ record { kind = k; at = b } ∷ after
        → Move
            (shared_locks before + shared_locks after)
            (exclusive_locks before + exclusive_locks after)
            k
            a
            b
        → Step ps qs

  pub data Reach (ps : List Process) : List Process → Type 0 where
    here : Reach ps ps
    next : {qs rs : List Process} → Reach ps qs → Step qs rs → Reach ps rs

shared_locks-append :
    (ps qs : List Process) → shared_locks (ps ++ qs) ≡ shared_locks ps + shared_locks qs
shared_locks-append [] qs = omega arith
shared_locks-append (p ∷ ps) qs = omega (arith, shared_locks-append ps qs)

exclusive_locks-append :
    (ps qs : List Process) → exclusive_locks (ps ++ qs) ≡ exclusive_locks ps + exclusive_locks qs
exclusive_locks-append [] qs = omega arith
exclusive_locks-append (p ∷ ps) qs = omega (arith, exclusive_locks-append ps qs)

-- No exclusive lock is held, or one is and no other lock.
abbrev pub Excludes : (shares exclusives : ℕ) → Type 0
Excludes s x = (x ≡ 0) ⊎ ((x ≡ 1) × (s ≡ 0))

module _ (kernel : FileLock) where
  Move-Excludes :
      (s x : ℕ) (k : Kind) {a b : At}
      → Move kernel s x k a b
      → Excludes (share (record { kind = k; at = a }) + s) (lock (record { kind = k; at = a }) + x)
      → Excludes (share (record { kind = k; at = b }) + s) (lock (record { kind = k; at = b }) + x)
  Move-Excludes s x k Move.opened h = ground arith
  Move-Excludes s x shared (Move.locked g) h = ground (arith, kernel.shared_granted g)
  Move-Excludes s x exclusive (Move.locked g) h = ground (arith, kernel.exclusive_granted g)
  Move-Excludes s x k Move.slept h = ground arith
  Move-Excludes s x k Move.unlocked h = ground arith
  Move-Excludes s x k Move.closed h = ground arith
  Move-Excludes s x k Move.failed h = ground arith

  Step-Excludes :
      {ps qs : List Process}
      → Step kernel ps qs
      → Excludes (shared_locks ps) (exclusive_locks ps)
      → Excludes (shared_locks qs) (exclusive_locks qs)
  Step-Excludes (Step.moves before after k a b e f m) h =
      let p : Process = record { kind = k; at = a } in
      let q : Process = record { kind = k; at = b } in
      ground (
        arith,
        ap shared_locks e,
        ap shared_locks f,
        ap exclusive_locks e,
        ap exclusive_locks f,
        shared_locks-append before (p ∷ after),
        shared_locks-append before (q ∷ after),
        exclusive_locks-append before (p ∷ after),
        exclusive_locks-append before (q ∷ after),
        Move-Excludes (shared_locks before + shared_locks after)
            (exclusive_locks before + exclusive_locks after) k m,
      )

  -- If the processes begin with no lock, then at every moment either no process is between taking
  -- and giving back an exclusive lock, or exactly one is and none holds a shared lock.
  pub exclusive_lock-Excludes :
      {ps qs : List Process}
      → Reach kernel ps qs
      → shared_locks ps ≡ 0
      → exclusive_locks ps ≡ 0
      → Excludes (shared_locks qs) (exclusive_locks qs)
  exclusive_lock-Excludes here s x = inl x
  exclusive_lock-Excludes (next r st) s x = Step-Excludes st (exclusive_lock-Excludes r s x)
