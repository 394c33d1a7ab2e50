-- ===== src/FileLock/Tests.antt =====
-- The theorem about locks at two processes.
use myfreelib.Base.{ℕ, List, [], ◌∷◌, ◌≡◌, refl}
use myfreelib.FileLock.Flock.{
  Kind, shared, exclusive, At, Process, FileLock, Move, Step, Reach, here, next, Excludes,
  shared_locks, exclusive_locks, exclusive_lock-Excludes,
}

-- `flock` as the manual page describes it.
abbrev Free : Kind → ℕ → ℕ → Type 0
Free shared s x = x ≡ 0
Free exclusive s x = (s ≡ 0) × (x ≡ 0)

abbrev kernel : FileLock
kernel = record {
  Grants = Free;
  shared_granted = λ {s} {x} h. h;
  exclusive_granted = λ {s} {x} h. h;
}

abbrev process : Kind → At → Process
process k a = record { kind = k; at = a }

-- A reader beside a writer that takes the lock.
abbrev two : At → List Process
two a = process shared At.locking ∷ process exclusive a ∷ []

locked : Reach kernel (two At.opening) (two At.sleeping)
locked =
    let before = process shared At.locking ∷ [] in
    let opens = Step.moves before [] exclusive At.opening At.locking refl refl Move.opened in
    let locks =
      Step.moves before [] exclusive At.locking At.sleeping refl refl (Move.locked (refl, refl)) in
    next (next here opens) locks

exclusive_lock-Excludes_example :
    Excludes (shared_locks (two At.sleeping)) (exclusive_locks (two At.sleeping))
exclusive_lock-Excludes_example = exclusive_lock-Excludes kernel locked refl refl
