-- ===== src/Base/Semaphore.antt =====
-- The System V semaphore that the kernel implements: `Completes v op v'` says that a `semop` with
-- this operation on one semaphore of value `v` may return 0, and leaves `v'`. The laws are those
-- of the manual page: 0 waits for zero, a negative number waits until it can be taken away, and a
-- positive one is added.
use Prim.Native.Nat.{ℕ, suc}
use mathlib.Core.Path.{◌≡◌}
use myfreelib.Base.Int.{ℤ, pos, minus_one}

pub record Semop : Type 1 where
  pub Completes : ℕ → ℤ → ℕ → Type 0
  pub wait_zero : {v w : ℕ} → Completes v (pos 0) w → (v ≡ 0) × (w ≡ 0)
  pub take_one : {v w : ℕ} → Completes v minus_one w → v ≡ suc w
  pub give_one : {v w : ℕ} → Completes v (pos 1) w → w ≡ suc v
  pub zero_completes : Completes 0 (pos 0) 0
  pub take_completes : (v : ℕ) → Completes (suc v) minus_one v
  pub give_completes : (v : ℕ) → Completes v (pos 1) (suc v)

-- A POSIX semaphore: `Waits v w` says that `sem_wait` at the value `v` may return 0 and leaves `w`,
-- `Posts v w` the same of `sem_post`.
pub record PosixSem : Type 1 where
  pub Waits : ℕ → ℕ → Type 0
  pub Posts : ℕ → ℕ → Type 0
  pub wait_takes : {v w : ℕ} → Waits v w → v ≡ suc w
  pub post_gives : {v w : ℕ} → Posts v w → w ≡ suc v
  pub wait_returns : (v : ℕ) → Waits (suc v) v
  pub post_returns : (v : ℕ) → Posts v (suc v)
