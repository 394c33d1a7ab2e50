-- ===== src/Base/CString.antt =====
-- C strings in buffers.
use Prim.Native.Nat.{ℕ, zero, suc, ◌<◌}
use mathlib.Core.Path.{◌≡◌, refl}
use mathlib.Core.Logic.{◌≢◌}
use mathlib.Core.List.{List, [], ◌∷◌, ◌++◌}
use native.Mathlib.Omega.{arith}
use myfreelib.Base.Tests.{◌==◌, if◌then◌else◌}
use myfreelib.Base.Lists.{length, take}

abbrev pub AllNonzero : List ℕ → Type 0
AllNonzero [] = Unit {0}
AllNonzero (x ∷ xs) = (x ≢ 0) × AllNonzero xs

-- The string that `%.*s` prints: up to the first zero, and at most so many bytes.
abbrev pub shown : (precision : ℕ) → List ℕ → List ℕ
shown zero buf = []
shown (suc n) [] = []
shown (suc n) (x ∷ buf) = if x == 0 then [] else x ∷ shown n buf

pub shown_lem :
    (n : ℕ) (s rest : List ℕ) → AllNonzero s → length s < n → shown n (s ++ 0 ∷ rest) ≡ s
shown_lem zero s rest h k = absurd (omega arith)
shown_lem (suc n) [] rest h k = refl
shown_lem (suc n) (x ∷ s) rest h k = ground (arith, shown_lem n s rest h.1)

pub take-AllNonzero : (n : ℕ) (s : List ℕ) → AllNonzero s → AllNonzero (take n s)
take-AllNonzero zero s h = tt
take-AllNonzero (suc n) [] h = tt
take-AllNonzero (suc n) (x ∷ s) h = (h.0, take-AllNonzero n s h.1)
