-- ===== src/Base/Descriptors.antt =====
-- Ledgers of file descriptors, as lists with the last one opened first.
use mathlib.Core.List.{List, [], ◌∷◌}
use myfreelib.Base.Tests.{if◌then◌else◌}
use myfreelib.Base.Int.{ℤ, minus_one, eq_ℤ}

-- After the descriptor is closed.
abbrev pub remove : ℤ → List ℤ → List ℤ
remove fd [] = []
remove fd (x ∷ fds) = if eq_ℤ fd x then fds else x ∷ remove fd fds

-- After a call that returned a new descriptor, or -1.
abbrev pub gain : ℤ → List ℤ → List ℤ
gain ret fds = if eq_ℤ ret minus_one then fds else ret ∷ fds
