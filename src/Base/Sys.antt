-- ===== src/Base/Sys.antt =====
-- Programs that call an operating system which is not part of the repository. The system is an
-- arbitrary function from what was called and answered so far, and the call, to the answer; a
-- program returns its result with the history, the last call first.
use mathlib.Core.List.{List, ◌∷◌}

module _ (C R : Type 0) where
  abbrev pub Trace : Type 0
  Trace = List (C × R)

  abbrev pub Os : Type 0
  Os = Trace → C → R

  abbrev pub Prog : Type 0 → Type 0
  Prog A = Os → Trace → A × Trace

module _ {C R : Type 0} where
  abbrev pub pure : {A : Type 0} → A → Prog C R A
  pure a os t = (a, t)

  abbrev pub call : C → Prog C R R
  call c os t = let r = os t c in (r, (c, r) ∷ t)

  infixl 5 ◌>>=◌ ◌>>◌
  abbrev pub ◌>>=◌ : {A B : Type 0} → Prog C R A → (A → Prog C R B) → Prog C R B
  ◌>>=◌ m f os t = let (a, u) = m os t in f a os u

  abbrev pub ◌>>◌ : {A B : Type 0} → Prog C R A → Prog C R B → Prog C R B
  ◌>>◌ m k os t = let (a, u) = m os t in k os u
