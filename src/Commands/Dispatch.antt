-- ===== src/Commands/Dispatch.antt =====
-- The shape that these `main` functions share: a test of `argc`, then a chain of `strcmp`.
use myfreelib.Base.{ℕ, ℤ, Bool, String, List, [], ◌∷◌, codes, same_text, length, if◌then◌else◌}

-- What `main` does: print the usage and return a code, return what a function returns, or return a
-- variable that nothing has been stored in.
pub data Outcome (A : Type 0) : Type 0 where
  usage : ℤ → Outcome A
  runs : A → Outcome A
  indeterminate : Outcome A

-- A `strcmp` chain: the names in the order of the tests, with what each leads to.
abbrev Chain : Type 0 → Type 0
Chain A = List (String × Outcome A)

module _ {A : Type 0} where
  -- The last `else` of the chain is `otherwise`.
  pub choose : Chain A → (otherwise : Outcome A) → List ℕ → Outcome A
  choose [] otherwise arg = otherwise
  choose ((name, o) ∷ chain) otherwise arg =
      if same_text (codes name) arg then o else choose chain otherwise arg

  -- `main` on its arguments, the program's name first: `refuses argc` is the test before the chain,
  -- which leads to the usage and `code`. With no `argv[1]` past that test, `strcmp` has no string.
  unfoldable pub dispatch :
      (refuses : ℕ → Bool) (code : ℤ)
      → Chain A
      → (otherwise : Outcome A) → List (List ℕ)
      → Outcome A
  unfolding choose
  dispatch refuses code chain otherwise [] = usage code
  dispatch refuses code chain otherwise (program ∷ []) =
      if refuses 1 then usage code else indeterminate
  dispatch refuses code chain otherwise (program ∷ arg ∷ rest) =
      if refuses (length (program ∷ arg ∷ rest)) then usage code else choose chain otherwise arg
