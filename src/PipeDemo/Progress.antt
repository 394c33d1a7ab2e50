-- ===== src/PipeDemo/Progress.antt =====
-- `pipe_sync` comes to its end.
use myfreelib.Base.{
  Bool-cases, ℕ, suc, Bool, true, false, ◌+◌, ◌<◌, ◌≤◌, ◌≡◌, ◌⊎◌, ◌≢◌, inl, inr, refl, subst, arith,
}
use myfreelib.PipeDemo.Sync.{
  ParentAt, ChildAt, State, ChildStep, closed_read, close_failed, slept, printed, closed_own,
  child_ends, PipeEnd, Step, Reach, here, next, start, writers,
}

-- A child that takes no step, and the end of all three processes.
abbrev idle : ChildAt → Bool
idle ChildAt.unborn = true
idle ChildAt.ended = true
idle _ = false

abbrev pub Over : State → Type 0
Over s = (s.parent ≡ ParentAt.returned) × (idle s.first ≡ true) × (idle s.second ≡ true)

-- How many steps each process has before it at most.
abbrev child_steps : ChildAt → ℕ
child_steps ChildAt.unborn = 6
child_steps ChildAt.close_read = 5
child_steps ChildAt.sleeping = 4
child_steps ChildAt.printing = 3
child_steps ChildAt.close_own = 2
child_steps ChildAt.returning = 1
child_steps ChildAt.ended = 0

abbrev parent_steps : ParentAt → ℕ
parent_steps ParentAt.fork_first = 3
parent_steps ParentAt.fork_second = 3
parent_steps ParentAt.close_write = 3
parent_steps ParentAt.reading = 2
parent_steps ParentAt.saw_end = 1
parent_steps ParentAt.saw_failure = 1
parent_steps ParentAt.returned = 0

abbrev steps_left : State → ℕ
steps_left s = parent_steps s.parent + child_steps s.first + child_steps s.second

ChildStep-child_steps : {c d : ChildAt} → ChildStep c d → child_steps d < child_steps c
ChildStep-child_steps closed_read = omega arith
ChildStep-child_steps close_failed = omega arith
ChildStep-child_steps slept = omega arith
ChildStep-child_steps printed = omega arith
ChildStep-child_steps closed_own = omega arith
ChildStep-child_steps child_ends = omega arith

-- A child that is not idle can take a step that is no failure.
abbrev succeeds : {c d : ChildAt} → ChildStep c d → Bool
succeeds close_failed = false
succeeds _ = true

child_goes_on :
    (c : ChildAt) → idle c ≡ false → (d : ChildAt) × (w : ChildStep c d) × (succeeds w ≡ true)
child_goes_on ChildAt.unborn h = cc
child_goes_on ChildAt.close_read h = (_, closed_read, refl)
child_goes_on ChildAt.sleeping h = (_, slept, refl)
child_goes_on ChildAt.printing h = (_, printed, refl)
child_goes_on ChildAt.close_own h = (_, closed_own, refl)
child_goes_on ChildAt.returning h = (_, child_ends, refl)
child_goes_on ChildAt.ended h = cc

ChildStep-forked : {c d : ChildAt} → ChildStep c d → c ≢ ChildAt.unborn
ChildStep-forked closed_read e = cc
ChildStep-forked close_failed e = cc
ChildStep-forked slept e = cc
ChildStep-forked printed e = cc
ChildStep-forked closed_own e = cc
ChildStep-forked child_ends e = cc

-- Which children are not forked yet.
abbrev Unforked : ParentAt → State → Type 0
Unforked ParentAt.fork_first s = (s.first ≡ ChildAt.unborn) × (s.second ≡ ChildAt.unborn)
Unforked ParentAt.fork_second s = s.second ≡ ChildAt.unborn
Unforked _ s = Unit {0}

module _ (kernel : PipeEnd) where
  Step-steps_left : {s u : State} → Step kernel s u → steps_left u < steps_left s
  Step-steps_left (Step.forked_first p q) = ground (arith, p, q)
  Step-steps_left (Step.forked_second p q) = ground (arith, p, q)
  Step-steps_left (Step.fork_first_failed p) = ground (arith, p)
  Step-steps_left (Step.fork_second_failed p) = ground (arith, p)
  Step-steps_left (Step.closed_write p) = ground (arith, p)
  Step-steps_left (Step.close_write_failed p) = ground (arith, p)
  Step-steps_left (Step.read_end p e) = ground (arith, p)
  Step-steps_left (Step.read_failed p) = ground (arith, p)
  Step-steps_left (Step.goes_on p) = ground (arith, p)
  Step-steps_left (Step.goes_on_failed p) = ground (arith, p)
  Step-steps_left (Step.first_moves c) = omega (arith, ChildStep-child_steps c)
  Step-steps_left (Step.second_moves c) = omega (arith, ChildStep-child_steps c)

  Step-Unforked : {s u : State} → Step kernel s u → Unforked s.parent s → Unforked u.parent u
  Step-Unforked (Step.forked_first p q) i = ground arith
  Step-Unforked (Step.forked_second p q) i = tt
  Step-Unforked (Step.fork_first_failed p) i = tt
  Step-Unforked (Step.fork_second_failed p) i = tt
  Step-Unforked (Step.closed_write p) i = tt
  Step-Unforked (Step.close_write_failed p) i = tt
  Step-Unforked (Step.read_end p e) i = tt
  Step-Unforked (Step.read_failed p) i = tt
  Step-Unforked (Step.goes_on p) i = tt
  Step-Unforked (Step.goes_on_failed p) i = tt
  Step-Unforked (Step.first_moves c) i = ground (arith, ChildStep-forked c)
  Step-Unforked (Step.second_moves c) i = ground (arith, ChildStep-forked c)

  Reach-Unforked : {s : State} → Reach kernel s → Unforked s.parent s
  Reach-Unforked here = (refl, refl)
  Reach-Unforked (next r w) = Step-Unforked w (Reach-Unforked r)

  abbrev Step-succeeds : {s u : State} → Step kernel s u → Bool
  Step-succeeds (Step.fork_first_failed p) = false
  Step-succeeds (Step.fork_second_failed p) = false
  Step-succeeds (Step.close_write_failed p) = false
  Step-succeeds (Step.read_failed p) = false
  Step-succeeds (Step.first_moves c) = succeeds c
  Step-succeeds (Step.second_moves c) = succeeds c
  Step-succeeds _ = true

  -- A step that is no failure.
  abbrev pub GoesOn : State → Type 0
  GoesOn s = (u : State) × (w : Step kernel s u) × (Step-succeeds w ≡ true)

  parent-GoesOn :
      (p : ParentAt) (s : State)
      → s.parent ≡ p
      → Unforked p s
      → idle s.first ≡ true
      → idle s.second ≡ true
      → Over s ⊎ GoesOn s
  parent-GoesOn ParentAt.fork_first s e i a b = inr (_, Step.forked_first e i.0, refl)
  parent-GoesOn ParentAt.fork_second s e i a b = inr (_, Step.forked_second e i, refl)
  parent-GoesOn ParentAt.close_write s e i a b = inr (_, Step.closed_write e, refl)
  parent-GoesOn ParentAt.reading s e i a b =
      let none : 0 ≡ writers s = ground arith in
      inr (_, Step.read_end e (subst kernel.Ends none kernel.without_writers_ends), refl)
  parent-GoesOn ParentAt.saw_end s e i a b = inr (_, Step.goes_on e, refl)
  parent-GoesOn ParentAt.saw_failure s e i a b = inr (_, Step.goes_on_failed e, refl)
  parent-GoesOn ParentAt.returned s e i a b = inl (e, a, b)

  someone-GoesOn : (s : State) → Unforked s.parent s → Over s ⊎ GoesOn s
  someone-GoesOn s i = elim (Bool-cases (idle s.first)) [
    | inr a ↦ let (c, w, h) = child_goes_on s.first a in inr (_, Step.first_moves w, h)
    | inl a ↦ elim (Bool-cases (idle s.second)) [
      | inr b ↦ let (c, w, h) = child_goes_on s.second b in inr (_, Step.second_moves w, h)
      | inl b ↦ parent-GoesOn s.parent s refl i a b
    ]
  ]

  -- A run of so many steps.
  pub data Run : ℕ → State → Type 0 where
    begins : Run 0 start
    extended : {n : ℕ} {s u : State} → Run n s → Step kernel s u → Run (suc n) u

  Run-Reach : {n : ℕ} {s : State} → Run n s → Reach kernel s
  Run-Reach begins = here
  Run-Reach (extended r w) = next (Run-Reach r) w

  Run-steps_left : {n : ℕ} {s : State} → Run n s → n + steps_left s ≤ 15
  Run-steps_left begins = omega arith
  Run-steps_left (extended r w) = omega (arith, Run-steps_left r, Step-steps_left w)

  -- Every run of `pipe_sync` and its children has at most fifteen steps, and in the state where it has
  -- got to, either the parent has returned and no child is left that could go on, or one of the
  -- three can take a step that is no failure: the parent's `read` does not wait for ever.
  pub sync_ends : {n : ℕ} {s : State} → Run n s → (n ≤ 15) × (Over s ⊎ GoesOn s)
  sync_ends {s = s} r =
      (omega (arith, Run-steps_left r), someone-GoesOn s (Reach-Unforked (Run-Reach r)))
