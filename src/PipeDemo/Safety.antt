-- ===== src/PipeDemo/Safety.antt =====
-- When the parent of `pipe_sync` goes on.
use myfreelib.Base.{Bool, true, false, ◌≡◌, ◌⊎◌, refl, arith}
use myfreelib.PipeDemo.Sync.{
  ParentAt, ChildAt, State, ChildStep, closed_read, close_failed, slept, printed, closed_own,
  child_ends, PipeEnd, Step, Reach, here, next,
}

-- A child that was forked and has closed the write end.
abbrev pub Released : ChildAt → Type 0
Released c = (c ≡ ChildAt.returning) ⊎ (c ≡ ChildAt.ended)

abbrev born : ChildAt → Bool
born ChildAt.unborn = false
born _ = true

-- Which children there are, and what they have closed, by the parent's position.
abbrev Inv : ParentAt → State → Type 0
Inv ParentAt.fork_first s = Unit {0}
Inv ParentAt.fork_second s = born s.first ≡ true
Inv ParentAt.close_write s = (born s.first ≡ true) × (born s.second ≡ true)
Inv ParentAt.reading s = (born s.first ≡ true) × (born s.second ≡ true)
Inv ParentAt.saw_end s = Released s.first × Released s.second
Inv ParentAt.saw_failure s = (born s.first ≡ true) × (born s.second ≡ true)
Inv ParentAt.returned s = Unit {0}

ChildStep-born : {c d : ChildAt} → ChildStep c d → born d ≡ true
ChildStep-born closed_read = refl
ChildStep-born close_failed = refl
ChildStep-born slept = refl
ChildStep-born printed = refl
ChildStep-born closed_own = refl
ChildStep-born child_ends = refl

ChildStep-Released : {c d : ChildAt} → ChildStep c d → Released c → Released d
ChildStep-Released closed_read r = ground arith
ChildStep-Released close_failed r = ground arith
ChildStep-Released slept r = ground arith
ChildStep-Released printed r = ground arith
ChildStep-Released closed_own r = ground arith
ChildStep-Released child_ends r = ground arith

module _ (kernel : PipeEnd) where
  Step-Inv : {s u : State} → Step kernel s u → Inv s.parent s → Inv u.parent u
  Step-Inv (Step.forked_first p q) i = refl
  Step-Inv (Step.forked_second p q) i = ground arith
  Step-Inv (Step.fork_first_failed p) i = tt
  Step-Inv (Step.fork_second_failed p) i = tt
  Step-Inv (Step.closed_write p) i = ground arith
  Step-Inv (Step.close_write_failed p) i = tt
  Step-Inv (Step.read_end p e) i = ground (arith, kernel.ends_without_writers e)
  Step-Inv (Step.read_failed p) i = ground arith
  Step-Inv (Step.goes_on p) i = tt
  Step-Inv (Step.goes_on_failed p) i = tt
  Step-Inv (Step.first_moves c) i = ground (arith, ChildStep-born c, ChildStep-Released c)
  Step-Inv (Step.second_moves c) i = ground (arith, ChildStep-born c, ChildStep-Released c)

  Reach-Inv : {s : State} → Reach kernel s → Inv s.parent s
  Reach-Inv here = tt
  Reach-Inv (next r st) = Step-Inv st (Reach-Inv r)

  -- In every state that is reached, if the parent's `read` has returned 0, then both children were
  -- forked and have closed their write end of the pipe.
  pub parent_waits_for_both :
      {s : State}
      → Reach kernel s
      → s.parent ≡ ParentAt.saw_end
      → Released s.first × Released s.second
  parent_waits_for_both r e = ground (arith, Reach-Inv r)
