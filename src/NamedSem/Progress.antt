-- ===== src/NamedSem/Progress.antt =====
-- `uname_demo` and its threads come to their end, if no call fails.
use myfreelib.Base.{
  ℕ, zero, suc, ltb, Bool, Bool-cases, true, false, ◌+◌, ◌≤◌, ◌≡◌, ◌≢◌, ◌⊎◌, inl, inr, refl, arith,
}
use myfreelib.Base.Semaphore.{PosixSem}
use myfreelib.NamedSem.Termination.{steps_left, Step-steps_left}
use myfreelib.NamedSem.Threads.{
  ThreadAt, MainAt, State, start, ThreadStep, MainStep, Step, one_if, passed, posts, Reach, here,
  next, glob_bounds,
}

-- The end of all three, with `glob` as it is reported.
abbrev pub Over : State → Type 0
Over s =
    (s.main ≡ MainAt.destroyed)
    × (s.first ≡ ThreadAt.ended)
    × (s.second ≡ ThreadAt.ended)
    × ((s.glob ≡ 1) ⊎ (s.glob ≡ 2))

-- Can a thread go on, at this value of the semaphore?
abbrev ready : (sem : ℕ) → ThreadAt → Bool
ready sem ThreadAt.waiting = ltb 0 sem
ready sem ThreadAt.loading = true
ready sem (ThreadAt.storing n) = true
ready sem ThreadAt.printing = true
ready sem _ = false

-- Has a thread been created, by the main thread's position?
abbrev first_created : MainAt → Bool
first_created MainAt.create_first = false
first_created _ = true

abbrev second_created : MainAt → Bool
second_created MainAt.create_first = false
second_created MainAt.create_second = false
second_created _ = true

abbrev Alive : (created : Bool) → ThreadAt → Type 0
Alive false a = a ≡ ThreadAt.absent
Alive true a = (a ≢ ThreadAt.absent) × (a ≢ ThreadAt.gave_up)

-- While no call fails, the semaphore counts the posts that no thread has taken.
record Inv (s : State) : Type 0 where
  count : s.sem + (one_if (passed s.first) + one_if (passed s.second)) ≡ posts s.main
  first_alive : Alive (first_created s.main) s.first
  second_alive : Alive (second_created s.main) s.second

module _ (kernel : PosixSem) where
  abbrev thread_succeeds : {v g w h : ℕ} {a c : ThreadAt} → ThreadStep kernel v g a w h c → Bool
  thread_succeeds ThreadStep.wait_failed = false
  thread_succeeds _ = true

  abbrev main_succeeds : {s u : State} → MainStep kernel s u → Bool
  main_succeeds (MainStep.create_first_failed p) = false
  main_succeeds (MainStep.create_second_failed p) = false
  main_succeeds (MainStep.post_first_failed p) = false
  main_succeeds (MainStep.post_second_failed p) = false
  main_succeeds (MainStep.join_first_failed p) = false
  main_succeeds (MainStep.join_second_failed p) = false
  main_succeeds _ = true

  abbrev pub succeeds : {s u : State} → Step kernel s u → Bool
  succeeds (Step.main_moves w) = main_succeeds w
  succeeds (Step.first_moves w) = thread_succeeds w
  succeeds (Step.second_moves w) = thread_succeeds w

  -- What a step of a thread does to its part of the invariant.
  ThreadStep-Alive :
      {v g w h : ℕ} {a c : ThreadAt} (created : Bool) (m : ThreadStep kernel v g a w h c)
      → thread_succeeds m ≡ true
      → Alive created a
      → Alive created c × (w + one_if (passed c) ≡ v + one_if (passed a))
  ThreadStep-Alive false (ThreadStep.waited e) k i = ground (arith, i)
  ThreadStep-Alive true (ThreadStep.waited e) k i = ground (arith, kernel.wait_takes e)
  ThreadStep-Alive b ThreadStep.wait_failed k i = cc
  ThreadStep-Alive false ThreadStep.loaded k i = ground (arith, i)
  ThreadStep-Alive true ThreadStep.loaded k i = ground arith
  ThreadStep-Alive false ThreadStep.stored k i = ground (arith, i)
  ThreadStep-Alive true ThreadStep.stored k i = ground arith
  ThreadStep-Alive false ThreadStep.printed k i = ground (arith, i)
  ThreadStep-Alive true ThreadStep.printed k i = ground arith

  MainStep-Inv : {s u : State} (m : MainStep kernel s u) → main_succeeds m ≡ true → Inv s → Inv u
  MainStep-Inv (MainStep.created_first p q) k i = ground (arith, i)
  MainStep-Inv (MainStep.create_first_failed p) k i = cc
  MainStep-Inv (MainStep.created_second p q) k i = ground (arith, i)
  MainStep-Inv (MainStep.create_second_failed p) k i = cc
  MainStep-Inv (MainStep.posted_first p e) k i = ground (arith, kernel.post_gives e)
  MainStep-Inv (MainStep.post_first_failed p) k i = cc
  MainStep-Inv (MainStep.posted_second p e) k i = ground (arith, kernel.post_gives e)
  MainStep-Inv (MainStep.post_second_failed p) k i = cc
  MainStep-Inv (MainStep.joined_first p e) k i = ground arith
  MainStep-Inv (MainStep.join_first_failed p) k i = cc
  MainStep-Inv (MainStep.joined_second p e) k i = ground arith
  MainStep-Inv (MainStep.join_second_failed p) k i = cc
  MainStep-Inv (MainStep.reported p) k i = ground arith

  Step-Inv : {s u : State} (w : Step kernel s u) → succeeds w ≡ true → Inv s → Inv u
  Step-Inv (Step.main_moves m) k i = MainStep-Inv m k i
  Step-Inv {s} (Step.first_moves m) k i =
      let (a, e) = ThreadStep-Alive (first_created s.main) m k i.first_alive in
      record { count = omega (arith, e, i.count); first_alive = a; second_alive = i.second_alive }
  Step-Inv {s} (Step.second_moves m) k i =
      let (a, e) = ThreadStep-Alive (second_created s.main) m k i.second_alive in
      record { count = omega (arith, e, i.count); first_alive = i.first_alive; second_alive = a }

  thread_goes_on :
      (v g : ℕ) (a : ThreadAt)
      → ready v a ≡ true
      → (w : ℕ) × (h : ℕ) × (c : ThreadAt) × (m : ThreadStep kernel v g a w h c) × (thread_succeeds
            m
          ≡ true)
  thread_goes_on v g ThreadAt.absent k = cc
  thread_goes_on zero g ThreadAt.waiting k = cc
  thread_goes_on (suc v) g ThreadAt.waiting k =
      (_, _, _, ThreadStep.waited (kernel.wait_returns v), refl)
  thread_goes_on v g ThreadAt.loading k = (_, _, _, ThreadStep.loaded, refl)
  thread_goes_on v g (ThreadAt.storing n) k = (_, _, _, ThreadStep.stored, refl)
  thread_goes_on v g ThreadAt.printing k = (_, _, _, ThreadStep.printed, refl)
  thread_goes_on v g ThreadAt.ended k = cc
  thread_goes_on v g ThreadAt.gave_up k = cc

  -- A run of so many steps, of which none is a failure.
  pub data Run : ℕ → State → Type 0 where
    begins : Run 0 start
    extended :
        {n : ℕ} {s u : State} → Run n s → (w : Step kernel s u) → succeeds w ≡ true → Run (suc n) u

  abbrev pub GoesOn : State → Type 0
  GoesOn s = (u : State) × (w : Step kernel s u) × (succeeds w ≡ true)

  Run-Reach : {n : ℕ} {s : State} → Run n s → Reach kernel s
  Run-Reach begins = here
  Run-Reach (extended r w k) = next (Run-Reach r) w

  Run-steps_left : {n : ℕ} {s : State} → Run n s → n + steps_left s ≤ 17
  Run-steps_left begins = omega arith
  Run-steps_left (extended r w k) = omega (arith, Run-steps_left r, Step-steps_left kernel w)

  Run-Inv : {n : ℕ} {s : State} → Run n s → Inv s
  Run-Inv begins = ground arith
  Run-Inv (extended r w k) = Step-Inv w k (Run-Inv r)

  module _ (s : State) (i : Inv s) (r : Reach kernel s) (first_stands : ready s.sem s.first ≡ false)
      (second_stands : ready s.sem s.second ≡ false) where
    ended_first : posts s.main ≡ 2 → s.first ≡ ThreadAt.ended
    ended_first h = ground (arith, i)

    ended_second : posts s.main ≡ 2 → s.second ≡ ThreadAt.ended
    ended_second h = ground (arith, i)

    main-GoesOn : (p : MainAt) → s.main ≡ p → Over s ⊎ GoesOn s
    main-GoesOn MainAt.create_first e =
        inr (_, Step.main_moves (MainStep.created_first e (ground (arith, i))), refl)
    main-GoesOn MainAt.create_second e =
        inr (_, Step.main_moves (MainStep.created_second e (ground (arith, i))), refl)
    main-GoesOn MainAt.post_first e =
        inr (_, Step.main_moves (MainStep.posted_first e (kernel.post_returns s.sem)), refl)
    main-GoesOn MainAt.post_second e =
        inr (_, Step.main_moves (MainStep.posted_second e (kernel.post_returns s.sem)), refl)
    main-GoesOn MainAt.join_first e =
        inr (_, Step.main_moves (MainStep.joined_first e (inl (ended_first (ground arith)))), refl)
    main-GoesOn MainAt.join_second e =
        inr
          (_, Step.main_moves (MainStep.joined_second e (inl (ended_second (ground arith)))), refl)
    main-GoesOn MainAt.report e = inr (_, Step.main_moves (MainStep.reported e), refl)
    main-GoesOn MainAt.destroyed e = inl (
      e,
      ended_first (ground arith),
      ended_second (ground arith),
      ground (arith, glob_bounds kernel r, ended_first (ground arith), ended_second (ground arith)),
    )

  someone-GoesOn : (s : State) → Inv s → Reach kernel s → Over s ⊎ GoesOn s
  someone-GoesOn s i r = elim (Bool-cases (ready s.sem s.first)) [
    | inl a ↦
        let (w, h, c, m, k) = thread_goes_on s.sem s.glob s.first a in
        inr (_, Step.first_moves m, k)
    | inr a ↦ elim (Bool-cases (ready s.sem s.second)) [
      | inl b ↦
          let (w, h, c, m, k) = thread_goes_on s.sem s.glob s.second b in
          inr (_, Step.second_moves m, k)
      | inr b ↦ main-GoesOn s i r a b s.main refl
    ]
  ]

  -- Every run in which no call fails has at most seventeen steps. In the state where it has got to,
  -- either all three threads have ended and `glob` is 1 or 2, or one of them can take a step that
  -- is no failure: no thread waits for ever, for the semaphore or for another to end.
  pub uname_demo_ends : {n : ℕ} {s : State} → Run n s → (n ≤ 17) × (Over s ⊎ GoesOn s)
  uname_demo_ends {s = s} r =
      (omega (arith, Run-steps_left r), someone-GoesOn s (Run-Inv r) (Run-Reach r))
