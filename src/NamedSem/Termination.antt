-- ===== src/NamedSem/Termination.antt =====
-- The threads of `uname_demo` take a bounded number of steps.
use myfreelib.Base.{ℕ, ◌+◌, ◌<◌, arith}
use myfreelib.Base.Semaphore.{PosixSem}
use myfreelib.NamedSem.Threads.{ThreadAt, MainAt, State, ThreadStep, MainStep, Step}

-- How many steps each thread has before it at most.
abbrev thread_steps : ThreadAt → ℕ
thread_steps ThreadAt.absent = 5
thread_steps ThreadAt.waiting = 4
thread_steps ThreadAt.loading = 3
thread_steps (ThreadAt.storing n) = 2
thread_steps ThreadAt.printing = 1
thread_steps ThreadAt.ended = 0
thread_steps ThreadAt.gave_up = 0

abbrev main_steps : MainAt → ℕ
main_steps MainAt.create_first = 7
main_steps MainAt.create_second = 6
main_steps MainAt.post_first = 5
main_steps MainAt.post_second = 4
main_steps MainAt.join_first = 3
main_steps MainAt.join_second = 2
main_steps MainAt.report = 1
main_steps MainAt.destroyed = 0

abbrev pub steps_left : State → ℕ
steps_left s = main_steps s.main + thread_steps s.first + thread_steps s.second

module _ (kernel : PosixSem) where
  ThreadStep-thread_steps :
      {v g w h : ℕ} {a c : ThreadAt}
      → ThreadStep kernel v g a w h c
      → thread_steps c < thread_steps a
  ThreadStep-thread_steps (ThreadStep.waited e) = omega arith
  ThreadStep-thread_steps ThreadStep.wait_failed = omega arith
  ThreadStep-thread_steps ThreadStep.loaded = omega arith
  ThreadStep-thread_steps ThreadStep.stored = omega arith
  ThreadStep-thread_steps ThreadStep.printed = omega arith

  MainStep-steps_left : {s u : State} → MainStep kernel s u → steps_left u < steps_left s
  MainStep-steps_left (MainStep.created_first p q) = ground (arith, p, q)
  MainStep-steps_left (MainStep.create_first_failed p) = ground (arith, p)
  MainStep-steps_left (MainStep.created_second p q) = ground (arith, p, q)
  MainStep-steps_left (MainStep.create_second_failed p) = ground (arith, p)
  MainStep-steps_left (MainStep.posted_first p e) = ground (arith, p)
  MainStep-steps_left (MainStep.post_first_failed p) = ground (arith, p)
  MainStep-steps_left (MainStep.posted_second p e) = ground (arith, p)
  MainStep-steps_left (MainStep.post_second_failed p) = ground (arith, p)
  MainStep-steps_left (MainStep.joined_first p e) = ground (arith, p)
  MainStep-steps_left (MainStep.join_first_failed p) = ground (arith, p)
  MainStep-steps_left (MainStep.joined_second p e) = ground (arith, p)
  MainStep-steps_left (MainStep.join_second_failed p) = ground (arith, p)
  MainStep-steps_left (MainStep.reported p) = ground (arith, p)

  pub Step-steps_left : {s u : State} → Step kernel s u → steps_left u < steps_left s
  Step-steps_left (Step.main_moves w) = MainStep-steps_left w
  Step-steps_left (Step.first_moves w) = omega (arith, ThreadStep-thread_steps w)
  Step-steps_left (Step.second_moves w) = omega (arith, ThreadStep-thread_steps w)
