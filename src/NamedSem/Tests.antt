-- ===== src/NamedSem/Tests.antt =====
-- The theorems about the named semaphore at a system that answers in a fixed way.
use myfreelib.Base.{ℕ, suc, ◌+◌, ◌≤◌, ◌⊎◌, ℤ, pos, minus_one, some, [], ◌≡◌, refl}
use myfreelib.NamedSem.Calls.{Call, Reply, History, sem_timedwait, opened, closed, posted}
use myfreelib.NamedSem.Demos.{wait_demo}
use myfreelib.Base.Semaphore.{PosixSem}
use myfreelib.NamedSem.Progress
use myfreelib.NamedSem.Progress.{begins, extended, Over, GoesOn, uname_demo_ends}
use myfreelib.NamedSem.Threads.{
  ThreadAt, State, start, ThreadStep, MainStep, main_moves, first_moves, second_moves, Reach, here,
  next, passed, posts, one_if, stores, glob_bounds,
}

abbrev returns : ℤ → Reply
returns n = record { ret = n; sem = some 9; value = pos 1; tv_sec = pos 100 }

-- Every wait times out.
abbrev late_os : History → Call → Reply
late_os t (sem_timedwait s n) = returns minus_one
late_os t c = returns (pos 0)

-- After a time-out the semaphore stays open.
timed_out :
    let (r, u) = wait_demo late_os [] in
    (r ≡ minus_one) × (opened u ≡ 1) × (closed u ≡ 0) × (posted u ≡ 0)
unfolding wait_demo
timed_out = (refl, refl, refl, refl)

abbrev counter : PosixSem
counter = record {
  Waits = λ v w. v ≡ suc w;
  Posts = λ v w. w ≡ suc v;
  wait_takes = λ e. e;
  post_gives = λ e. e;
  wait_returns = λ v. refl;
  post_returns = λ v. refl;
}

-- A state with the steps that lead to it.
record Run : Type 0 where
  last : State
  reach : Reach counter last

abbrev by_main : (r : Run) {u : State} → MainStep counter r.last u → Run
by_main r st = record { last = _; reach = next r.reach (main_moves st) }

abbrev by_first :
    (r : Run) {w h : ℕ} {a : ThreadAt}
    → ThreadStep counter r.last.sem r.last.glob r.last.first w h a
    → Run
by_first r st = record { last = _; reach = next r.reach (first_moves st) }

abbrev by_second :
    (r : Run) {w h : ℕ} {a : ThreadAt}
    → ThreadStep counter r.last.sem r.last.glob r.last.second w h a
    → Run
by_second r st = record { last = _; reach = next r.reach (second_moves st) }

-- Both threads are let in, and load before either stores.
abbrev run1 : Run
run1 = by_main (record { last = start; reach = here }) (MainStep.created_first refl refl)

abbrev run2 : Run
run2 = by_main run1 (MainStep.created_second refl refl)

abbrev run3 : Run
run3 = by_main run2 (MainStep.posted_first refl refl)

abbrev run4 : Run
run4 = by_main run3 (MainStep.posted_second refl refl)

abbrev run5 : Run
run5 = by_first run4 (ThreadStep.waited refl)

abbrev run6 : Run
run6 = by_second run5 (ThreadStep.waited refl)

abbrev run7 : Run
run7 = by_first run6 ThreadStep.loaded

abbrev run8 : Run
run8 = by_second run7 ThreadStep.loaded

abbrev run9 : Run
run9 = by_first run8 ThreadStep.stored

abbrev run10 : Run
run10 = by_second run9 ThreadStep.stored

glob_bounds_example :
    (let s = run10.last in one_if (passed s.first) + one_if (passed s.second) ≤ posts s.main)
    × (run10.last.glob ≤ stores run10.last)
    × (stores run10.last ≤ run10.last.glob + run10.last.glob)
glob_bounds_example = glob_bounds counter run10.reach

-- One of the two increments is lost.
lost_update : (run10.last.glob ≡ 1) × (stores run10.last ≡ 2)
lost_update = (refl, refl)

-- Both threads are created and one is let in.
abbrev let_in : Progress.Run counter 3 run3.last
let_in =
    let a = extended begins (main_moves (MainStep.created_first refl refl)) refl in
    let b = extended a (main_moves (MainStep.created_second refl refl)) refl in
    extended b (main_moves (MainStep.posted_first refl refl)) refl

uname_demo_ends_example : (3 ≤ 17) × (Over run3.last ⊎ GoesOn counter run3.last)
uname_demo_ends_example = uname_demo_ends counter let_in
