-- ===== src/NamedSem/Threads.antt =====
-- `uname_demo` and `threadFunc` of posix_sem_demo.c: the main thread and two others that share a semaphore
-- and the variable `glob`, interleaved in any order.
use myfreelib.Base.{ℕ, suc, Bool, true, false, ◌+◌, ◌≤◌, ◌≡◌, ◌⊎◌, arith, if◌then◌else◌}
use myfreelib.Base.Semaphore.{PosixSem}

-- Where a thread stands. `glob++` is a load and a store.
pub data ThreadAt : Type 0 where
  absent : ThreadAt  -- not created
  waiting : ThreadAt  -- `sem_wait(&uname_sem)`
  loading : ThreadAt
  storing : (loaded : ℕ) → ThreadAt
  printing : ThreadAt
  ended : ThreadAt
  gave_up : ThreadAt  -- `sem_wait` has failed

-- Where the main thread stands, after `sem_init`.
pub data MainAt : Type 0 where
  create_first create_second post_first post_second join_first join_second report destroyed : MainAt

pub record State : Type 0 where
  pub sem : ℕ
  pub glob : ℕ
  pub main : MainAt
  pub first : ThreadAt
  pub second : ThreadAt

abbrev pub start : State
start = record {
  sem = 0;
  glob = 0;
  main = MainAt.create_first;
  first = ThreadAt.absent;
  second = ThreadAt.absent;
}

module _ (kernel : PosixSem) where
  open kernel use {Waits, Posts}

  -- One step of a thread, with the semaphore and `glob` before and after it.
  pub data ThreadStep (v g : ℕ) : ThreadAt → (w h : ℕ) → ThreadAt → Type 0 where
    waited : {w : ℕ} → Waits v w → ThreadStep v g ThreadAt.waiting w g ThreadAt.loading
    wait_failed : ThreadStep v g ThreadAt.waiting v g ThreadAt.gave_up
    loaded : ThreadStep v g ThreadAt.loading v g (ThreadAt.storing g)
    stored : {n : ℕ} → ThreadStep v g (ThreadAt.storing n) v (suc n) ThreadAt.printing
    printed : ThreadStep v g ThreadAt.printing v g ThreadAt.ended

  -- One step of the main thread, with the semaphore after it. Its failing calls are only reported.
  pub data MainStep (s : State) : State → Type 0 where
    created_first :
        s.main ≡ MainAt.create_first
        → s.first ≡ ThreadAt.absent
        → MainStep s (record s { main = MainAt.create_second; first = ThreadAt.waiting })
    create_first_failed :
        s.main ≡ MainAt.create_first → MainStep s (record s { main = MainAt.create_second })
    created_second :
        s.main ≡ MainAt.create_second
        → s.second ≡ ThreadAt.absent
        → MainStep s (record s { main = MainAt.post_first; second = ThreadAt.waiting })
    create_second_failed :
        s.main ≡ MainAt.create_second → MainStep s (record s { main = MainAt.post_first })
    posted_first :
        {v : ℕ}
        → s.main ≡ MainAt.post_first
        → Posts s.sem v
        → MainStep s (record s { main = MainAt.post_second; sem = v })
    post_first_failed :
        s.main ≡ MainAt.post_first → MainStep s (record s { main = MainAt.post_second })
    posted_second :
        {v : ℕ}
        → s.main ≡ MainAt.post_second
        → Posts s.sem v
        → MainStep s (record s { main = MainAt.join_first; sem = v })
    post_second_failed :
        s.main ≡ MainAt.post_second → MainStep s (record s { main = MainAt.join_first })
    joined_first :
        s.main ≡ MainAt.join_first
        → (s.first ≡ ThreadAt.ended) ⊎ (s.first ≡ ThreadAt.gave_up)
        → MainStep s (record s { main = MainAt.join_second })
    join_first_failed :
        s.main ≡ MainAt.join_first → MainStep s (record s { main = MainAt.join_second })
    joined_second :
        s.main ≡ MainAt.join_second
        → (s.second ≡ ThreadAt.ended) ⊎ (s.second ≡ ThreadAt.gave_up)
        → MainStep s (record s { main = MainAt.report })
    join_second_failed :
        s.main ≡ MainAt.join_second → MainStep s (record s { main = MainAt.report })
    reported : s.main ≡ MainAt.report → MainStep s (record s { main = MainAt.destroyed })

  pub data Step (s : State) : State → Type 0 where
    main_moves : {u : State} → MainStep s u → Step s u
    first_moves :
        {w h : ℕ} {a : ThreadAt}
        → ThreadStep s.sem s.glob s.first w h a
        → Step s (record s { sem = w; glob = h; first = a })
    second_moves :
        {w h : ℕ} {a : ThreadAt}
        → ThreadStep s.sem s.glob s.second w h a
        → Step s (record s { sem = w; glob = h; second = a })

  pub data Reach : State → Type 0 where
    here : Reach start
    next : {s u : State} → Reach s → Step s u → Reach u

abbrev pub one_if : Bool → ℕ
one_if b = if b then 1 else 0

-- Has a thread come past the semaphore, and has it stored?
abbrev pub passed : ThreadAt → Bool
passed ThreadAt.absent = false
passed ThreadAt.waiting = false
passed ThreadAt.gave_up = false
passed _ = true

abbrev has_stored : ThreadAt → Bool
has_stored ThreadAt.printing = true
has_stored ThreadAt.ended = true
has_stored _ = false

-- How often the main thread has come past `sem_post`.
abbrev pub posts : MainAt → ℕ
posts MainAt.create_first = 0
posts MainAt.create_second = 0
posts MainAt.post_first = 0
posts MainAt.post_second = 1
posts _ = 2

-- A value that a thread has loaded, if it stands before its store.
abbrev loaded_value : ThreadAt → ℕ
loaded_value (ThreadAt.storing n) = n
loaded_value _ = 0

-- The number of threads that have stored.
abbrev pub stores : State → ℕ
stores s = one_if (has_stored s.first) + one_if (has_stored s.second)

abbrev Inv : State → Type 0
Inv s =
    (s.sem + (one_if (passed s.first) + one_if (passed s.second)) ≤ posts s.main)
    × (s.glob ≤ stores s)
    × (stores s ≤ s.glob + s.glob)
    × (loaded_value s.first ≤ stores s)
    × (loaded_value s.second ≤ stores s)

-- The same, seen from one thread, with the numbers of the rest.
abbrev Local : (others_passed others_stored others_loaded bound v g : ℕ) → ThreadAt → Type 0
Local p q l b v g a =
    (v + (one_if (passed a) + p) ≤ b)
    × (g ≤ one_if (has_stored a) + q)
    × (one_if (has_stored a) + q ≤ g + g)
    × (loaded_value a ≤ one_if (has_stored a) + q)
    × (l ≤ one_if (has_stored a) + q)

module _ (kernel : PosixSem) where
  ThreadStep-Local :
      (p q l b : ℕ) {v g w h : ℕ} {a c : ThreadAt}
      → ThreadStep kernel v g a w h c
      → q ≤ 1
      → Local p q l b v g a
      → Local p q l b w h c
  ThreadStep-Local p q l b (ThreadStep.waited e) k i = ground (arith, kernel.wait_takes e)
  ThreadStep-Local p q l b ThreadStep.wait_failed k i = ground arith
  ThreadStep-Local p q l b ThreadStep.loaded k i = ground arith
  ThreadStep-Local p q l b ThreadStep.stored k i = ground arith
  ThreadStep-Local p q l b ThreadStep.printed k i = ground arith

  MainStep-Inv : {s u : State} → MainStep kernel s u → Inv s → Inv u
  MainStep-Inv (MainStep.created_first p q) i = ground arith
  MainStep-Inv (MainStep.create_first_failed p) i = ground arith
  MainStep-Inv (MainStep.created_second p q) i = ground arith
  MainStep-Inv (MainStep.create_second_failed p) i = ground arith
  MainStep-Inv (MainStep.posted_first p e) i = ground (arith, kernel.post_gives e)
  MainStep-Inv (MainStep.post_first_failed p) i = ground arith
  MainStep-Inv (MainStep.posted_second p e) i = ground (arith, kernel.post_gives e)
  MainStep-Inv (MainStep.post_second_failed p) i = ground arith
  MainStep-Inv (MainStep.joined_first p e) i = ground arith
  MainStep-Inv (MainStep.join_first_failed p) i = ground arith
  MainStep-Inv (MainStep.joined_second p e) i = ground arith
  MainStep-Inv (MainStep.join_second_failed p) i = ground arith
  MainStep-Inv (MainStep.reported p) i = ground arith

  one_if-le : (b : Bool) → one_if b ≤ 1
  one_if-le true = omega arith
  one_if-le false = omega arith

  Step-Inv : {s u : State} → Step kernel s u → Inv s → Inv u
  Step-Inv (Step.main_moves m) i = MainStep-Inv m i
  Step-Inv {s} (Step.first_moves m) i = omega (
    arith,
    ThreadStep-Local (one_if (passed s.second)) (one_if (has_stored s.second))
        (loaded_value s.second) (posts s.main) m (one_if-le (has_stored s.second)) (omega arith),
  )
  Step-Inv {s} (Step.second_moves m) i = omega (
    arith,
    ThreadStep-Local (one_if (passed s.first)) (one_if (has_stored s.first)) (loaded_value s.first)
        (posts s.main) m (one_if-le (has_stored s.first)) (omega arith),
  )

  Reach-Inv : {s : State} → Reach kernel s → Inv s
  Reach-Inv here = omega arith
  Reach-Inv (next r st) = Step-Inv st (Reach-Inv r)

  -- In every state that is reached, no more threads have come past the semaphore than the main
  -- thread has come past `sem_post`; `glob` is at most the number of threads that have stored, and
  -- at least half of it: of two increments one may be lost.
  pub glob_bounds :
      {s : State}
      → Reach kernel s
      → (one_if (passed s.first) + one_if (passed s.second) ≤ posts s.main)
        × (s.glob ≤ stores s)
        × (stores s ≤ s.glob + s.glob)
  glob_bounds r = omega (arith, Reach-Inv r)
