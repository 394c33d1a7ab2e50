-- ===== src/SysvShm/Termination.antt =====
-- How many steps the two programs take for so many blocks.
use myfreelib.Base.{ℕ, suc, Bool, false, List, ◌≡◌, refl, arith, ◌≤◌, ◌+◌, ◌*◌, if◌then◌else◌}
use myfreelib.Base.Semaphore.{Semop}
use myfreelib.SysvShm.Model.{
  WriterAt, ReaderAt, State, WriterStep, ReaderStep, writer_moves, reader_moves, Reach, here, next,
}
use myfreelib.SysvShm.Invariant.{Inv, Reach-Inv}
use myfreelib.SysvShm.Channel.{full}

abbrev one_if : Bool → ℕ
one_if b = if b then 1 else 0

module _ {sem : Semop} where
  abbrev reads : {s u : State} → WriterStep sem s u → ℕ
  reads (WriterStep.got c p h) = 1
  reads (WriterStep.waited p h) = 0
  reads (WriterStep.read_failed p) = 0
  reads (WriterStep.released p h) = 0
  reads (WriterStep.offered p h) = 0
  reads (WriterStep.again p h) = 0
  reads (WriterStep.broke p h) = 0
  reads (WriterStep.finished p h) = 0
  reads (WriterStep.failed p) = 0

  abbrev prints : {s u : State} → ReaderStep sem s u → ℕ
  prints (ReaderStep.wrote p) = 1
  prints (ReaderStep.wrote_part n p h) = 0
  prints (ReaderStep.waited p h) = 0
  prints (ReaderStep.broke p h) = 0
  prints (ReaderStep.found p h) = 0
  prints (ReaderStep.released p h) = 0
  prints (ReaderStep.offered p h) = 0
  prints (ReaderStep.detached p) = 0
  prints (ReaderStep.finished p h) = 0
  prints (ReaderStep.failed p) = 0

  module _ {garbage : List ℕ} where
    -- The steps that a run has taken, all and those of each program.
    abbrev writer_steps : {s : State} → Reach sem garbage s → ℕ
    writer_steps here = 0
    writer_steps (next r (writer_moves a w)) = suc (writer_steps r)
    writer_steps (next r (reader_moves a w)) = writer_steps r

    abbrev reader_steps : {s : State} → Reach sem garbage s → ℕ
    reader_steps here = 0
    reader_steps (next r (writer_moves a w)) = reader_steps r
    reader_steps (next r (reader_moves a w)) = suc (reader_steps r)

    abbrev pub steps : {s : State} → Reach sem garbage s → ℕ
    steps here = 0
    steps (next r st) = suc (steps r)

    -- How often the writer's `read` has returned, the end of the input included.
    abbrev pub blocks : {s : State} → Reach sem garbage s → ℕ
    blocks here = 0
    blocks (next r (writer_moves a w)) = reads w + blocks r
    blocks (next r (reader_moves a w)) = blocks r

    abbrev printed_blocks : {s : State} → Reach sem garbage s → ℕ
    printed_blocks here = 0
    printed_blocks (next r (writer_moves a w)) = printed_blocks r
    printed_blocks (next r (reader_moves a w)) = prints w + printed_blocks r

    steps_lem : {s : State} (r : Reach sem garbage s) → steps r ≡ writer_steps r + reader_steps r
    steps_lem here = refl
    steps_lem (next r (writer_moves a w)) = omega (arith, steps_lem r)
    steps_lem (next r (reader_moves a w)) = omega (arith, steps_lem r)

-- How far the writer is past the `read` of a block, and the reader past the `write`.
abbrev writer_offset : WriterAt → ℕ
writer_offset WriterAt.release_read = 0
writer_offset WriterAt.set_write = 1
writer_offset WriterAt.test_end = 2
writer_offset WriterAt.wait_write = 3
writer_offset WriterAt.last_wait = 3
writer_offset WriterAt.reading = 4
writer_offset WriterAt.ended = 4

abbrev reader_offset : ReaderAt → ℕ
reader_offset ReaderAt.release_write = 0
reader_offset ReaderAt.set_read = 1
reader_offset ReaderAt.wait_read = 2
reader_offset ReaderAt.test_cnt = 3
reader_offset ReaderAt.printing = 4
reader_offset ReaderAt.detach = 4
reader_offset ReaderAt.last_release = 5
reader_offset ReaderAt.ended = 6

-- The state after so many steps of each program, so many blocks read and so many printed.
abbrev Counted : (n k m p : ℕ) → State → Type 0
Counted n k m p s =
    (n + 3 ≡ 5 * m + writer_offset s.writer + one_if s.writer_gone)
    × (k + 2 ≡ 5 * p + reader_offset s.reader + one_if s.reader_gone)
    × (m ≡ p + one_if (full s.writer s.reader s.read_sem))

module _ (sem : Semop) where
  WriterStep-Counted :
      (n k m p : ℕ) {s u : State} (w : WriterStep sem s u)
      → s.writer_gone ≡ false
      → Inv s
      → Counted n k m p s
      → Counted (suc n) k (reads w + m) p u
  WriterStep-Counted n k m p (WriterStep.waited e h) a i c = ground (arith, sem.wait_zero h)
  WriterStep-Counted n k m p (WriterStep.got b e h) a i c = ground arith
  WriterStep-Counted n k m p (WriterStep.read_failed e) a i c = ground arith
  WriterStep-Counted n k m p (WriterStep.released e h) a i c = ground (arith, sem.take_one h)
  WriterStep-Counted n k m p (WriterStep.offered e h) a i c = ground (arith, sem.give_one h)
  WriterStep-Counted n k m p (WriterStep.again e h) a i c = ground arith
  WriterStep-Counted n k m p (WriterStep.broke e h) a i c = ground arith
  WriterStep-Counted n k m p (WriterStep.finished e h) a i c = ground (arith, sem.wait_zero h)
  WriterStep-Counted n k m p (WriterStep.failed e) a i c = ground arith

  ReaderStep-Counted :
      (n k m p : ℕ) {s u : State} (w : ReaderStep sem s u)
      → s.reader_gone ≡ false
      → Inv s
      → Counted n k m p s
      → Counted n (suc k) m (prints w + p) u
  ReaderStep-Counted n k m p (ReaderStep.waited e h) a i c = ground (arith, sem.wait_zero h)
  ReaderStep-Counted n k m p (ReaderStep.broke e h) a i c = ground arith
  ReaderStep-Counted n k m p (ReaderStep.found e h) a i c = ground arith
  ReaderStep-Counted n k m p (ReaderStep.wrote e) a i c = ground arith
  ReaderStep-Counted n k m p (ReaderStep.wrote_part j e h) a i c = ground arith
  ReaderStep-Counted n k m p (ReaderStep.released e h) a i c = ground (arith, sem.take_one h)
  ReaderStep-Counted n k m p (ReaderStep.offered e h) a i c = ground (arith, sem.give_one h)
  ReaderStep-Counted n k m p (ReaderStep.detached e) a i c = ground arith
  ReaderStep-Counted n k m p (ReaderStep.finished e h) a i c = ground (arith, sem.take_one h)
  ReaderStep-Counted n k m p (ReaderStep.failed e) a i c = ground arith

  Reach-Counted :
      {garbage : List ℕ} {s : State} (r : Reach sem garbage s)
      → Counted (writer_steps r) (reader_steps r) (blocks r) (printed_blocks r) s
  Reach-Counted here = omega arith
  Reach-Counted (next r (writer_moves a w)) =
      WriterStep-Counted (writer_steps r) (reader_steps r) (blocks r) (printed_blocks r) w a
        (Reach-Inv sem r) (Reach-Counted r)
  Reach-Counted (next r (reader_moves a w)) =
      ReaderStep-Counted (writer_steps r) (reader_steps r) (blocks r) (printed_blocks r) w a
        (Reach-Inv sem r) (Reach-Counted r)

  Counted-bound : (n k m p : ℕ) (s : State) → Inv s → Counted n k m p s → n + k ≤ 10 * m + 3
  Counted-bound n k m p s i c = ground arith

  -- A run in which the writer's `read` has returned so many times has at most ten steps for each
  -- time, and three more: with an input that ends, the two programs come to an end.
  pub steps-le-blocks :
      {garbage : List ℕ} {s : State} (r : Reach sem garbage s) → steps r ≤ 10 * blocks r + 3
  steps-le-blocks {s = s} r = omega (
    arith,
    steps_lem r,
    Counted-bound (writer_steps r) (reader_steps r) (blocks r) (printed_blocks r) s
        (Reach-Inv sem r) (Reach-Counted r),
  )
