-- ===== src/SysvShm/Invariant.antt =====
-- Which positions of the two processes go together, with the semaphores and the buffer there.
use myfreelib.Base.{
  take-append_drop, append_assoc, take, true, false, length, drop, ℕ, pos, List, ◌++◌, ◌≡◌, ◌≢◌,
  ◌⊎◌, inl, refl, arith, take-append_length, append-nil,
}
use myfreelib.Base.Semaphore.{Semop}
use myfreelib.SysvShm.Model.{
  WriterAt, ReaderAt, State, visible, WriterStep, ReaderStep, writer_moves, reader_moves, Reach,
  here, next,
}

-- The semaphores have these values.
abbrev Sems : ℕ → ℕ → State → Type 0
Sems w r s = (s.write_sem ≡ w) × (s.read_sem ≡ r)

-- Everything that was read is printed; or all but what is in the buffer.
abbrev pub Printed : State → Type 0
Printed s = s.sent ≡ s.printed

abbrev pub Waiting : State → Type 0
Waiting s = s.sent ≡ s.printed ++ visible s

-- After a short `write` the rest of the buffer is missing, and the reader is gone.
abbrev pub Left : State → Type 0
Left s = s.sent ≡ s.printed ++ drop s.short (visible s)

abbrev Whole : State → Type 0
Whole s = (s.short ≡ 0) ⊎ ((s.reader ≡ ReaderAt.printing) × (s.reader_gone ≡ true))

abbrev More : State → Type 0
More s = s.cnt ≢ pos 0

abbrev AtEnd : State → Type 0
AtEnd s = s.cnt ≡ pos 0

-- One row for each pair of positions that can be reached.
abbrev Agree : WriterAt → ReaderAt → State → Type 0
Agree WriterAt.wait_write ReaderAt.wait_read s =
    (Sems 0 1 s × Printed s) ⊎ (Sems 1 0 s × Waiting s × More s)
Agree WriterAt.wait_write ReaderAt.test_cnt s = Sems 1 0 s × Waiting s × More s
Agree WriterAt.wait_write ReaderAt.printing s = Sems 1 0 s × Left s × More s
Agree WriterAt.wait_write ReaderAt.release_write s = Sems 1 0 s × Printed s
Agree WriterAt.wait_write ReaderAt.set_read s = Sems 0 0 s × Printed s
Agree WriterAt.reading ReaderAt.wait_read s = Sems 0 1 s × Printed s
Agree WriterAt.reading ReaderAt.set_read s = Sems 0 0 s × Printed s
Agree WriterAt.release_read ReaderAt.wait_read s = Sems 0 1 s × Waiting s
Agree WriterAt.release_read ReaderAt.set_read s = Sems 0 0 s × Waiting s
Agree WriterAt.set_write ReaderAt.wait_read s = Sems 0 0 s × Waiting s
Agree WriterAt.set_write ReaderAt.test_cnt s = Sems 0 0 s × Waiting s
Agree WriterAt.set_write ReaderAt.printing s = Sems 0 0 s × Left s × More s
Agree WriterAt.set_write ReaderAt.release_write s = Sems 0 0 s × Printed s × More s
Agree WriterAt.set_write ReaderAt.detach s = Sems 0 0 s × Printed s × AtEnd s
Agree WriterAt.set_write ReaderAt.last_release s = Sems 0 0 s × Printed s × AtEnd s
Agree WriterAt.test_end ReaderAt.wait_read s =
    (Sems 0 1 s × Printed s × More s) ⊎ (Sems 1 0 s × Waiting s)
Agree WriterAt.test_end ReaderAt.test_cnt s = Sems 1 0 s × Waiting s
Agree WriterAt.test_end ReaderAt.printing s = Sems 1 0 s × Left s × More s
Agree WriterAt.test_end ReaderAt.release_write s = Sems 1 0 s × Printed s × More s
Agree WriterAt.test_end ReaderAt.set_read s = Sems 0 0 s × Printed s × More s
Agree WriterAt.test_end ReaderAt.detach s = Sems 1 0 s × Printed s × AtEnd s
Agree WriterAt.test_end ReaderAt.last_release s = Sems 1 0 s × Printed s × AtEnd s
Agree WriterAt.test_end ReaderAt.ended s = Sems 0 0 s × Printed s × AtEnd s
Agree WriterAt.last_wait ReaderAt.wait_read s = Sems 1 0 s × Waiting s × AtEnd s
Agree WriterAt.last_wait ReaderAt.test_cnt s = Sems 1 0 s × Waiting s × AtEnd s
Agree WriterAt.last_wait ReaderAt.detach s = Sems 1 0 s × Printed s × AtEnd s
Agree WriterAt.last_wait ReaderAt.last_release s = Sems 1 0 s × Printed s × AtEnd s
Agree WriterAt.last_wait ReaderAt.ended s = Sems 0 0 s × Printed s × AtEnd s
Agree WriterAt.ended ReaderAt.ended s = Sems 0 0 s × Printed s × AtEnd s
Agree _ _ s = ⊥

abbrev pub Inv : State → Type 0
Inv s = Agree s.writer s.reader s × Whole s

-- At the end of the input the buffer shows nothing.
Waiting-Printed : (s : State) → Waiting s → AtEnd s → Printed s
Waiting-Printed s h e = ground (arith, append-nil s.printed)

module _ (sem : Semop) where
  WriterStep-Inv : {s u : State} → WriterStep sem s u → Inv s → Inv u
  WriterStep-Inv (WriterStep.waited p h) i = ground (arith, sem.wait_zero h)
  WriterStep-Inv {s} (WriterStep.got c p h) i =
      ground (arith, take-append_length c (drop (length c) s.buf))
  WriterStep-Inv (WriterStep.read_failed p) i = ground arith
  WriterStep-Inv (WriterStep.released p h) i = ground (arith, sem.take_one h)
  WriterStep-Inv (WriterStep.offered p h) i = ground (arith, sem.give_one h)
  WriterStep-Inv (WriterStep.again p h) i = ground arith
  WriterStep-Inv (WriterStep.broke p h) i = ground arith
  WriterStep-Inv (WriterStep.finished p h) i = ground (arith, sem.wait_zero h)
  WriterStep-Inv (WriterStep.failed p) i = ground arith

  ReaderStep-Inv : {s u : State} → ReaderStep sem s u → s.reader_gone ≡ false → Inv s → Inv u
  ReaderStep-Inv (ReaderStep.waited p h) a i = ground (arith, sem.wait_zero h)
  ReaderStep-Inv {s} (ReaderStep.broke p h) a i = ground (arith, Waiting-Printed s)
  ReaderStep-Inv (ReaderStep.found p h) a i = ground arith
  ReaderStep-Inv (ReaderStep.wrote p) a i = ground arith
  ReaderStep-Inv {s} (ReaderStep.wrote_part n p h) a i = ground (
    arith,
    append_assoc s.printed (take n (visible s)) (drop n (visible s)),
    take-append_drop n (visible s),
  )
  ReaderStep-Inv (ReaderStep.released p h) a i = ground (arith, sem.take_one h)
  ReaderStep-Inv (ReaderStep.offered p h) a i = ground (arith, sem.give_one h)
  ReaderStep-Inv (ReaderStep.detached p) a i = ground arith
  ReaderStep-Inv (ReaderStep.finished p h) a i = ground (arith, sem.take_one h)
  ReaderStep-Inv (ReaderStep.failed p) a i = ground arith

  pub Reach-Inv : {g : List ℕ} {s : State} → Reach sem g s → Inv s
  Reach-Inv here = (inl ((refl, refl), refl), inl refl)
  Reach-Inv (next r (writer_moves a w)) = WriterStep-Inv w (Reach-Inv r)
  Reach-Inv (next r (reader_moves a w)) = ReaderStep-Inv w a (Reach-Inv r)
