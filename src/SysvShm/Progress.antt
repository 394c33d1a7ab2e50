-- ===== src/SysvShm/Progress.antt =====
-- The two processes of the shared buffer never wait for each other.
use myfreelib.Base.{
  ℕ, ℤ, suc, pos, minus_one, Bool, true, false, List, [], ◌≡◌, ◌≢◌, ◌⊎◌, inl, inr, refl, sym, arith,
  ◌<◌, ◌==◌, ltb, eq_ℤ, Bool-cases, ◌-◌, subst,
}
use myfreelib.Base.Semaphore.{Semop}
use myfreelib.SysvShm.Model.{
  WriterAt, ReaderAt, State, WriterStep, ReaderStep, Step, writer_moves, reader_moves, Reach,
}
use myfreelib.SysvShm.Invariant.{Inv, Reach-Inv}

-- The call on which the writer stands would return, by the values of the semaphores.
abbrev writer_ready : WriterAt → State → Bool
writer_ready WriterAt.wait_write s = s.write_sem == 0
writer_ready WriterAt.release_read s = ltb 0 s.read_sem
writer_ready WriterAt.last_wait s = s.write_sem == 0
writer_ready WriterAt.ended s = false
writer_ready _ s = true

abbrev reader_ready : ReaderAt → State → Bool
reader_ready ReaderAt.wait_read s = s.read_sem == 0
reader_ready ReaderAt.release_write s = ltb 0 s.write_sem
reader_ready ReaderAt.last_release s = ltb 0 s.write_sem
reader_ready ReaderAt.ended s = false
reader_ready _ s = true

Inv-ready :
    (s : State)
    → Inv s
    → (writer_ready s.writer s ≡ true)
      ⊎ (reader_ready s.reader s ≡ true)
      ⊎ ((s.writer ≡ WriterAt.ended) × (s.reader ≡ ReaderAt.ended))
Inv-ready s i = ground arith

cnt-cases : (c : ℤ) → (c ≡ pos 0) ⊎ (c ≢ pos 0)
cnt-cases c = elim (Bool-cases (eq_ℤ c (pos 0))) [
  | inl e ↦ inl (ground arith)
  | inr e ↦ inr (λ h. ground arith)
]

module _ (sem : Semop) (s : State) where
  -- A step that is no failure.
  abbrev pub Progress : Type 0
  Progress = (u : State) × Step sem s u × (u.writer_gone ≡ false) × (u.reader_gone ≡ false)

  waits_for_zero : {v : ℕ} → v ≡ 0 → sem.Completes v (pos 0) 0
  waits_for_zero e = rw e sem.zero_completes

  takes_one : {v : ℕ} → 0 < v → sem.Completes v minus_one (v - 1)
  takes_one {v} h =
      let e : v ≡ suc (v - 1) = omega arith in
      subst (λ w. sem.Completes w minus_one (v - 1)) (sym e) (sem.take_completes (v - 1))

  module _ (a : s.writer_gone ≡ false) (b : s.reader_gone ≡ false) where
    writer_progress : (w : WriterAt) → s.writer ≡ w → writer_ready w s ≡ true → Progress
    writer_progress WriterAt.wait_write p h =
        (_, writer_moves a (WriterStep.waited p (waits_for_zero (ground arith))), a, b)
    writer_progress WriterAt.reading p h =
        (_, writer_moves a (WriterStep.got [] p (omega arith)), a, b)
    writer_progress WriterAt.release_read p h =
        (_, writer_moves a (WriterStep.released p (takes_one (ground arith))), a, b)
    writer_progress WriterAt.set_write p h =
        (_, writer_moves a (WriterStep.offered p (sem.give_completes s.write_sem)), a, b)
    writer_progress WriterAt.test_end p h = elim (cnt-cases s.cnt) [
      | inl e ↦ (_, writer_moves a (WriterStep.broke p e), a, b)
      | inr e ↦ (_, writer_moves a (WriterStep.again p e), a, b)
    ]
    writer_progress WriterAt.last_wait p h =
        (_, writer_moves a (WriterStep.finished p (waits_for_zero (ground arith))), a, b)
    writer_progress WriterAt.ended p h = cc

    reader_progress : (w : ReaderAt) → s.reader ≡ w → reader_ready w s ≡ true → Progress
    reader_progress ReaderAt.wait_read p h =
        (_, reader_moves b (ReaderStep.waited p (waits_for_zero (ground arith))), a, b)
    reader_progress ReaderAt.test_cnt p h = elim (cnt-cases s.cnt) [
      | inl e ↦ (_, reader_moves b (ReaderStep.broke p e), a, b)
      | inr e ↦ (_, reader_moves b (ReaderStep.found p e), a, b)
    ]
    reader_progress ReaderAt.printing p h = (_, reader_moves b (ReaderStep.wrote p), a, b)
    reader_progress ReaderAt.release_write p h =
        (_, reader_moves b (ReaderStep.released p (takes_one (ground arith))), a, b)
    reader_progress ReaderAt.set_read p h =
        (_, reader_moves b (ReaderStep.offered p (sem.give_completes s.read_sem)), a, b)
    reader_progress ReaderAt.detach p h = (_, reader_moves b (ReaderStep.detached p), a, b)
    reader_progress ReaderAt.last_release p h =
        (_, reader_moves b (ReaderStep.finished p (takes_one (ground arith))), a, b)
    reader_progress ReaderAt.ended p h = cc

-- In every state that is reached with both processes alive, either both have ended, or one of them
-- can take a step that is no failure: they never wait for each other.
pub no_deadlock :
    (sem : Semop) {garbage : List ℕ} (s : State)
    → Reach sem garbage s
    → s.writer_gone ≡ false
    → s.reader_gone ≡ false
    → Progress sem s ⊎ ((s.writer ≡ WriterAt.ended) × (s.reader ≡ ReaderAt.ended))
no_deadlock sem s r a b = elim (Inv-ready s (Reach-Inv sem r)) [
  | inl w ↦ inl (writer_progress sem s a b s.writer refl w)
  | inr (inl w) ↦ inl (reader_progress sem s a b s.reader refl w)
  | inr (inr e) ↦ inr e
]
