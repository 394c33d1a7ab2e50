-- ===== src/SysvShm/Safety.antt =====
-- What holds in every state that the writer and the reader of the shared buffer reach.
use myfreelib.Base.{
  ◌∙◌, ℕ, Bool, true, false, List, drop, [], ◌++◌, ◌≡◌, ◌⊎◌, inl, inr, refl, sym, arith, append-nil,
}
use myfreelib.Base.Semaphore.{Semop}
use myfreelib.SysvShm.Model.{WriterAt, ReaderAt, State, visible, Reach}
use myfreelib.SysvShm.Invariant.{Printed, Waiting, Left, Inv, Reach-Inv}

-- The writer is about to store into the buffer; the reader is about to look at it.
abbrev writing : WriterAt → Bool
writing WriterAt.reading = true
writing _ = false

abbrev pub looking : ReaderAt → Bool
looking ReaderAt.test_cnt = true
looking ReaderAt.printing = true
looking _ = false

-- Either all is printed, or the buffer holds what is missing, or its end does.
Inv-Missing : (s : State) → Inv s → Printed s ⊎ Waiting s ⊎ ((s.reader_gone ≡ true) × Left s)
Inv-Missing s i = ground arith

module _ (sem : Semop) {garbage : List ℕ} {s : State} (r : Reach sem garbage s) where
  -- In every state that is reached, while the writer is about to read into the shared buffer the
  -- reader neither tests the count nor prints the buffer.
  pub buffer_is_exclusive : writing s.writer ≡ true → looking s.reader ≡ false
  buffer_is_exclusive w = ground (arith, Reach-Inv sem r)

  -- In every state that is reached, what the reader has printed is an initial part of what the
  -- writer has read, in the same order. What is missing is nothing; or the contents of the buffer;
  -- or, after a short write, with which the reader is gone, what that has left of them.
  pub printed_is_prefix :
      (rest : List ℕ) × (s.sent ≡ s.printed ++ rest)
      × ((rest ≡ [])
          ⊎ (rest ≡ visible s)
          ⊎ ((s.reader_gone ≡ true) × (rest ≡ drop s.short (visible s))))
  printed_is_prefix = elim (Inv-Missing s (Reach-Inv sem r)) [
    | inl p ↦ ([], p ∙ sym (append-nil s.printed), inl refl)
    | inr (inl w) ↦ (visible s, w, inr (inl refl))
    | inr (inr (g, w)) ↦ (drop s.short (visible s), w, inr (inr (g, refl)))
  ]

  -- When the reader has ended its loop and detached, it has printed exactly what the writer read.
  pub reader_prints_all : s.reader ≡ ReaderAt.ended → s.printed ≡ s.sent
  reader_prints_all e = ground (arith, Reach-Inv sem r)

  -- The writer returns 0 only after the reader has ended, with everything printed.
  writer_ends_last : s.writer ≡ WriterAt.ended → (s.reader ≡ ReaderAt.ended) × (s.printed ≡ s.sent)
  writer_ends_last e = ground (arith, Reach-Inv sem r)
