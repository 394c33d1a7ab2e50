-- ===== src/SysvShm/Channel.antt =====
-- The shared buffer as a channel with room for one block: what the transfer of sysv_shm_writer.c and
-- sysv_shm_reader.c promises, with no semaphores and no positions.
use myfreelib.Base.{
  ℕ, Bool, true, false, List, ◌≡◌, ◌⊎◌, inl, inr, arith, ◌==◌, ◌≤◌, length, take, drop, ◌++◌, refl,
  take-append_drop, some, none, if◌then◌else◌, take-append_length,
}
use myfreelib.Base.Channel.{Channel, ChannelStep, Simulates}
use myfreelib.Base.Semaphore.{Semop}
use myfreelib.SysvShm.Model.{
  buf_size, WriterAt, ReaderAt, State, visible, WriterStep, ReaderStep, Step, writer_moves,
  reader_moves, Reach,
}
use myfreelib.SysvShm.Invariant.{Inv, Reach-Inv}

-- A block of the buffer.
abbrev pub IsBlock : List ℕ → Type 0
IsBlock c = length c ≤ buf_size

-- Does the buffer hold a block that is not yet printed?
abbrev reader_leaves : ReaderAt → (read_sem : ℕ) → Bool
reader_leaves ReaderAt.wait_read r = r == 0
reader_leaves ReaderAt.release_write r = false
reader_leaves ReaderAt.set_read r = false
reader_leaves _ r = true

abbrev pub full : WriterAt → ReaderAt → (read_sem : ℕ) → Bool
full WriterAt.reading p r = false
full WriterAt.release_read p r = true
full _ p r = reader_leaves p r

abbrev pub abstract : State → Channel ℕ
abstract s = record {
  put = s.sent;
  slot = if full s.writer s.reader s.read_sem then some (drop s.short (visible s)) else none;
  taken = s.printed;
}

-- A part of the block goes out, the rest stays.
pub record PartStep (a b : Channel ℕ) : Type 0 where
  pub part : List ℕ
  pub rest : List ℕ
  pub held : a.slot ≡ some (part ++ rest)
  pub left : b ≡ record { put = a.put; slot = some rest; taken = a.taken ++ part }

abbrev Refines : (s u : State) → Type 0
Refines s u = Simulates IsBlock (abstract s) (abstract u)

module _ (sem : Semop) where
  WriterStep-Refines : {s u : State} → WriterStep sem s u → Inv s → Refines s u
  WriterStep-Refines (WriterStep.waited p h) i = inl (ground (arith, sem.wait_zero h))
  WriterStep-Refines {s} (WriterStep.got c p h) i = inr (
      ChannelStep.puts c (ground arith) h
        (ground (arith, take-append_length c (drop (length c) s.buf))))
  WriterStep-Refines (WriterStep.read_failed p) i = inl (ground arith)
  WriterStep-Refines (WriterStep.released p h) i = inl (ground (arith, sem.take_one h))
  WriterStep-Refines (WriterStep.offered p h) i = inl (ground (arith, sem.give_one h))
  WriterStep-Refines (WriterStep.again p h) i = inl (ground arith)
  WriterStep-Refines (WriterStep.broke p h) i = inl (ground arith)
  WriterStep-Refines (WriterStep.finished p h) i = inl (ground (arith, sem.wait_zero h))
  WriterStep-Refines (WriterStep.failed p) i = inl (ground arith)

  ReaderStep-Refines :
      {s u : State}
      → ReaderStep sem s u
      → s.reader_gone ≡ false
      → Inv s
      → Refines s u ⊎ ((u.reader_gone ≡ true) × PartStep (abstract s) (abstract u))
  ReaderStep-Refines (ReaderStep.waited p h) a i = inl (inl (ground (arith, sem.wait_zero h)))
  ReaderStep-Refines (ReaderStep.broke p h) a i = inl (inl (ground arith))
  ReaderStep-Refines (ReaderStep.found p h) a i = inl (inl (ground arith))
  ReaderStep-Refines {s} (ReaderStep.wrote p) a i =
      inl (inr (ChannelStep.takes (visible s) (ground arith) (ground arith)))
  ReaderStep-Refines {s} (ReaderStep.wrote_part n p h) a i = inr (
    refl,
    record {
      part = take n (visible s);
      rest = drop n (visible s);
      held = ground (arith, take-append_drop n (visible s));
      left = ground arith;
    },
  )
  ReaderStep-Refines (ReaderStep.released p h) a i = inl (inl (ground (arith, sem.take_one h)))
  ReaderStep-Refines (ReaderStep.offered p h) a i = inl (inl (ground (arith, sem.give_one h)))
  ReaderStep-Refines (ReaderStep.detached p) a i = inl (inl (ground arith))
  ReaderStep-Refines (ReaderStep.finished p h) a i = inl (inl (ground (arith, sem.take_one h)))
  ReaderStep-Refines (ReaderStep.failed p) a i = inl (inl (ground arith))

  -- Every step of the two programs from a state that is reached is a step of a channel with room
  -- for one block of at most `BUF_SIZE` bytes, or leaves the channel as it is, or is a short write
  -- of the reader: that takes out a part of the block, and the reader is gone.
  pub transfer_refines_channel :
      {garbage : List ℕ} {s u : State}
      → Reach sem garbage s
      → Step sem s u
      → ((abstract u ≡ abstract s) ⊎ ChannelStep IsBlock (abstract s) (abstract u))
        ⊎ ((u.reader_gone ≡ true) × PartStep (abstract s) (abstract u))
  transfer_refines_channel r (writer_moves a w) = inl (WriterStep-Refines w (Reach-Inv sem r))
  transfer_refines_channel r (reader_moves a w) = ReaderStep-Refines w a (Reach-Inv sem r)
