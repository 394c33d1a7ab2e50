-- ===== src/SysvShm/Tests.antt =====
-- The theorems about the shared buffer at a concrete semaphore and a short run.
use myfreelib.Base.{
  ◌≢◌, ℕ, ℤ, zero, suc, pos, negsuc, true, false, drop, List, [], ◌∷◌, ◌++◌, ◌≡◌, ◌⊎◌, refl, ◌+◌,
  ◌*◌, ◌≤◌, arith,
}
use myfreelib.Base.Semaphore.{Semop}
use myfreelib.SysvShm.Model.{
  WriterAt, ReaderAt, State, visible, WriterStep, ReaderStep, writer_moves, reader_moves, Reach,
  here, next,
}
use myfreelib.SysvShm.Safety.{looking, buffer_is_exclusive, printed_is_prefix, reader_prints_all}
use myfreelib.Base.Channel.{ChannelStep}
use myfreelib.SysvShm.Channel.{IsBlock, PartStep, abstract, transfer_refines_channel}
use myfreelib.SysvShm.Termination.{steps, blocks, steps-le-blocks}
use myfreelib.SysvShm.Setup.{
  Call, Reply, History, create_semaphores, create_segment, shmat, writer_setup, writer_clean,
  reader_setup, reader_clean,
}
use myfreelib.SysvShm.Setup.Laws.{sets, segments, attached, clean-setup}
use myfreelib.SysvShm.Progress.{Progress, no_deadlock}

-- A semaphore as the manual page describes it.
abbrev Counts : ℕ → ℤ → ℕ → Type 0
Counts v (pos zero) w = (v ≡ 0) × (w ≡ 0)
Counts v (pos (suc n)) w = w ≡ v + suc n
Counts v (negsuc n) w = v ≡ w + suc n

Counts-wait_zero : {v w : ℕ} → Counts v (pos 0) w → (v ≡ 0) × (w ≡ 0)
Counts-wait_zero h = h

Counts-take_one : {v w : ℕ} → Counts v (negsuc 0) w → v ≡ suc w
Counts-take_one h = omega arith

Counts-give_one : {v w : ℕ} → Counts v (pos 1) w → w ≡ suc v
Counts-give_one h = omega arith

Counts-take : (v : ℕ) → Counts (suc v) (negsuc 0) v
Counts-take v = omega arith

Counts-give : (v : ℕ) → Counts v (pos 1) (suc v)
Counts-give v = omega arith

abbrev counter : Semop
counter = record {
  Completes = Counts;
  wait_zero = Counts-wait_zero;
  take_one = Counts-take_one;
  give_one = Counts-give_one;
  zero_completes = (refl, refl);
  take_completes = Counts-take;
  give_completes = Counts-give;
}

-- A state with the steps that lead to it.
record Run : Type 0 where
  last : State
  reach : Reach counter (0 ∷ 0 ∷ 0 ∷ []) last

abbrev by_writer :
    (r : Run) {u : State} → r.last.writer_gone ≡ false → WriterStep counter r.last u → Run
by_writer r alive st = record { last = _; reach = next r.reach (writer_moves alive st) }

abbrev by_reader :
    (r : Run) {u : State} → r.last.reader_gone ≡ false → ReaderStep counter r.last u → Run
by_reader r alive st = record { last = _; reach = next r.reach (reader_moves alive st) }

-- One turn of the writer, from the head of its loop to the test of `shmp->cnt`.
abbrev reading : Run
reading = by_writer (record { last = _; reach = here }) refl (WriterStep.waited refl (refl, refl))

abbrev filled : Run
filled = by_writer reading refl (WriterStep.got (104 ∷ 105 ∷ []) refl (omega arith))

abbrev released : Run
released = by_writer filled refl (WriterStep.released {v = 0} refl refl)

abbrev offered : Run
offered = by_writer released refl (WriterStep.offered {v = 1} refl refl)

not_end : pos 2 ≢ pos 0
not_end e = cc

-- The reader prints the two bytes, and gives the buffer back.
abbrev printing : Run
printing =
    let a = by_reader offered refl (ReaderStep.waited refl (refl, refl)) in
    by_reader a refl (ReaderStep.found refl not_end)

abbrev emptied : Run
emptied =
    let a = by_reader printing refl (ReaderStep.wrote refl) in
    let b = by_reader a refl (ReaderStep.released {v = 0} refl refl) in
    by_reader b refl (ReaderStep.offered {v = 1} refl refl)

-- The writer reads the end of its input, and both end.
abbrev at_end : Run
at_end =
    let a = by_writer emptied refl (WriterStep.again refl not_end) in
    let b = by_writer a refl (WriterStep.waited refl (refl, refl)) in
    let c = by_writer b refl (WriterStep.got [] refl (omega arith)) in
    let d = by_writer c refl (WriterStep.released {v = 0} refl refl) in
    let e = by_writer d refl (WriterStep.offered {v = 1} refl refl) in
    by_writer e refl (WriterStep.broke refl refl)

abbrev both_ended : Run
both_ended =
    let a = by_reader at_end refl (ReaderStep.waited refl (refl, refl)) in
    let b = by_reader a refl (ReaderStep.broke refl refl) in
    let c = by_reader b refl (ReaderStep.detached refl) in
    let d = by_reader c refl (ReaderStep.finished {v = 0} refl refl) in
    by_writer d refl (WriterStep.finished refl (refl, refl))

all_printed : both_ended.last.printed ≡ 104 ∷ 105 ∷ []
all_printed = refl

-- A write that prints one byte of two.
abbrev cut : Run
cut = by_reader printing refl (ReaderStep.wrote_part 1 refl (omega arith))

cut_printed : (cut.last.printed ≡ 104 ∷ []) × (drop cut.last.short (visible cut.last) ≡ 105 ∷ [])
cut_printed = (refl, refl)

printed_is_prefix_example :
    (rest : List ℕ) × (cut.last.sent ≡ cut.last.printed ++ rest)
    × ((rest ≡ [])
        ⊎ (rest ≡ visible cut.last)
        ⊎ ((cut.last.reader_gone ≡ true) × (rest ≡ drop cut.last.short (visible cut.last))))
printed_is_prefix_example = printed_is_prefix counter cut.reach

reader_prints_all_example : both_ended.last.printed ≡ both_ended.last.sent
reader_prints_all_example = reader_prints_all counter both_ended.reach refl

buffer_is_exclusive_example : looking reading.last.reader ≡ false
buffer_is_exclusive_example = buffer_is_exclusive counter reading.reach refl

no_deadlock_example :
    Progress counter offered.last
    ⊎ ((offered.last.writer ≡ WriterAt.ended) × (offered.last.reader ≡ ReaderAt.ended))
no_deadlock_example = no_deadlock counter offered.last offered.reach refl refl

transfer_refines_channel_example :
    ((abstract filled.last ≡ abstract reading.last)
      ⊎ ChannelStep IsBlock (abstract reading.last) (abstract filled.last))
    ⊎ ((filled.last.reader_gone ≡ true) × PartStep (abstract reading.last) (abstract filled.last))
transfer_refines_channel_example =
    transfer_refines_channel counter reading.reach
      (writer_moves refl (WriterStep.got (104 ∷ 105 ∷ []) refl (omega arith)))

steps-le-blocks_example : steps both_ended.reach ≤ 10 * blocks both_ended.reach + 3
steps-le-blocks_example = steps-le-blocks counter both_ended.reach

-- The segment can be created, but not attached by the writer.
abbrev no_shmat_os : History → Call → Reply
no_shmat_os t create_semaphores = record { ret = pos 3 }
no_shmat_os t create_segment = record { ret = pos 4 }
no_shmat_os t (shmat id) = record { ret = negsuc 0 }
no_shmat_os t c = record { ret = pos 0 }

clean-setup_example :
    (let ((r, s), u) = writer_setup no_shmat_os [] in
      let v = (writer_clean s no_shmat_os u).1 in
      (sets v ≡ []) × (segments v ≡ []) × (attached v ≡ []))
    × (let ((r, p), u) = reader_setup no_shmat_os [] in
        let v = (reader_clean p no_shmat_os u).1 in
        (sets v ≡ []) × (segments v ≡ []) × (attached v ≡ []))
clean-setup_example = clean-setup no_shmat_os []
