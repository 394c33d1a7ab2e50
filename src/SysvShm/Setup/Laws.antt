-- ===== src/SysvShm/Setup/Laws.antt =====
-- What the two programs of sysv_shm_demo leave behind.
use myfreelib.Base.{
  ℕ, Option, none, some, is_neg, if◌then◌else◌, ℤ, List, [], ◌∷◌, ◌≡◌, arith, remove, gain,
}
use myfreelib.SysvShm.Model.{start}
use myfreelib.SysvShm.Setup.{
  set_all, Call, Reply, History, create_semaphores, remove_semaphores, create_segment,
  remove_segment, shmat, shmat_rdonly, shmdt, writer_setup, writer_clean, reader_setup,
  reader_clean,
}

-- The semaphore sets and segments asked for and not removed, and the addresses attached.
abbrev pub sets : History → List ℤ
sets [] = []
sets ((create_semaphores, r) ∷ t) = gain r.ret (sets t)
sets ((remove_semaphores semid, r) ∷ t) = remove semid (sets t)
sets (_ ∷ t) = sets t

abbrev pub segments : History → List ℤ
segments [] = []
segments ((create_segment, r) ∷ t) = gain r.ret (segments t)
segments ((remove_segment shmid, r) ∷ t) = remove shmid (segments t)
segments (_ ∷ t) = segments t

abbrev pub attached : History → List ℤ
attached [] = []
attached ((shmat shmid, r) ∷ t) = gain r.ret (attached t)
attached ((shmat_rdonly shmid, r) ∷ t) = gain r.ret (attached t)
attached ((shmdt shmp, r) ∷ t) = remove shmp (attached t)
attached (_ ∷ t) = attached t

-- Whatever the calls return, and wherever the writer stops in its set-up, its exit function asks for
-- the removal of the semaphores and the segment that it got and detaches the segment; the reader's
-- exit function detaches what it has attached, and removes nothing.
pub clean-setup :
    (os : History → Call → Reply) (t : History)
    → (let ((r, s), u) = writer_setup os t in
        let v = (writer_clean s os u).1 in
        (sets v ≡ sets t) × (segments v ≡ segments t) × (attached v ≡ attached t))
      × (let ((r, p), u) = reader_setup os t in
          let v = (reader_clean p os u).1 in
          (sets v ≡ sets t) × (segments v ≡ segments t) × (attached v ≡ attached t))
unfolding writer_setup writer_clean reader_setup reader_clean
clean-setup os t = (ground arith, ground arith)

-- The values of the two semaphores after the last SETALL that did not fail, WRITE_SEM first.
abbrev semaphores : History → Option (ℕ × ℕ)
semaphores [] = none
semaphores ((set_all semid w r, a) ∷ t) = if is_neg a.ret then semaphores t else some (w, r)
semaphores (_ ∷ t) = semaphores t

-- When the writer goes on to its loop, the semaphores have the values with which the interleaving of
-- the two loops starts, and the writer has attached one segment.
writer_setup-start :
    (os : History → Call → Reply) (garbage : List ℕ)
    → (writer_setup os []).0.0 ≡ none
    → let ((r, s), u) = writer_setup os [] in
      (semaphores u ≡ some ((start garbage).write_sem, (start garbage).read_sem))
      × (attached u ≡ s.shmp ∷ [])
unfolding writer_setup
writer_setup-start os garbage h = ground arith
