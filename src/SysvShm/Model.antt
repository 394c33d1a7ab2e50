-- ===== src/SysvShm/Model.antt =====
-- sysv_shm_writer.c and sysv_shm_reader.c from the heads of their loops on, as two processes that
-- are interleaved in any order. A position names the statement that comes next.
use myfreelib.Base.{
  ℕ, ℤ, pos, minus_one, Bool, true, false, List, [], ◌++◌, ◌≡◌, ◌≢◌, ◌≤◌, ◌<◌, length, take, drop,
  pos_part,
}
use myfreelib.Base.Semaphore.{Semop}

-- `BUF_SIZE`
abbrev pub buf_size : ℕ
buf_size = 1024

-- Where the writer stands.
pub data WriterAt : Type 0 where
  wait_write : WriterAt  -- the `semop` that waits for `WRITE_SEM` to be 0
  reading : WriterAt  -- the `read` into the shared buffer
  release_read : WriterAt  -- the `semop` that takes 1 from `READ_SEM`
  set_write : WriterAt  -- the `semop` that adds 1 to `WRITE_SEM`
  test_end : WriterAt  -- the test of `shmp->cnt`
  last_wait : WriterAt  -- the `semop` after the loop
  ended : WriterAt

-- Where the reader stands.
pub data ReaderAt : Type 0 where
  wait_read : ReaderAt  -- the `semop` that waits for `READ_SEM` to be 0
  test_cnt : ReaderAt  -- the test of `shmp->cnt`
  printing : ReaderAt  -- the `write` of the shared buffer
  release_write : ReaderAt  -- the `semop` that takes 1 from `WRITE_SEM`
  set_read : ReaderAt  -- the `semop` that adds 1 to `READ_SEM`
  detach : ReaderAt  -- the `shmdt` after the loop
  last_release : ReaderAt  -- the `semop` after it
  ended : ReaderAt

-- The two semaphores, the shared segment `shmseg`, the two processes (a process that is gone has
-- returned -1 where it stood), what the writer has read and the reader has printed so far, and how
-- many bytes the reader's last `write` has written if it was a short one. The counters `xfrs` and
-- `bytes` are left out: nothing reads them.
pub record State : Type 0 where
  pub write_sem : ℕ
  pub read_sem : ℕ
  pub cnt : ℤ
  pub buf : List ℕ
  pub writer : WriterAt
  pub reader : ReaderAt
  pub writer_gone : Bool
  pub reader_gone : Bool
  pub sent : List ℕ
  pub printed : List ℕ
  pub short : ℕ

-- After `SETALL`, with nothing in the buffer.
abbrev pub start : List ℕ → State
start garbage = record {
  write_sem = 0;
  read_sem = 1;
  cnt = pos 0;
  buf = garbage;
  writer = WriterAt.wait_write;
  reader = ReaderAt.wait_read;
  writer_gone = false;
  reader_gone = false;
  sent = [];
  printed = [];
  short = 0;
}

-- The bytes that `write(STDOUT_FILENO, shmp->buf, shmp->cnt)` is given.
abbrev pub visible : State → List ℕ
visible s = take (pos_part s.cnt) s.buf

-- The positions where a failing call makes the process return -1.
abbrev writer_may_fail : WriterAt → Bool
writer_may_fail WriterAt.test_end = false
writer_may_fail WriterAt.ended = false
writer_may_fail _ = true

abbrev reader_may_fail : ReaderAt → Bool
reader_may_fail ReaderAt.test_cnt = false
reader_may_fail ReaderAt.ended = false
reader_may_fail _ = true

module _ (sem : Semop) where
  open sem use {Completes}

  -- One statement of the writer. `read` returns some bytes, none at the end of the input; when it
  -- fails, `shmp->cnt` has become -1.
  pub data WriterStep (s : State) : State → Type 0 where
    waited :
        {v : ℕ}
        → s.writer ≡ WriterAt.wait_write
        → Completes s.write_sem (pos 0) v
        → WriterStep s (record s { write_sem = v; writer = WriterAt.reading })
    got :
        (c : List ℕ)
        → s.writer ≡ WriterAt.reading
        → length c ≤ buf_size
        → WriterStep s (record s {
          cnt = pos (length c);
          buf = c ++ drop (length c) s.buf;
          sent = s.sent ++ c;
          writer = WriterAt.release_read;
        })
    read_failed :
        s.writer ≡ WriterAt.reading
        → WriterStep s (record s { cnt = minus_one; writer_gone = true })
    released :
        {v : ℕ}
        → s.writer ≡ WriterAt.release_read
        → Completes s.read_sem minus_one v
        → WriterStep s (record s { read_sem = v; writer = WriterAt.set_write })
    offered :
        {v : ℕ}
        → s.writer ≡ WriterAt.set_write
        → Completes s.write_sem (pos 1) v
        → WriterStep s (record s { write_sem = v; writer = WriterAt.test_end })
    again :
        s.writer ≡ WriterAt.test_end
        → s.cnt ≢ pos 0
        → WriterStep s (record s { writer = WriterAt.wait_write })
    broke :
        s.writer ≡ WriterAt.test_end
        → s.cnt ≡ pos 0
        → WriterStep s (record s { writer = WriterAt.last_wait })
    finished :
        {v : ℕ}
        → s.writer ≡ WriterAt.last_wait
        → Completes s.write_sem (pos 0) v
        → WriterStep s (record s { write_sem = v; writer = WriterAt.ended })
    failed : writer_may_fail s.writer ≡ true → WriterStep s (record s { writer_gone = true })

  -- One statement of the reader. After a short `write` it returns -1, with part of the block printed.
  pub data ReaderStep (s : State) : State → Type 0 where
    waited :
        {v : ℕ}
        → s.reader ≡ ReaderAt.wait_read
        → Completes s.read_sem (pos 0) v
        → ReaderStep s (record s { read_sem = v; reader = ReaderAt.test_cnt })
    broke :
        s.reader ≡ ReaderAt.test_cnt
        → s.cnt ≡ pos 0
        → ReaderStep s (record s { reader = ReaderAt.detach })
    found :
        s.reader ≡ ReaderAt.test_cnt
        → s.cnt ≢ pos 0
        → ReaderStep s (record s { reader = ReaderAt.printing })
    wrote :
        s.reader ≡ ReaderAt.printing
        → ReaderStep s
            (record s { printed = s.printed ++ visible s; reader = ReaderAt.release_write })
    wrote_part :
        (n : ℕ)
        → s.reader ≡ ReaderAt.printing
        → n < length (visible s)
        → ReaderStep s
            (record s { printed = s.printed ++ take n (visible s); short = n; reader_gone = true })
    released :
        {v : ℕ}
        → s.reader ≡ ReaderAt.release_write
        → Completes s.write_sem minus_one v
        → ReaderStep s (record s { write_sem = v; reader = ReaderAt.set_read })
    offered :
        {v : ℕ}
        → s.reader ≡ ReaderAt.set_read
        → Completes s.read_sem (pos 1) v
        → ReaderStep s (record s { read_sem = v; reader = ReaderAt.wait_read })
    detached :
        s.reader ≡ ReaderAt.detach → ReaderStep s (record s { reader = ReaderAt.last_release })
    finished :
        {v : ℕ}
        → s.reader ≡ ReaderAt.last_release
        → Completes s.write_sem minus_one v
        → ReaderStep s (record s { write_sem = v; reader = ReaderAt.ended })
    failed : reader_may_fail s.reader ≡ true → ReaderStep s (record s { reader_gone = true })

  -- A process that is gone takes no step.
  pub data Step (s : State) : State → Type 0 where
    writer_moves : {u : State} → s.writer_gone ≡ false → WriterStep s u → Step s u
    reader_moves : {u : State} → s.reader_gone ≡ false → ReaderStep s u → Step s u

  pub data Reach (garbage : List ℕ) : State → Type 0 where
    here : Reach garbage (start garbage)
    next : {s u : State} → Reach garbage s → Step s u → Reach garbage u
