-- ===== src/PosixShm/Model.antt =====
-- The loops of `server_demo` and `client_demo` in posix_shm_demo.c, interleaved in any order. A
-- position names the statement that comes next.
use myfreelib.Base.{
  ℕ, Bool, true, false, List, [], ◌∷◌, ◌++◌, ◌≡◌, ◌≤◌, ◌-◌, ◌==◌, length, take, if◌then◌else◌,
}
use myfreelib.Base.Semaphore.{PosixSem}

-- `sizeof(shmp->data)`
abbrev pub data_size : ℕ
data_size = 1024

-- What `printf` with `%s` shows of bytes that a zero follows.
abbrev pub until_zero : List ℕ → List ℕ
until_zero [] = []
until_zero (x ∷ xs) = if x == 0 then [] else x ∷ until_zero xs

pub data ServerAt : Type 0 where
  waiting : ServerAt  -- `sem_wait(&shmp->read)`
  terminating : ServerAt  -- the store of a zero at the end of `shmp->data`
  printing : ServerAt  -- the `printf` of `shmp->data`
  posting : ServerAt  -- `sem_post(&shmp->write)`

pub data ClientAt : Type 0 where
  waiting : ClientAt  -- `sem_wait(&shmp->write)`
  scanning : ClientAt  -- the `scanf` into `shmp->data`
  posting : ClientAt  -- `sem_post(&shmp->read)`

-- The segment `shm_t`, with `word` for the bytes from the begin of `data` that stand before the zero
-- which `scanf` or the server has stored last; the two processes; whether a `sem_wait` of the server
-- has failed so far; the words scanned and the words printed so far. A process that is
-- gone has returned -1 where it stood, or was killed there.
pub record State : Type 0 where
  pub read : ℕ
  pub write : ℕ
  pub word : List ℕ
  pub server : ServerAt
  pub client : ClientAt
  pub server_gone : Bool
  pub client_gone : Bool
  pub wait_failed : Bool
  pub scanned : List (List ℕ)
  pub printed : List (List ℕ)

-- After the two `sem_init` of the server.
abbrev pub start : List ℕ → State
start garbage = record {
  read = 0;
  write = 1;
  word = garbage;
  server = ServerAt.waiting;
  client = ClientAt.waiting;
  server_gone = false;
  client_gone = false;
  wait_failed = false;
  scanned = [];
  printed = [];
}

module _ (sem : PosixSem) where
  open sem use {Waits, Posts}

  -- One statement of the server. A failed `sem_wait` is reported and the loop body goes on.
  pub data ServerStep (s : State) : State → Type 0 where
    waited :
        {v : ℕ}
        → s.server ≡ ServerAt.waiting
        → Waits s.read v
        → ServerStep s (record s { read = v; server = ServerAt.terminating })
    wait_fails :
        s.server ≡ ServerAt.waiting
        → ServerStep s (record s { server = ServerAt.terminating; wait_failed = true })
    terminated :
        s.server ≡ ServerAt.terminating
        → ServerStep s (record s { word = take (data_size - 1) s.word; server = ServerAt.printing })
    printed_word :
        s.server ≡ ServerAt.printing
        → ServerStep s
            (record s { printed = s.printed ++ until_zero s.word ∷ []; server = ServerAt.posting })
    posted :
        {v : ℕ}
        → s.server ≡ ServerAt.posting
        → Posts s.write v
        → ServerStep s (record s { write = v; server = ServerAt.waiting })
    post_fails : s.server ≡ ServerAt.posting → ServerStep s (record s { server_gone = true })

  -- One statement of the client. `scanf` has no bound: a word of `data_size` bytes or more is stored
  -- behind `data` too, or the client is killed where the mapping ends, with some bytes stored.
  pub data ClientStep (s : State) : State → Type 0 where
    waited :
        {v : ℕ}
        → s.client ≡ ClientAt.waiting
        → Waits s.write v
        → ClientStep s (record s { write = v; client = ClientAt.scanning })
    wait_fails : s.client ≡ ClientAt.waiting → ClientStep s (record s { client_gone = true })
    scanned_word :
        (w : List ℕ)
        → s.client ≡ ClientAt.scanning
        → ClientStep s
            (record s { word = w; scanned = s.scanned ++ w ∷ []; client = ClientAt.posting })
    overrun :
        (w stored : List ℕ)
        → s.client ≡ ClientAt.scanning
        → data_size ≤ length w
        → ClientStep s (record s { word = stored; client_gone = true })
    scan_ends : s.client ≡ ClientAt.scanning → ClientStep s (record s { client_gone = true })
    posted :
        {v : ℕ}
        → s.client ≡ ClientAt.posting
        → Posts s.read v
        → ClientStep s (record s { read = v; client = ClientAt.waiting })
    post_fails : s.client ≡ ClientAt.posting → ClientStep s (record s { client_gone = true })

  -- A process that is gone takes no step.
  pub data Step (s : State) : State → Type 0 where
    server_moves : {u : State} → s.server_gone ≡ false → ServerStep s u → Step s u
    client_moves : {u : State} → s.client_gone ≡ false → ClientStep s u → Step s u

  pub data Reach (garbage : List ℕ) : State → Type 0 where
    here : Reach garbage (start garbage)
    next : {s u : State} → Reach garbage s → Step s u → Reach garbage u
