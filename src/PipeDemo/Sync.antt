-- ===== src/PipeDemo/Sync.antt =====
-- `pipe_sync` of pipe_demo.c, which waits for its children by the end of a pipe: the parent and the two
-- children as processes that are interleaved in any order.
use myfreelib.Base.{ℕ, Bool, true, false, ◌+◌, ◌≡◌, if◌then◌else◌}

-- Where the parent stands.
pub data ParentAt : Type 0 where
  fork_first : ParentAt
  fork_second : ParentAt
  close_write : ParentAt
  reading : ParentAt  -- the `read`
  saw_end : ParentAt  -- after a `read` that returned 0
  saw_failure : ParentAt  -- after any other, with the message that there was no end of file
  returned : ParentAt

-- Where a child stands.
pub data ChildAt : Type 0 where
  unborn : ChildAt
  close_read : ChildAt
  sleeping : ChildAt  -- `sleep(i+3)`
  printing : ChildAt
  close_own : ChildAt  -- `close(pipefd[1])`
  returning : ChildAt
  ended : ChildAt

pub record State : Type 0 where
  pub parent : ParentAt
  pub first : ChildAt
  pub second : ChildAt

abbrev pub start : State
start = record { parent = ParentAt.fork_first; first = ChildAt.unborn; second = ChildAt.unborn }

-- Does a process have the write end of the pipe open? A child gets it from the parent.
abbrev parent_holds : ParentAt → Bool
parent_holds ParentAt.fork_first = true
parent_holds ParentAt.fork_second = true
parent_holds ParentAt.close_write = true
parent_holds _ = false

abbrev child_holds : ChildAt → Bool
child_holds ChildAt.unborn = false
child_holds ChildAt.returning = false
child_holds ChildAt.ended = false
child_holds _ = true

abbrev one_if : Bool → ℕ
one_if b = if b then 1 else 0

-- The number of processes that have the write end open.
abbrev pub writers : State → ℕ
writers s =
    one_if (parent_holds s.parent) + one_if (child_holds s.first) + one_if (child_holds s.second)

-- One step of a child. If its first `close` fails it returns; its end closes what is open.
pub data ChildStep : ChildAt → ChildAt → Type 0 where
  closed_read : ChildStep ChildAt.close_read ChildAt.sleeping
  close_failed : ChildStep ChildAt.close_read ChildAt.ended
  slept : ChildStep ChildAt.sleeping ChildAt.printing
  printed : ChildStep ChildAt.printing ChildAt.close_own
  closed_own : ChildStep ChildAt.close_own ChildAt.returning
  child_ends : ChildStep ChildAt.returning ChildAt.ended

-- The end of file of the pipe that the kernel implements, by pipe(7): nothing is ever written here,
-- so a `read` may return 0 if and only if no process has the write end open.
pub record PipeEnd : Type 1 where
  pub Ends : ℕ → Type 0
  pub ends_without_writers : {n : ℕ} → Ends n → n ≡ 0
  pub without_writers_ends : Ends 0

module _ (kernel : PipeEnd) where
  open kernel use {Ends}

  pub data Step (s : State) : State → Type 0 where
    forked_first :
        s.parent ≡ ParentAt.fork_first
        → s.first ≡ ChildAt.unborn
        → Step s (record s { parent = ParentAt.fork_second; first = ChildAt.close_read })
    forked_second :
        s.parent ≡ ParentAt.fork_second
        → s.second ≡ ChildAt.unborn
        → Step s (record s { parent = ParentAt.close_write; second = ChildAt.close_read })
    fork_first_failed :
        s.parent ≡ ParentAt.fork_first → Step s (record s { parent = ParentAt.returned })
    fork_second_failed :
        s.parent ≡ ParentAt.fork_second → Step s (record s { parent = ParentAt.returned })
    closed_write : s.parent ≡ ParentAt.close_write → Step s (record s { parent = ParentAt.reading })
    close_write_failed :
        s.parent ≡ ParentAt.close_write → Step s (record s { parent = ParentAt.returned })
    read_end :
        s.parent ≡ ParentAt.reading
        → Ends (writers s)
        → Step s (record s { parent = ParentAt.saw_end })
    read_failed : s.parent ≡ ParentAt.reading → Step s (record s { parent = ParentAt.saw_failure })
    goes_on : s.parent ≡ ParentAt.saw_end → Step s (record s { parent = ParentAt.returned })
    goes_on_failed :
        s.parent ≡ ParentAt.saw_failure → Step s (record s { parent = ParentAt.returned })
    first_moves : {c : ChildAt} → ChildStep s.first c → Step s (record s { first = c })
    second_moves : {c : ChildAt} → ChildStep s.second c → Step s (record s { second = c })

  pub data Reach : State → Type 0 where
    here : Reach start
    next : {s u : State} → Reach s → Step s u → Reach u
