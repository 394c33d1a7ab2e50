-- ===== src/PipeDemo/Programs.antt =====
-- `pipe_demo` and `pipe_redirect` of pipe_demo.c. A program goes on as the parent or as the child, by
-- what `fork` returned.
use myfreelib.Base.{
  ℕ, zero, suc, ℤ, pos, minus_one, eq_ℤ, String, codes, str, List, [], ◌∷◌, ◌++◌, length, take,
  drop, Option, some, none, Arg, if◌then◌else◌,
}
use myfreelib.Base.Sys.{Trace, Prog, pure, call, ◌>>=◌, ◌>>◌}

pub data Call : Type 0 where
  print : String → List Arg → Call
  print_buf : String → (buf : List ℕ) → Call  -- a `printf` with "%s" of the buffer
  pipe : Call
  fork : Call
  close : (fd : ℤ) → Call
  read : (fd : ℤ) → Call
  write : (fd : ℤ) → (bytes : List ℕ) → (count : ℕ) → Call
  flush : Call
  dup2 : (fd : ℤ) → (target : ℕ) → Call
  sleep : (seconds : ℕ) → Call

-- The return value, the two descriptors of `pipe`, and the bytes that a `read` stored.
pub record Reply : Type 0 where
  pub ret : ℤ
  pub read_end : ℤ
  pub write_end : ℤ
  pub bytes : List ℕ

abbrev pub Io : Type 0 → Type 0
Io A = Prog Call Reply A

abbrev pub History : Type 0
History = Trace Call Reply

-- A buffer after a `read` into it.
abbrev pub stored : Reply → List ℕ → List ℕ
stored r buf = r.bytes ++ drop (length r.bytes) buf

abbrev fork_failed : String → Io ℤ
fork_failed message = do call (print message []); pure minus_one

-- The child's part of `pipe_demo`.
demo_child : Reply → (buf : List ℕ) → Io ℤ
demo_child p buf = do
  c ← call (close p.write_end)
  if eq_ℤ c.ret minus_one
      then (do call (print "Child close write pipefd failed.\n" []); pure minus_one)
      else (do
        r ← call (read p.read_end)
        call (print_buf "Child read: %s\n" (stored r buf))
        pure (pos 0))

-- The parent's part; the ten bytes are the text and its zero.
demo_parent : Reply → Io ℤ
demo_parent p = do
  c ← call (close p.read_end)
  if eq_ℤ c.ret minus_one
      then (do call (print "Child close read pipefd failed.\n" []); pure minus_one)
      else (do
        call (print "Parent write pipe.\n" [])
        call (write p.write_end (codes "123456789" ++ 0 ∷ []) 10)
        pure (pos 0))

-- `garbage` is what the buffer holds before anything is stored in it.
pub pipe_demo : (garbage : List ℕ) → Io ℤ
unfolding demo_child demo_parent
pipe_demo garbage = do
  call (print "%s start\n" (str "pipe_demo" ∷ []))
  p ← call pipe
  if eq_ℤ p.ret minus_one then fork_failed "Creating pipe failed.\n" else (do
    f ← call fork
    if eq_ℤ f.ret minus_one
        then fork_failed "Fork failed.\n"
        else if eq_ℤ f.ret (pos 0)
        then demo_child p garbage
        else demo_parent p)

-- The child's loop of `pipe_redirect`, on fuel; `none` means that it still runs. It ends only when
-- `read` returns 0.
unfoldable print_pipe : ℕ → (fd : ℤ) (buf : List ℕ) → Io (Option ℤ)
print_pipe zero fd buf = pure none
print_pipe (suc fuel) fd buf = do
  r ← call (read fd)
  if eq_ℤ r.ret (pos 0)
      then pure (some (pos 0))
      else (do call (print_buf "%s" (stored r buf)); call flush; print_pipe fuel fd (stored r buf))

redirect_parent : Reply → Io (Option ℤ)
redirect_parent p = do
  call (close p.read_end)
  call (dup2 p.write_end 0)
  call (write p.write_end (take 4 (codes "abc===\n")) 4)
  call (sleep 10)
  pure (some (pos 0))

pub pipe_redirect : (fuel : ℕ) (garbage : List ℕ) → Io (Option ℤ)
unfolding redirect_parent print_pipe
pipe_redirect fuel garbage = do
  call (print "%s start\n" (str "pipe_redirect" ∷ []))
  p ← call pipe
  if eq_ℤ p.ret minus_one
      then (do fork_failed "Creating pipe failed.\n"; pure (some minus_one))
      else (do
        f ← call fork
        if eq_ℤ f.ret minus_one
            then (do fork_failed "fork failed.\n"; pure (some minus_one))
            else if eq_ℤ f.ret (pos 0)
            then (do call (close p.write_end); print_pipe fuel p.read_end garbage)
            else redirect_parent p)
