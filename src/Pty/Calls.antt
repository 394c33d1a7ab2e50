-- ===== src/Pty/Calls.antt =====
-- The calls of pty_demo.c, and a ledger of the file descriptors that they open.
use myfreelib.Base.{ℕ, ℤ, Bool, String, List, [], ◌∷◌, Option, Arg, remove, gain}
use myfreelib.Base.Sys.{Trace, Prog}

pub data Call : Type 0 where
  print : String → List Arg → Call
  print_text : String → List ℕ → Call
  posix_openpt : Call
  grantpt unlockpt ptsname : (fd : ℤ) → Call
  close : (fd : ℤ) → Call
  fork setsid : Call
  open_slave : (name : List ℕ) → Call
  set_controlling set_termios set_winsize : (fd : ℤ) → Call
  dup2 : (fd : ℤ) → (target : ℕ) → Call
  tcgetattr get_winsize : Call  -- of descriptor 0
  getenv_shell : Call
  execlp : (shell : List ℕ) → Call
  atexit_reset : Call
  select : (master : ℤ) → Call  -- on descriptors 0 and `master`, for reading
  read : (fd : ℤ) → Call
  write : (fd : ℤ) → (buffer : List ℕ) → (count : ℕ) → Call

-- The return value; `errno` after the call; the bytes that `read` stored, or the string that
-- `ptsname` or `getenv` returned, if it is not null; which of the two descriptors are in the set after `select`.
pub record Reply : Type 0 where
  pub ret : ℤ
  pub errno : ℕ
  pub bytes : List ℕ
  pub name : Option (List ℕ)
  pub stdin_ready : Bool
  pub master_ready : Bool

abbrev pub Io : Type 0 → Type 0
Io A = Prog Call Reply A

abbrev pub History : Type 0
History = Trace Call Reply

-- The descriptors that are open after a history, the last opened first; 0, 1 and 2 are not listed.
abbrev pub open_fds : History → List ℤ
open_fds [] = []
open_fds ((posix_openpt, r) ∷ t) = gain r.ret (open_fds t)
open_fds ((open_slave name, r) ∷ t) = gain r.ret (open_fds t)
open_fds ((close fd, r) ∷ t) = remove fd (open_fds t)
open_fds (_ ∷ t) = open_fds t
