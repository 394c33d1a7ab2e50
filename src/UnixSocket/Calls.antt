-- ===== src/UnixSocket/Calls.antt =====
-- The calls of unix_socket_demo.c, and ledgers of what a history of them has done.
use myfreelib.Base.{
  ℕ, ℤ, String, List, [], ◌∷◌, Option, some, none, Bool, Arg, remove, gain, eq_ℤ, pos,
  if◌then◌else◌,
}
use myfreelib.Base.Sys.{Trace, Prog}

pub data SockType : Type 0 where
  sock_stream sock_dgram : SockType

pub data Call : Type 0 where
  print : String → List Arg → Call
  print_message : (pid : ℤ) → (msg : List ℕ) → Call  -- `printf("thread[%lu]: %s\n", …)`
  print_accepted : (cfd : ℤ) → (path : List ℕ) → Call
  print_from : (path msg : List ℕ) → Call
  socket : SockType → Call
  remove_path : Call  -- `remove(UNIX_SOCKET_PATH)`
  bind listen connect accept : (fd : ℤ) → Call
  malloc : Call  -- room for one `int`
  pthread_attr_init pthread_attr_setdetachstate pthread_attr_destroy : Call
  pthread_create : (pcfd : Option ℤ) → Call  -- a null pointer, or the descriptor stored there
  pthread_self : Call
  free : (pcfd : Option ℤ) → Call
  close : (fd : ℤ) → Call
  recv recvfrom : (fd : ℤ) → Call
  fgets : Call  -- a line of the standard input
  send sendto : (fd : ℤ) → (msg : List ℕ) → Call

-- The return value, the bytes received or the line read, if there is one, the other side's path,
-- and whether `malloc` returned a null pointer.
pub record Reply : Type 0 where
  pub ret : ℤ
  pub bytes : List ℕ
  pub line : Option (List ℕ)
  pub path : List ℕ
  pub is_null : Bool

abbrev pub Io : Type 0 → Type 0
Io A = Prog Call Reply A

abbrev pub History : Type 0
History = Trace Call Reply

-- The descriptors that are open in the process.
abbrev pub open_fds : History → List ℤ
open_fds [] = []
open_fds ((socket type, r) ∷ t) = gain r.ret (open_fds t)
open_fds ((accept fd, r) ∷ t) = gain r.ret (open_fds t)
open_fds ((close fd, r) ∷ t) = remove fd (open_fds t)
open_fds (_ ∷ t) = open_fds t

abbrev hand : Option ℤ → List ℤ → List ℤ
hand none fds = fds
hand (some fd) fds = fd ∷ fds

-- The connections that were handed to a thread, the last one first.
abbrev pub handed : History → List ℤ
handed [] = []
handed ((pthread_create pcfd, r) ∷ t) =
    if eq_ℤ r.ret (pos 0) then hand pcfd (handed t) else handed t
handed (_ ∷ t) = handed t

abbrev add_line : Option (List ℕ) → List (List ℕ) → List (List ℕ)
add_line none ls = ls
add_line (some l) ls = l ∷ ls

-- The lines read, and the messages sent, the last one first.
abbrev pub lines : History → List (List ℕ)
lines [] = []
lines ((fgets, r) ∷ t) = add_line r.line (lines t)
lines (_ ∷ t) = lines t

abbrev pub sent : History → List (List ℕ)
sent [] = []
sent ((send fd msg, r) ∷ t) = msg ∷ sent t
sent ((sendto fd msg, r) ∷ t) = msg ∷ sent t
sent (_ ∷ t) = sent t
