-- ===== src/Inet/Calls.antt =====
-- The calls of inet_socket_demo.c, and ledgers of what a history of them has done.
use myfreelib.Base.{
  ℕ, ℤ, String, List, [], ◌∷◌, ◌++◌, Option, Arg, remove, gain, minus_one, eq_ℤ, if◌then◌else◌,
}
use myfreelib.Base.Sys.{Trace, Prog}

-- A `struct addrinfo`; `address` stands for `ai_addr` and its length.
pub record AddrInfo : Type 0 where
  pub ai_family : ℤ
  pub ai_socktype : ℤ
  pub ai_protocol : ℤ
  pub address : List ℕ

-- The hints given to `getaddrinfo`: none, or those for a datagram socket, with `AI_PASSIVE` or not.
pub data Hints : Type 0 where
  no_hints : Hints
  datagram : Hints
  datagram_passive : Hints

pub data Call : Type 0 where
  print : String → List Arg → Call  -- to the standard output
  print_text : String → List ℕ → Call
  print_texts : String → List ℕ → List ℕ → Call
  print_received : (nread : ℤ) → (host service : List ℕ) → Call
  print_response : (nread : ℤ) → (buf : List ℕ) → Call
  eprint : String → List Arg → Call  -- to the standard error
  eprint_text : String → List ℕ → Call
  perror : String → Call
  getaddrinfo : (node service : Option (List ℕ)) → Hints → Call
  freeaddrinfo : Call
  socket : AddrInfo → Call
  bind connect : (fd : ℤ) → AddrInfo → Call
  close : (fd : ℤ) → Call
  recvfrom : (fd : ℤ) → Call
  getnameinfo : (peer : List ℕ) → Call
  getnameinfo_numeric : (address : List ℕ) → Call  -- with `NI_NUMERICHOST`
  sendto : (fd : ℤ) → (buf : List ℕ) → (count : ℤ) → (peer : List ℕ) → Call
  write : (fd : ℤ) → (buf : List ℕ) → (count : ℕ) → Call
  read : (fd : ℤ) → Call
  inet_ntop : (address : List ℕ) → Call
  inet_pton : (text : List ℕ) → Call

-- The return value, and what the call stored: addresses, the bytes received, the sender's address,
-- the names of a host and a service, or a converted address.
pub record Reply : Type 0 where
  pub ret : ℤ
  pub result : List AddrInfo
  pub bytes : List ℕ
  pub peer : List ℕ
  pub host : List ℕ
  pub service : List ℕ

abbrev pub Io : Type 0 → Type 0
Io A = Prog Call Reply A

abbrev pub History : Type 0
History = Trace Call Reply

-- The sockets that are open.
abbrev pub open_fds : History → List ℤ
open_fds [] = []
open_fds ((socket rp, r) ∷ t) = gain r.ret (open_fds t)
open_fds ((close fd, r) ∷ t) = remove fd (open_fds t)
open_fds (_ ∷ t) = open_fds t

-- A datagram with the value that `recvfrom` returned, and the other side's address.
pub record Datagram : Type 0 where
  pub bytes : List ℕ
  pub count : ℤ
  pub peer : List ℕ

-- The datagrams received on a socket, the first one last.
abbrev pub received : History → List Datagram
received [] = []
received ((recvfrom fd, r) ∷ t) =
    if eq_ℤ r.ret minus_one
    then received t
    else record { bytes = r.bytes; count = r.ret; peer = r.peer } ∷ received t
received (_ ∷ t) = received t

-- The datagrams sent with `sendto`, the first one last.
abbrev pub echoed : History → List Datagram
echoed [] = []
echoed ((sendto fd buf count peer, r) ∷ t) =
    record { bytes = buf; count = count; peer = peer } ∷ echoed t
echoed (_ ∷ t) = echoed t

-- What was handed to `write` with its count, in order.
abbrev pub written : History → List (List ℕ × ℕ)
written [] = []
written ((write fd buf count, r) ∷ t) = written t ++ (buf, count) ∷ []
written (_ ∷ t) = written t
