-- ===== src/Inet/Server.antt =====
-- `data_server_demo` of inet_socket_demo.c.
pub mod Laws
use myfreelib.Base.{
  ℕ, zero, suc, ℤ, pos, minus_one, eq_ℤ, int, List, [], ◌∷◌, Option, some, none, if◌then◌else◌,
}
use myfreelib.Base.Sys.{pure, call, ◌>>=◌, ◌>>◌}
use myfreelib.Inet.Calls.{
  AddrInfo, datagram_passive, Io, eprint, eprint_text, getaddrinfo, freeaddrinfo, socket, bind,
  close, recvfrom, getnameinfo, sendto, print_received,
}

-- The loop over the addresses: the socket that is bound, if one is.
unfoldable pub bind_first : List AddrInfo → Io (Option ℤ)
bind_first [] = pure none
bind_first (rp ∷ rest) = do
  s ← call (socket rp)
  if eq_ℤ s.ret minus_one then bind_first rest else (do
    b ← call (bind s.ret rp)
    if eq_ℤ b.ret (pos 0) then pure (some s.ret) else (do call (close s.ret); bind_first rest))

-- One round of the endless loop.
unfoldable pub echo : (sfd : ℤ) → Io (Unit {0})
echo sfd = do
  r ← call (recvfrom sfd)
  if eq_ℤ r.ret minus_one then pure tt else (do
    n ← call (getnameinfo r.peer)
    if eq_ℤ n.ret (pos 0)
        then (do call (print_received r.ret n.host n.service); pure tt)
        else (do call (eprint "getnameinfo: %s\n" (int n.ret ∷ [])); pure tt)
    s ← call (sendto sfd r.bytes r.ret r.peer)
    if eq_ℤ s.ret r.ret then pure tt else (do call (eprint "Error sending response\n" []); pure tt))

-- So many rounds of it.
unfoldable pub serve : ℕ → (sfd : ℤ) → Io (Unit {0})
serve zero sfd = pure tt
serve (suc n) sfd = do echo sfd; serve n sfd

-- How `data_server_demo` ends, or the socket on which it still serves.
pub data Outcome : Type 0 where
  returned : ℤ → Outcome
  serving : (sfd : ℤ) → Outcome

unfoldable serve_on : ℕ → Option ℤ → Io Outcome
serve_on n none = do call (eprint "Could not bind\n" []); pure (returned minus_one)
serve_on n (some sfd) = do serve n sfd; pure (serving sfd)

-- The part after the test of `argc`, with `argv[2]`, stopped after so many rounds.
unfoldable pub server : ℕ → (port : List ℕ) → Io Outcome
unfolding serve_on
server n port = do
  g ← call (getaddrinfo none (some port) datagram_passive)
  if eq_ℤ g.ret (pos 0)
      then (do sfd ← bind_first g.result; call freeaddrinfo; serve_on n sfd)
      else (do call (eprint "getaddrinfo: %s\n" (int g.ret ∷ [])); pure (returned minus_one))

pub data_server_demo : ℕ → (argv : List (List ℕ)) → Io Outcome
unfolding server
data_server_demo n (argv0 ∷ option ∷ port ∷ []) = server n port
data_server_demo n (argv0 ∷ argv) = do
  call (eprint_text "Usage: %s str_server port\n" argv0)
  pure (returned minus_one)
data_server_demo n [] = do
  call (eprint_text "Usage: %s str_server port\n" [])
  pure (returned minus_one)
