-- ===== src/Inet/Client.antt =====
-- `data_client_demo` of inet_socket_demo.c.
pub mod Laws
use myfreelib.Base.{
  ℕ, suc, ℤ, pos, minus_one, eq_ℤ, int, List, [], ◌∷◌, ◌++◌, Option, some, none, length, ltb, ◌+◌,
  if◌then◌else◌,
}
use myfreelib.Base.Sys.{pure, call, ◌>>=◌, ◌>>◌}
use myfreelib.Inet.Calls.{
  AddrInfo, datagram, Io, eprint, eprint_text, perror, getaddrinfo, freeaddrinfo, socket, connect,
  close, read, write, print_response,
}

-- `BUF_SIZE`
abbrev pub buf_size : ℕ
buf_size = 500

-- `EXIT_FAILURE`, or the value returned
pub data Ending : Type 0 where
  exit_failure : Ending
  returned : ℤ → Ending

-- The loop over the addresses: the socket that is connected, if one is.
unfoldable pub connect_first : List AddrInfo → Io (Option ℤ)
connect_first [] = pure none
connect_first (rp ∷ rest) = do
  s ← call (socket rp)
  if eq_ℤ s.ret minus_one then connect_first rest else (do
    c ← call (connect s.ret rp)
    if eq_ℤ c.ret minus_one then (do call (close s.ret); connect_first rest) else pure (some s.ret))

-- An argument as it is sent, with its final zero.
abbrev pub terminated : List ℕ → List ℕ
terminated msg = msg ++ 0 ∷ []

-- The loop over the arguments from number `j` on.
unfoldable pub send_all : (sfd : ℤ) (j : ℕ) → List (List ℕ) → Io Ending
send_all sfd j [] = pure (returned (pos 0))
send_all sfd j (msg ∷ rest) =
    if ltb buf_size (length msg + 1)
    then (do
      call (eprint "Ignoring long message in argument %d\n" (int (pos j) ∷ []))
      send_all sfd (suc j) rest)
    else (do
      w ← call (write sfd (terminated msg) (length msg + 1))
      if eq_ℤ w.ret (pos (length msg + 1))
          then (do
            r ← call (read sfd)
            if eq_ℤ r.ret minus_one
                then (do call (perror "read"); pure (returned minus_one))
                else (do call (print_response r.ret r.bytes); send_all sfd (suc j) rest))
          else (do call (eprint "partial/failed write\n" []); pure (returned minus_one)))

unfoldable send_on : Option ℤ → List (List ℕ) → Io Ending
send_on none msgs = do call (eprint "Could not connect\n" []); pure exit_failure
send_on (some sfd) msgs = send_all sfd 4 msgs

-- The part after the test of `argc`.
unfoldable pub client : (host port : List ℕ) (msgs : List (List ℕ)) → Io Ending
unfolding send_on
client host port msgs = do
  g ← call (getaddrinfo (some host) (some port) datagram)
  if eq_ℤ g.ret (pos 0)
      then (do sfd ← connect_first g.result; call freeaddrinfo; send_on sfd msgs)
      else (do call (eprint "getaddrinfo: %s\n" (int g.ret ∷ [])); pure (returned minus_one))

pub data_client_demo : (argv : List (List ℕ)) → Io Ending
unfolding client
data_client_demo (argv0 ∷ option ∷ host ∷ port ∷ msgs) = client host port msgs
data_client_demo (argv0 ∷ argv) = do
  call (eprint_text "Usage: %s host port msg...\n" argv0)
  pure exit_failure
data_client_demo [] = do call (eprint_text "Usage: %s host port msg...\n" []); pure exit_failure
