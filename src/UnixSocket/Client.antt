-- ===== src/UnixSocket/Client.antt =====
-- `str_client_demo` and `data_client_demo` of unix_socket_demo.c.
pub mod Laws
use myfreelib.Base.{
  ℕ, zero, suc, ℤ, pos, minus_one, eq_ℤ, List, [], ◌∷◌, ◌++◌, ◌+◌, length, drop, Option, some, none,
  if◌then◌else◌,
}
use myfreelib.Base.Sys.{pure, call, ◌>>=◌, ◌>>◌}
use myfreelib.UnixSocket.Calls.{
  Call, Io, sock_stream, sock_dgram, print, socket, connect, close, fgets, send, sendto,
}

-- `UNIX_SOCKET_MSG_SIZE`
abbrev pub unix_socket_msg_size : ℕ
unix_socket_msg_size = 1024

-- The buffer after `fgets` has stored a line and its zero.
unfoldable pub with_line : (line msg : List ℕ) → List ℕ
with_line line msg = line ++ 0 ∷ drop (length line + 1) msg

-- The loops of the two clients, on fuel: `message` is the `send` or `sendto` of the whole buffer.
-- `none` means that the input goes on.
unfoldable pub send_lines : ℕ → (message : List ℕ → Call) (msg : List ℕ) → Io (Option (Unit {0}))
send_lines zero message msg = pure none
send_lines (suc fuel) message msg = do
  r ← call fgets
  elim r.line [
    | none ↦ pure (some tt)
    | some line ↦ (do
      call (message (with_line line msg))
      send_lines fuel message (with_line line msg))
  ]

abbrev leave : (cfd : ℤ) → Option (Unit {0}) → Io (Option ℤ)
leave cfd none = pure none
leave cfd (some x) = do call (close cfd); pure (some (pos 0))

unfoldable pub str_client_demo : (fuel : ℕ) (garbage : List ℕ) → Io (Option ℤ)
str_client_demo fuel garbage = do
  c ← call (socket sock_stream)
  if eq_ℤ c.ret minus_one
      then (do call (print "socket failed.\n" []); pure (some minus_one))
      else (do
        n ← call (connect c.ret)
        if eq_ℤ n.ret minus_one
            then (do call (print "connect failed.\n" []); pure (some minus_one))
            else (do done ← send_lines fuel (send c.ret) garbage; leave c.ret done))

-- It does not close its socket.
pub data_client_demo : (fuel : ℕ) (garbage : List ℕ) → Io (Option ℤ)
data_client_demo fuel garbage = do
  c ← call (socket sock_dgram)
  if eq_ℤ c.ret minus_one
      then (do call (print "socket failed.\n" []); pure (some minus_one))
      else (do
        done ← send_lines fuel (sendto c.ret) garbage
        elim done [ none ↦ pure none | some x ↦ pure (some (pos 0)) ])
