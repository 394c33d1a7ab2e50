-- ===== src/UnixSocket/Client/Laws.antt =====
-- What the clients of unix_socket_demo.c send.
use myfreelib.Base.{
  ℕ, zero, suc, ℤ, List, [], ◌∷◌, map, length, drop, some, ◌≡◌, ◌<◌, ◌+◌, arith, AllNonzero, shown,
  shown_lem, length-append, length-drop, Option-cases, inl, inr,
}
use myfreelib.UnixSocket.Calls.{
  Call, Reply, History, fgets, send, lines, sent, socket, sock_stream, connect,
}
use myfreelib.UnixSocket.Client.{unix_socket_msg_size, with_line, send_lines, str_client_demo}

module _ (os : History → Call → Reply) where
  -- A line that `fgets` stores is shorter than the buffer and has no zero byte.
  abbrev pub FitsBuffer : Type 0
  FitsBuffer =
      (t : History) (line : List ℕ)
      → (os t fgets).line ≡ some line
      → AllNonzero line × (length line < unix_socket_msg_size)

-- What the receiver's `%s` shows of the messages sent, compared with the lines read.
abbrev Shows : History → Type 0
Shows t = map (shown unix_socket_msg_size) (sent t) ≡ lines t

abbrev IsWhole : List ℕ → Type 0
IsWhole msg = length msg ≡ unix_socket_msg_size

with_line_lem :
    (line msg : List ℕ)
    → AllNonzero line
    → length line < unix_socket_msg_size
    → IsWhole msg
    → IsWhole (with_line line msg) × (shown unix_socket_msg_size (with_line line msg) ≡ line)
unfolding with_line
with_line_lem line msg a b w = (
  omega (
    arith,
    length-append line (0 ∷ drop (length line + 1) msg),
    length-drop (length line + 1) msg,
  ),
  shown_lem unix_socket_msg_size line (drop (length line + 1) msg) a b,
)

send_lines-Shows :
    (os : History → Call → Reply) (fuel : ℕ) (fd : ℤ) (msg : List ℕ) (t : History)
    → FitsBuffer os
    → IsWhole msg
    → Shows t
    → Shows (send_lines fuel (send fd) msg os t).1
unfolding send_lines
send_lines-Shows os zero fd msg t f w s = s
send_lines-Shows os (suc fuel) fd msg t f w s = elim (Option-cases (os t fgets).line) [
  | inl e ↦ ground arith
  | inr (line, e) ↦
      let r = os t fgets in
      let u = (fgets, r) ∷ t in
      let m = send fd (with_line line msg) in
      let v = (m, os u m) ∷ u in
      ground (
        arith,
        f t line,
        with_line_lem line msg,
        send_lines-Shows os fuel fd (with_line line msg) v f,
      )
]

-- Every message that is sent has the size of the buffer.
abbrev pub AllWhole : List (List ℕ) → Type 0
AllWhole [] = Unit {0}
AllWhole (m ∷ ms) = IsWhole m × AllWhole ms

send_lines-AllWhole :
    (os : History → Call → Reply) (fuel : ℕ) (fd : ℤ) (msg : List ℕ) (t : History)
    → FitsBuffer os
    → IsWhole msg
    → AllWhole (sent t)
    → AllWhole (sent (send_lines fuel (send fd) msg os t).1)
unfolding send_lines
send_lines-AllWhole os zero fd msg t f w s = s
send_lines-AllWhole os (suc fuel) fd msg t f w s = elim (Option-cases (os t fgets).line) [
  | inl e ↦ ground arith
  | inr (line, e) ↦
      let u = (fgets, os t fgets) ∷ t in
      let m = send fd (with_line line msg) in
      let v = (m, os u m) ∷ u in
      let fits = f t line e in
      let whole = (with_line_lem line msg fits.0 fits.1 w).0 in
      ground (arith, send_lines-AllWhole os fuel fd (with_line line msg) v f whole (whole, s))
]

pub sent-AllWhole :
    (os : History → Call → Reply) (fuel : ℕ) (garbage : List ℕ)
    → FitsBuffer os
    → length garbage ≡ unix_socket_msg_size
    → AllWhole (sent (str_client_demo fuel garbage os []).1)
unfolding str_client_demo
sent-AllWhole os fuel garbage f w =
    let s = os [] (socket sock_stream) in
    let a : History = (socket sock_stream, s) ∷ [] in
    let b = (connect s.ret, os a (connect s.ret)) ∷ a in
    ground (arith, send_lines-AllWhole os fuel s.ret garbage b f w tt)

-- If `fgets` stores lines that fit into the buffer and have no zero byte, then, however long the
-- input, the messages that `str_client_demo` has sent show exactly the lines that it has read, in
-- order, where `%s` prints them: what an earlier line has left in the buffer is never shown.
pub client_lines-shown :
    (os : History → Call → Reply) (fuel : ℕ) (garbage : List ℕ)
    → FitsBuffer os
    → length garbage ≡ unix_socket_msg_size
    → map (shown unix_socket_msg_size) (sent (str_client_demo fuel garbage os []).1)
      ≡ lines (str_client_demo fuel garbage os []).1
unfolding str_client_demo
client_lines-shown os fuel garbage f w =
    let s = os [] (socket sock_stream) in
    let a : History = (socket sock_stream, s) ∷ [] in
    let b = (connect s.ret, os a (connect s.ret)) ∷ a in
    ground (arith, send_lines-Shows os fuel s.ret garbage b f)
