-- ===== src/Inet/Client/Laws.antt =====
-- What `data_client_demo` of inet_socket_demo.c sends.
use myfreelib.Base.{
  ℕ, suc, ℤ, pos, List, [], ◌∷◌, ◌++◌, some, length, ltb, ◌≡◌, refl, arith, map, append-nil,
  append_assoc, if◌then◌else◌, ◌+◌, int, inl, inr, Option-cases,
}
use myfreelib.Inet.Calls.{
  AddrInfo, Call, Reply, History, written, socket, connect, close, read, write, print_response,
  eprint, getaddrinfo, freeaddrinfo, datagram,
}
use myfreelib.Inet.Client.{buf_size, returned, connect_first, terminated, send_all, client}

-- The arguments that fit into a buffer with their final zero.
abbrev pub fitting : List (List ℕ) → List (List ℕ)
fitting [] = []
fitting (msg ∷ rest) = if ltb (length msg) buf_size then msg ∷ fitting rest else fitting rest

-- The packet that an argument is sent in.
abbrev pub packet : List ℕ → List ℕ × ℕ
packet msg = (terminated msg, length msg + 1)

connect_first-written :
    (os : History → Call → Reply) (addrs : List AddrInfo) (t : History)
    → written (connect_first addrs os t).1 ≡ written t
unfolding connect_first
connect_first-written os [] t = refl
connect_first-written os (rp ∷ rest) t =
    let s = os t (socket rp) in
    let u = (socket rp, s) ∷ t in
    let v = (connect s.ret rp, os u (connect s.ret rp)) ∷ u in
    ground (
      arith,
      connect_first-written os rest u,
      connect_first-written os rest ((close s.ret, os v (close s.ret)) ∷ v),
    )

send_all_lem :
    (os : History → Call → Reply) (sfd : ℤ) (j : ℕ) (msgs : List (List ℕ)) (t : History)
    → let (e, u) = send_all sfd j msgs os t in
      e ≡ returned (pos 0) → written u ≡ written t ++ map packet (fitting msgs)
unfolding send_all
send_all_lem os sfd j [] t h = ground (arith, append-nil (written t))
send_all_lem os sfd j (msg ∷ rest) t h =
    let ignoring = eprint "Ignoring long message in argument %d\n" (int (pos j) ∷ []) in
    let w = write sfd (terminated msg) (length msg + 1) in
    let u = (w, os t w) ∷ t in
    let r = os u (read sfd) in
    let v = (read sfd, r) ∷ u in
    let p = print_response r.ret r.bytes in
    ground (
      arith,
      send_all_lem os sfd (suc j) rest ((ignoring, os t ignoring) ∷ t),
      send_all_lem os sfd (suc j) rest ((p, os v p) ∷ v),
      append_assoc (written t) (packet msg ∷ []) (map packet (fitting rest)),
    )

-- If the client returns 0, it has written, in order, each argument of fewer than `BUF_SIZE` bytes
-- with its final zero, whole, and nothing else.
pub client_sends :
    (os : History → Call → Reply) (host port : List ℕ) (msgs : List (List ℕ))
    → let (e, u) = client host port msgs os [] in
      e ≡ returned (pos 0) → written u ≡ map packet (fitting msgs)
unfolding client
client_sends os host port msgs h =
    let c = getaddrinfo (some host) (some port) datagram in
    let g = os [] c in
    let t = (c, g) ∷ [] in
    let b = connect_first g.result os t in
    let u = (freeaddrinfo, os b.1 freeaddrinfo) ∷ b.1 in
    elim (Option-cases b.0) [
      | inl e ↦ ground (arith, connect_first-written os g.result t)
      | inr (fd, e) ↦
          ground (arith, connect_first-written os g.result t, send_all_lem os fd 4 msgs u)
    ]
