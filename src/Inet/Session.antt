-- ===== src/Inet/Session.antt =====
-- `data_client_demo` and `data_server_demo` of inet_socket_demo.c, joined by a network.
use myfreelib.Base.{
  ℕ, suc, ℤ, pos, minus_one, eq_ℤ, int, List, [], ◌∷◌, ◌++◌, some, length, ◌≡◌, ◌∙◌, ap, arith, map,
  if◌then◌else◌, ◌+◌, inl, inr, Option-cases,
}
use myfreelib.Inet.Calls.{
  AddrInfo, Call, Reply, History, Datagram, written, received, echoed, socket, connect, close, read,
  write, print_response, eprint, getaddrinfo, freeaddrinfo, datagram,
}
use myfreelib.Inet.Client.{returned, connect_first, terminated, send_all, client}
use myfreelib.Inet.Client.Laws.{fitting, packet, client_sends}
use myfreelib.Inet.Server.{server}
use myfreelib.Inet.Server.Laws.{server_echoes}

-- What the reads of a history have returned, in order, but for failures, and what was printed.
abbrev read_back : History → List (List ℕ × ℤ)
read_back [] = []
read_back ((read fd, r) ∷ t) =
    if eq_ℤ r.ret minus_one then read_back t else read_back t ++ (r.bytes, r.ret) ∷ []
read_back (_ ∷ t) = read_back t

abbrev pub shown : History → List (List ℕ × ℤ)
shown [] = []
shown ((print_response n buf, r) ∷ t) = shown t ++ (buf, n) ∷ []
shown (_ ∷ t) = shown t

connect_first-shown :
    (os : History → Call → Reply) (addrs : List AddrInfo) (t : History)
    → shown t ≡ read_back t
    → let u = (connect_first addrs os t).1 in shown u ≡ read_back u
unfolding connect_first
connect_first-shown os [] t h = h
connect_first-shown os (rp ∷ rest) t h =
    let s = os t (socket rp) in
    let u = (socket rp, s) ∷ t in
    let v = (connect s.ret rp, os u (connect s.ret rp)) ∷ u in
    ground (
      arith,
      connect_first-shown os rest u h,
      connect_first-shown os rest ((close s.ret, os v (close s.ret)) ∷ v) h,
    )

send_all-shown :
    (os : History → Call → Reply) (sfd : ℤ) (j : ℕ) (msgs : List (List ℕ)) (t : History)
    → shown t ≡ read_back t
    → let u = (send_all sfd j msgs os t).1 in shown u ≡ read_back u
unfolding send_all
send_all-shown os sfd j [] t h = h
send_all-shown os sfd j (msg ∷ rest) t h =
    let ignoring = eprint "Ignoring long message in argument %d\n" (int (pos j) ∷ []) in
    let w = write sfd (terminated msg) (length msg + 1) in
    let u = (w, os t w) ∷ t in
    let r = os u (read sfd) in
    let v = (read sfd, r) ∷ u in
    let p = print_response r.ret r.bytes in
    ground (
      arith,
      send_all-shown os sfd (suc j) rest ((ignoring, os t ignoring) ∷ t),
      send_all-shown os sfd (suc j) rest ((p, os v p) ∷ v),
    )

client-shown :
    (os : History → Call → Reply) (host port : List ℕ) (msgs : List (List ℕ))
    → let u = (client host port msgs os []).1 in shown u ≡ read_back u
unfolding client
client-shown os host port msgs =
    let c = getaddrinfo (some host) (some port) datagram in
    let g = os [] c in
    let t = (c, g) ∷ [] in
    let b = connect_first g.result os t in
    let u = (freeaddrinfo, os b.1 freeaddrinfo) ∷ b.1 in
    elim (Option-cases b.0) [
      | inl e ↦ ground (arith, connect_first-shown os g.result t)
      | inr (fd, e) ↦
          ground (arith, connect_first-shown os g.result t, send_all-shown os fd 4 msgs u)
    ]

-- The contents of datagrams listed with the first one last, in order.
abbrev pub contents : List Datagram → List (List ℕ × ℤ)
contents [] = []
contents (d ∷ ds) = contents ds ++ (d.bytes, d.count) ∷ []

abbrev pub with_count : List ℕ × ℕ → List ℕ × ℤ
with_count (buf, count) = (buf, pos count)

-- If the server receives the datagrams that the client has written, whole and in order, and the
-- client's reads return the datagrams that the server has sent back, whole and in order, and the
-- client returns 0, then it has printed, as responses, each of its arguments of fewer than
-- `BUF_SIZE` bytes with its final zero, once and in order, and nothing else.
pub client_prints_its_arguments :
    (client_os server_os : History → Call → Reply) (n : ℕ) (host port : List ℕ)
    (msgs : List (List ℕ))
    → contents (received (server n port server_os []).1)
      ≡ map with_count (written (client host port msgs client_os []).1)
    → read_back (client host port msgs client_os []).1
      ≡ contents (echoed (server n port server_os []).1)
    → (client host port msgs client_os []).0 ≡ returned (pos 0)
    → shown (client host port msgs client_os []).1 ≡ map with_count (map packet (fitting msgs))
client_prints_its_arguments client_os server_os n host port msgs there back h =
    client-shown client_os host port msgs
    ∙ back
    ∙ ap contents (server_echoes server_os n port).0
    ∙ there
    ∙ ap (map with_count) (client_sends client_os host port msgs h)
