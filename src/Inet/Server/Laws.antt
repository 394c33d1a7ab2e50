-- ===== src/Inet/Server/Laws.antt =====
-- What `data_server_demo` of inet_socket_demo.c binds and sends.
use myfreelib.Base.{
  ℕ, zero, suc, ℤ, pos, minus_one, eq_ℤ, Bool, List, [], ◌∷◌, Option, some, none, not, ◌&&◌, ◌≡◌,
  refl, arith, if◌then◌else◌,
}
use myfreelib.Inet.Calls.{
  AddrInfo, Call, getaddrinfo, datagram_passive, freeaddrinfo, Reply, History, socket, bind,
  open_fds, received, echoed, close,
}
use myfreelib.Inet.Server.{bind_first, echo, serve, Outcome, returned, serving, server}

-- The first element that passes a test.
abbrev pub find {ℓ} : {A : Type ℓ} → (A → Bool) → List A → Option A
find p [] = none
find p (x ∷ xs) = if p x then some x else find p xs

-- There is a socket for the address, and it can be bound.
abbrev pub usable : (socket_of bind_result : AddrInfo → ℤ) → AddrInfo → Bool
usable socket_of bind_result rp =
    not (eq_ℤ (socket_of rp) minus_one) && eq_ℤ (bind_result rp) (pos 0)

module _ (os : History → Call → Reply) (socket_of : AddrInfo → ℤ) (bind_result : AddrInfo → ℤ)
    (sockets : (t : History) (rp : AddrInfo) → (os t (socket rp)).ret ≡ socket_of rp)
    (binds : (t : History) (rp : AddrInfo)
      → (os t (bind (socket_of rp) rp)).ret ≡ bind_result rp) where
  -- If what `socket` and `bind` return depends on the address alone, the loop over the addresses
  -- finds the socket of the first address for which `socket` does not fail and `bind` returns 0, and
  -- none if there is no such address.
  pub bind_first-find :
      (addrs : List AddrInfo) (t : History)
      → (bind_first addrs os t).0 ≡ elim (find (usable socket_of bind_result) addrs) [
        | none ↦ none
        | some rp ↦ some (socket_of rp)
      ]
  unfolding bind_first
  bind_first-find [] t = refl
  bind_first-find (rp ∷ rest) t =
      let s = os t (socket rp) in
      let u = (socket rp, s) ∷ t in
      let b = os u (bind s.ret rp) in
      let v = (bind s.ret rp, b) ∷ u in
      ground (
        arith,
        sockets t rp,
        binds u rp,
        bind_first-find rest u,
        bind_first-find rest ((close s.ret, os v (close s.ret)) ∷ v),
      )

-- The descriptors open besides those of before.
abbrev added : Option ℤ → List ℤ → List ℤ
added none fds = fds
added (some fd) fds = fd ∷ fds

bind_first-open_fds :
    (os : History → Call → Reply) (addrs : List AddrInfo) (t : History)
    → let (fd, u) = bind_first addrs os t in
      (open_fds u ≡ added fd (open_fds t)) × (received u ≡ received t) × (echoed u ≡ echoed t)
unfolding bind_first
bind_first-open_fds os [] t = (refl, refl, refl)
bind_first-open_fds os (rp ∷ rest) t =
    let s = os t (socket rp) in
    let u = (socket rp, s) ∷ t in
    let b = os u (bind s.ret rp) in
    let v = (bind s.ret rp, b) ∷ u in
    ground (
      arith,
      bind_first-open_fds os rest u,
      bind_first-open_fds os rest ((close s.ret, os v (close s.ret)) ∷ v),
    )

echo_lem :
    (os : History → Call → Reply) (sfd : ℤ) (t : History)
    → echoed t ≡ received t
    → let (x, u) = echo sfd os t in (echoed u ≡ received u) × (open_fds u ≡ open_fds t)
unfolding echo
echo_lem os sfd t h = ground arith

serve_lem :
    (os : History → Call → Reply) (n : ℕ) (sfd : ℤ) (t : History)
    → echoed t ≡ received t
    → let (x, u) = serve n sfd os t in (echoed u ≡ received u) × (open_fds u ≡ open_fds t)
unfolding serve
serve_lem os zero sfd t h = (h, refl)
serve_lem os (suc n) sfd t h =
    ground (arith, echo_lem os sfd t, serve_lem os n sfd (echo sfd os t).1)

abbrev serving_fd : Option ℤ → ℤ
serving_fd none = minus_one
serving_fd (some fd) = fd

abbrev pub held : Outcome → List ℤ
held (returned r) = []
held (serving sfd) = sfd ∷ []

-- Whatever the system answers, and after any number of rounds, `data_server_demo` with a port has
-- sent back every datagram it has received, with the same bytes and count, to its sender, once and
-- in order; and it holds one socket if it serves and none if it has returned.
pub server_echoes :
    (os : History → Call → Reply) (n : ℕ) (port : List ℕ)
    → let (o, u) = server n port os [] in (echoed u ≡ received u) × (open_fds u ≡ held o)
unfolding server
server_echoes os n port =
    let c = getaddrinfo none (some port) datagram_passive in
    let g = os [] c in
    let t = (c, g) ∷ [] in
    let b = bind_first g.result os t in
    let u = (freeaddrinfo, os b.1 freeaddrinfo) ∷ b.1 in
    let fd = serving_fd b.0 in
    ground (arith, bind_first-open_fds os g.result t, serve_lem os n fd u)
