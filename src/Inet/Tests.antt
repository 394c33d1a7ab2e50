-- ===== src/Inet/Tests.antt =====
-- The theorems about the datagram programs at a system that answers in a fixed way.
use myfreelib.Base.{
  ℕ, ℤ, pos, minus_one, eq_ℤ, none, some, List, [], ◌∷◌, ◌≡◌, refl, map, length, ◌-◌, ◌==◌,
  if◌then◌else◌,
}
use myfreelib.Inet.Calls.{
  AddrInfo, Call, Reply, History, getaddrinfo, socket, bind, recvfrom, sendto, write, read,
  open_fds, received, echoed, written,
}
use myfreelib.Inet.Server.{bind_first, server, serve, echo}
use myfreelib.Inet.Session.{shown, with_count, client_prints_its_arguments}
use myfreelib.Inet.Server.Laws.{find, usable, held, bind_first-find, server_echoes}
use myfreelib.Inet.Client.{connect_first, send_all, returned, client}
use myfreelib.Inet.Client.Laws.{fitting, packet}

abbrev returns : ℤ → Reply
returns n = record { ret = n; result = []; bytes = []; peer = []; host = []; service = [] }

-- Three addresses, told apart by their protocol.
abbrev addr : ℕ → AddrInfo
addr n = record { ai_family = pos 2; ai_socktype = pos 2; ai_protocol = pos n; address = [] }

abbrev addrs : List AddrInfo
addrs = addr 0 ∷ addr 1 ∷ addr 2 ∷ []

-- There is no socket for the first, and the second cannot be bound.
abbrev socket_of : AddrInfo → ℤ
socket_of rp = if eq_ℤ rp.ai_protocol (pos 0) then minus_one else pos 5

abbrev bind_result : AddrInfo → ℤ
bind_result rp = if eq_ℤ rp.ai_protocol (pos 1) then minus_one else pos 0

abbrev answer : Call → Reply
answer (getaddrinfo name service hints) = record (returns (pos 0)) { result = addrs }
answer (socket rp) = returns (socket_of rp)
answer (bind fd rp) = returns (bind_result rp)
answer (recvfrom fd) = record (returns (pos 2)) { bytes = 104 ∷ 105 ∷ []; peer = 9 ∷ [] }
answer (sendto fd buf count peer) = returns count
answer (write fd buf count) = returns (pos count)
answer c = returns (pos 0)

abbrev os : History → Call → Reply
os t c = answer c

third_socket : (bind_first addrs os []).0 ≡ some (pos 5)
third_socket = bind_first-find os socket_of bind_result (λ t rp. refl) (λ t rp. refl) addrs []

bind_first-find_example :
    (bind_first addrs os []).0 ≡ elim (find (usable socket_of bind_result) addrs) [
      | none ↦ none
      | some rp ↦ some (socket_of rp)
    ]
bind_first-find_example =
    bind_first-find os socket_of bind_result (λ t rp. refl) (λ t rp. refl) addrs []

server_echoes_example :
    let (o, u) = server 3 (55 ∷ []) os [] in (echoed u ≡ received u) × (open_fds u ≡ held o)
server_echoes_example = server_echoes os 3 (55 ∷ [])

client_returns : (client [] [] ((97 ∷ []) ∷ (98 ∷ 99 ∷ []) ∷ []) os []).0 ≡ returned (pos 0)
unfolding client connect_first send_all
client_returns = refl

-- Two arguments, and what the network delivers of them.
abbrev two : List (List ℕ)
two = (97 ∷ []) ∷ (98 ∷ 99 ∷ []) ∷ []

abbrev delivered : ℕ → Reply
delivered k =
    if k == 0
    then record (returns (pos 2)) { bytes = 97 ∷ 0 ∷ [] }
    else record (returns (pos 3)) { bytes = 98 ∷ 99 ∷ 0 ∷ [] }

abbrev client_os : History → Call → Reply
client_os t (read fd) = delivered (length (written t) - 1)
client_os t c = answer c

abbrev server_os : History → Call → Reply
server_os t (recvfrom fd) = delivered (length (received t))
server_os t c = answer c

client_prints_its_arguments_example :
    shown (client [] [] two client_os []).1 ≡ map with_count (map packet (fitting two))
unfolding client connect_first send_all server serve echo bind_first
client_prints_its_arguments_example =
    client_prints_its_arguments client_os server_os 2 [] [] two refl refl refl
