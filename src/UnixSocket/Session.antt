-- ===== src/UnixSocket/Session.antt =====
-- A client of unix_socket_demo.c and the thread that serves it, joined by the connection.
use myfreelib.Base.{
  ℕ, zero, suc, ℤ, false, true, is_pos, List, [], ◌∷◌, map, length, drop, some, ◌≡◌, subst, ◌<◌,
  ◌≤◌, drop-length, refl, arith, shown, append-nil,
}
use myfreelib.UnixSocket.Calls.{
  Call, Reply, History, recv, pthread_self, print_message, lines, sent,
}
use myfreelib.UnixSocket.Server.{ThreadEnd, show_messages, str_server, stored}
use myfreelib.UnixSocket.Client.{unix_socket_msg_size, str_client_demo}
use myfreelib.UnixSocket.Client.Laws.{AllWhole, sent-AllWhole, FitsBuffer, client_lines-shown}

-- How many receives were made.
abbrev pub recv_count : History → ℕ
recv_count [] = 0
recv_count ((recv fd, r) ∷ t) = suc (recv_count t)
recv_count (_ ∷ t) = recv_count t

-- What `%s` has shown of the messages, the last one first.
abbrev pub displayed : History → List (List ℕ)
displayed [] = []
displayed ((print_message pid msg, r) ∷ t) = shown unix_socket_msg_size msg ∷ displayed t
displayed (_ ∷ t) = displayed t

-- Of messages listed with the last one first, each is received whole, at its place.
abbrev pub Delivers : (ℕ → Reply) → List (List ℕ) → Type 0
Delivers replies [] = Unit {0}
Delivers replies (m ∷ ms) =
    (is_pos (replies (length ms)).ret ≡ true)
    × ((replies (length ms)).bytes ≡ m)
    × Delivers replies ms

stored-whole :
    (r : Reply) (m msg : List ℕ)
    → r.bytes ≡ m
    → length m ≡ unix_socket_msg_size
    → length msg ≡ unix_socket_msg_size
    → stored r msg ≡ m
stored-whole r m msg e a b = ground (arith, drop-length (length r.bytes) msg, append-nil m)

drop-cons :
    (j : ℕ) (ms : List (List ℕ)) → j < length ms → (m : List ℕ) × (drop j ms ≡ m ∷ drop (suc j) ms)
drop-cons j [] h = absurd (omega arith)
drop-cons zero (m ∷ ms) h = (m, refl)
drop-cons (suc j) (m ∷ ms) h = drop-cons j ms (omega arith)

Delivers-drop :
    (replies : ℕ → Reply) (j : ℕ) (ms : List (List ℕ))
    → Delivers replies ms × AllWhole ms
    → Delivers replies (drop j ms) × AllWhole (drop j ms)
Delivers-drop replies zero ms h = h
Delivers-drop replies (suc j) [] h = h
Delivers-drop replies (suc j) (m ∷ ms) h = Delivers-drop replies j ms (h.0.2, h.1.1)

module _ (os : History → Call → Reply) (pid cfd : ℤ) (replies : ℕ → Reply) (ms : List (List ℕ))
    (receives : (t : History) → os t (recv cfd) ≡ replies (recv_count t))
    (ends : is_pos (replies (length ms)).ret ≡ false)
    (delivers : Delivers replies ms × AllWhole ms) where
  -- With `j` messages still to come.
  show_messages-displayed :
      (fuel j : ℕ) (msg : List ℕ) (t : History)
      → j < fuel
      → j ≤ length ms
      → length msg ≡ unix_socket_msg_size
      → recv_count t ≡ length (drop j ms)
      → displayed t ≡ map (shown unix_socket_msg_size) (drop j ms)
      → let (done, u) = show_messages fuel pid cfd msg os t in
        (done ≡ some tt) × (displayed u ≡ map (shown unix_socket_msg_size) ms)
  unfolding show_messages
  show_messages-displayed zero j msg t lt le w c d = absurd (omega arith)
  show_messages-displayed (suc fuel) zero msg t lt le w c d = ground (arith, receives t)
  show_messages-displayed (suc fuel) (suc j) msg t lt le w c d =
      let r = os t (recv cfd) in
      let u = (recv cfd, r) ∷ t in
      let line = print_message pid (stored r msg) in
      let (m, e) = drop-cons j ms le in
      let h : Delivers replies (m ∷ drop (suc j) ms) × AllWhole (m ∷ drop (suc j) ms) =
        subst (λ xs. Delivers replies xs × AllWhole xs) e (Delivers-drop replies j ms delivers) in
      let same = stored-whole r m msg in
      ground (
        arith,
        receives t,
        c,
        e,
        same,
        show_messages-displayed fuel j (stored r msg) ((line, os u line) ∷ u),
      )

-- If `fgets` stores lines that fit into the client's buffer and have no zero byte, and the receives of
-- the thread get the messages that the client has sent, each whole and in order, and then the end of
-- the connection, then with fuel for the messages the thread returns, and
-- its prints have shown exactly the lines that the client has read, in order.
pub server_shows_client_lines :
    (client : History → Call → Reply) (fuel : ℕ) (garbage : List ℕ)
    (server : History → Call → Reply) (cfd : ℤ) (replies : ℕ → Reply) (server_fuel : ℕ)
    (server_garbage : List ℕ)
    → FitsBuffer client
    → length garbage ≡ unix_socket_msg_size
    → length server_garbage ≡ unix_socket_msg_size
    → ((t : History) → server t (recv cfd) ≡ replies (recv_count t))
    → Delivers replies (sent (str_client_demo fuel garbage client []).1)
    → is_pos (replies (length (sent (str_client_demo fuel garbage client []).1))).ret ≡ false
    → length (sent (str_client_demo fuel garbage client []).1) < server_fuel
    → let u = (str_client_demo fuel garbage client []).1 in
      let (ending, v) = str_server server_fuel (some cfd) server_garbage server [] in
      (ending ≡ ThreadEnd.returned) × (displayed v ≡ lines u)
unfolding str_server
server_shows_client_lines client fuel garbage server cfd replies server_fuel server_garbage fits w
      w' receives delivers ends enough =
    let ms = sent (str_client_demo fuel garbage client []).1 in
    let p = server [] pthread_self in
    let t : History = (pthread_self, p) ∷ [] in
    ground (
      arith,
      client_lines-shown client fuel garbage fits w,
      show_messages-displayed server p.ret cfd replies ms receives ends
          (delivers, sent-AllWhole client fuel garbage fits w) server_fuel (length ms)
          server_garbage t,
      drop-length (length ms) ms,
    )
