-- ===== src/UnixSocket/Tests.antt =====
-- The theorems about the stream server and its client at systems that answer in a fixed way.
use myfreelib.Base.{
  is_pos, ℕ, ℤ, pos, none, some, Option, false, List, [], ◌∷◌, ◌++◌, ◌≡◌, refl, arith, length, gain,
  replicate, ltb, if◌then◌else◌, length-replicate,
}
use myfreelib.UnixSocket.Calls.{
  Call, Reply, History, socket, sock_stream, accept, pthread_create, fgets, open_fds, handed, lines,
  sent, recv,
}
use myfreelib.UnixSocket.Server.{ThreadEnd, str_server, str_server_demo}
use myfreelib.UnixSocket.Session.{recv_count, displayed, Delivers, server_shows_client_lines}
use myfreelib.UnixSocket.Server.Laws.{server_hands_over}
use myfreelib.UnixSocket.Client.{with_line, send_lines, str_client_demo}
use myfreelib.UnixSocket.Client.Laws.{FitsBuffer}

abbrev returns : ℤ → Option (List ℕ) → Reply
returns n l = record { ret = n; bytes = []; line = l; path = []; is_null = false }

-- Connections are numbered 4, 5, …; every second thread cannot be created.
abbrev os : History → Call → Reply
os t (socket type) = returns (pos 3) none
os t (accept fd) = returns (pos (length t)) none
os t (pthread_create pcfd) = returns (if ltb (length t) 20 then pos 0 else pos 11) none
os t fgets = returns (pos 0) (if ltb (length t) 5 then some (104 ∷ 105 ∷ 10 ∷ []) else none)
os t c = returns (pos 0) none

server_hands_over_example :
    let (ret, u) = str_server_demo 3 os [] in
    open_fds u ≡ handed u ++ gain (os [] (socket sock_stream)).ret []
server_hands_over_example = server_hands_over os (λ t. refl) 3

os-FitsBuffer : FitsBuffer os
os-FitsBuffer t line h = ground arith

abbrev garbage : List ℕ
garbage = replicate 1024 7

abbrev message : List ℕ
message = with_line (104 ∷ 105 ∷ 10 ∷ []) garbage

-- Two messages, and the end.
abbrev replies : ℕ → Reply
replies n =
    if ltb n 2 then record (returns (pos 1024) none) { bytes = message } else returns (pos 0) none

abbrev thread_os : History → Call → Reply
thread_os t (recv fd) = replies (recv_count t)
thread_os t c = returns (pos 0) none

two_sent : length (sent (str_client_demo 5 garbage os []).1) ≡ 2
unfolding str_client_demo send_lines
two_sent = refl

both_received : Delivers replies (sent (str_client_demo 5 garbage os []).1)
unfolding str_client_demo send_lines with_line
both_received = (refl, refl, (refl, refl, tt))

then_end : is_pos (replies (length (sent (str_client_demo 5 garbage os []).1))).ret ≡ false
unfolding str_client_demo send_lines
then_end = refl

server_shows_client_lines_example :
    let u = (str_client_demo 5 garbage os []).1 in
    let (ending, v) = str_server 3 (some (pos 4)) garbage thread_os [] in
    (ending ≡ ThreadEnd.returned) × (displayed v ≡ lines u)
server_shows_client_lines_example =
    server_shows_client_lines os 5 garbage thread_os (pos 4) replies 3 garbage os-FitsBuffer
      (length-replicate {A = ℕ} 1024 7) (length-replicate {A = ℕ} 1024 7) (λ t. refl) both_received
      then_end (omega (arith, two_sent))
