-- ===== src/SysvMsg/Tests.antt =====
-- The theorems about the file transfer at a system that answers in a fixed way.
use myfreelib.Base.{
  ◌≢◌, ℕ, ℤ, zero, suc, pos, minus_one, false, true, some, List, [], ◌∷◌, ◌≡◌, ◌⊎◌, refl, length,
  replicate, none, eq_ℤ, arith,
}
use myfreelib.SysvMsg.Calls.{
  Request, Call, Reply, History, resp_mt_data, open_input, read_input, receive_response,
}
use myfreelib.SysvMsg.Server.{Ending, send_file, server_request}
use myfreelib.SysvMsg.Server.Laws.{
  read_count, refused, sent, payload, file_from, IsTransfer, server_sends_the_file,
}
use myfreelib.SysvMsg.Transfer.{Delivers, client_saves_what_server_read}
use myfreelib.SysvMsg.Mbuf
use myfreelib.SysvMsg.Mbuf.Laws
use myfreelib.SysvMsg.Mbuf.Laws.{IsDelivering, server_prints_hello}
use myfreelib.SysvMsg.Client.{transfer}
use myfreelib.SysvMsg.Client.Laws.{receive_count, written}

abbrev answer : ℤ → List ℕ → (mtype : ℕ) → Reply
answer n bytes mtype = record {
  ret = n;
  interrupted = false;
  bytes = bytes;
  request = record { client_id = pos 0; pathname = [] };
  response = record { mtype = mtype; data_bytes = bytes };
}

abbrev request : Request
request = record { client_id = pos 9; pathname = 47 ∷ 97 ∷ [] }

-- The file has two bytes.
abbrev reads : ℕ → Reply
reads zero = answer (pos 2) (104 ∷ 105 ∷ []) 0
reads (suc n) = answer (pos 0) [] 0

abbrev server_os : History → Call → Reply
server_os t (open_input path) = answer (pos 5) [] 0
server_os t (read_input fd) = reads (read_count t)
server_os t c = answer (pos 0) [] 0

five_ne_minus_one : pos 5 ≢ minus_one
five_ne_minus_one e = cc

server_sends_the_file_example :
    let (e, u) = server_request 3 request server_os [] in
    (e ≡ some Ending.returned)
    × ((refused u ≡ true) ⊎ (IsTransfer (sent u) × (payload (sent u) ≡ file_from reads 0 1)))
server_sends_the_file_example =
    server_sends_the_file server_os request (pos 5) reads 1 3 refl five_ne_minus_one (λ t. refl)
      refl (omega arith)

-- A data message and the end message.
abbrev replies : ℕ → Reply
replies zero = answer (pos 2) (104 ∷ 105 ∷ []) resp_mt_data
replies (suc n) = answer (pos 0) [] 3

abbrev client_os : History → Call → Reply
client_os t (receive_response q) = replies (receive_count t)
client_os t c = answer (pos 0) [] 0

all_accepted : refused (server_request 3 request server_os []).1 ≡ false
unfolding server_request send_file
all_accepted = refl

delivered : Delivers replies 0 (sent (server_request 3 request server_os []).1)
unfolding server_request send_file
delivered = (refl, refl, (refl, refl, tt))

two_sent : length (sent (server_request 3 request server_os []).1) ≡ 2
unfolding server_request send_file
two_sent = refl

client_saves_what_server_read_example :
    let (x, u) = server_request 3 request server_os [] in
    let (e, v) = transfer 4 (pos 8) (pos 9) (47 ∷ 97 ∷ []) client_os [] in
    (x ≡ some Ending.returned) × (e ≡ some (pos 0)) × (written v ≡ file_from reads 0 1)
client_saves_what_server_read_example =
    client_saves_what_server_read server_os request (pos 5) reads 1 3 client_os (pos 8) (pos 9)
      (47 ∷ 97 ∷ []) replies 4 refl five_ne_minus_one (λ t. refl) refl (omega arith) all_accepted
      delivered refl (λ t. refl) (omega (arith, two_sent))

-- The other variant: every call returns 3, and a receive stores the client's message.
abbrev mbuf_os : Mbuf.History → Mbuf.Call → Mbuf.Reply
mbuf_os t c = record { ret = pos 3; errno = 0; mtype = Mbuf.hello.mtype; bytes = Mbuf.hello.mtext }

mbuf_os-IsDelivering : IsDelivering mbuf_os (λ t. mbuf_os)
unfolding Mbuf.client
mbuf_os-IsDelivering = record { succeeds = λ t q. refl; from_client = λ t q. refl }

server_prints_hello_example :
    let (ret, u) = Mbuf.server 3 (record { mtype = pos 7; mtext = replicate 100 88 }) mbuf_os [] in
    ((ret ≡ none) × (Laws.printed u ≡ replicate 3 Laws.line))
    ⊎ ((eq_ℤ (Mbuf.setup mbuf_os []).0.ret minus_one ≡ true)
        × (ret ≡ some minus_one)
        × (Laws.printed u ≡ []))
server_prints_hello_example =
    server_prints_hello mbuf_os (λ t. mbuf_os) mbuf_os-IsDelivering 3
      (record { mtype = pos 7; mtext = replicate 100 88 })
