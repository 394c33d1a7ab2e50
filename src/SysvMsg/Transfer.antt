-- ===== src/SysvMsg/Transfer.antt =====
-- The child of sysv_msg_server.c and sysv_msg_client.c together, joined by the client's queue.
use myfreelib.Base.{
  ℕ, suc, ℤ, pos, minus_one, eq_ℤ, false, List, [], ◌∷◌, ◌≡◌, ◌≢◌, inl, inr, some, length, ◌<◌, ◌+◌,
  ◌∙◌, arith, append-nil, is_pos,
}
use myfreelib.SysvMsg.Calls.{
  Request, Response, Call, Reply, History, open_input, read_input, send_request, receive_response,
}
use myfreelib.SysvMsg.Server.{Ending, server_request}
use myfreelib.SysvMsg.Server.Laws.{
  sent, refused, read_count, payload, file_from, IsTransfer, server_sends_the_file,
}
use myfreelib.SysvMsg.Client.{transfer}
use myfreelib.SysvMsg.Client.Laws.{
  IsWhole, Serves, concat, written, receive_count, client_saves_the_blocks,
}

-- A queue that keeps messages whole and in order: the receives from number `n` on get these.
abbrev pub Delivers : (ℕ → Reply) → ℕ → List Response → Type 0
Delivers replies n [] = Unit {0}
Delivers replies n (m ∷ ms) =
    ((replies n).response ≡ m) × IsWhole (replies n) × Delivers replies (suc n) ms

-- The contents of all messages but the last.
abbrev blocks : List Response → List (List ℕ)
blocks [] = []
blocks (m ∷ []) = []
blocks (m ∷ n ∷ ms) = m.data_bytes ∷ blocks (n ∷ ms)

IsTransfer-Serves :
    (replies : ℕ → Reply) (n : ℕ) (ms : List Response)
    → IsTransfer ms
    → Delivers replies n ms
    → Serves replies n (blocks ms)
      × (concat (blocks ms) ≡ payload ms)
      × (length (blocks ms) + 1 ≡ length ms)
IsTransfer-Serves replies n [] t d = elim t [ ]
IsTransfer-Serves replies n (m ∷ []) t d = ground (arith, append-nil m.data_bytes)
IsTransfer-Serves replies n (m ∷ k ∷ ms) t d =
    let rest = IsTransfer-Serves replies (suc n) (k ∷ ms) t.1 d.2 in
    ((ground arith, d.1, rest.0), ground (arith, rest.1), omega (arith, rest.2))

-- If the server's child opens the file, whose read number `k` returns no more bytes or an error, no
-- response is refused, the queue delivers the responses sent, whole and in order, and the
-- client's request is sent, then with fuel for the reads and for the messages the child returns, the
-- client returns 0, and the bytes that the client writes are those of the child's reads up to the first that returns no
-- more.
pub client_saves_what_server_read :
    (server : History → Call → Reply) (req : Request) (fd : ℤ) (reads : ℕ → Reply)
    (k server_fuel : ℕ) (client : History → Call → Reply) (server_id q : ℤ) (pathname : List ℕ)
    (replies : ℕ → Reply) (client_fuel : ℕ)
    → fd ≡ (server [] (open_input req.pathname)).ret
    → fd ≢ minus_one
    → ((t : History) → server t (read_input fd) ≡ reads (read_count t))
    → is_pos (reads k).ret ≡ false
    → k < server_fuel
    → refused (server_request server_fuel req server []).1 ≡ false
    → Delivers replies 0 (sent (server_request server_fuel req server []).1)
    → eq_ℤ
        (client [] (send_request server_id (record { client_id = q; pathname = pathname }))).ret
        minus_one
      ≡ false
    → ((t : History) → client t (receive_response q) ≡ replies (receive_count t))
    → length (sent (server_request server_fuel req server []).1) < client_fuel
    → let (x, u) = server_request server_fuel req server [] in
      let (e, v) = transfer client_fuel server_id q pathname client [] in
      (x ≡ some Ending.returned) × (e ≡ some (pos 0)) × (written v ≡ file_from reads 0 k)
client_saves_what_server_read server req fd reads k server_fuel client server_id q pathname replies
      client_fuel p ne answers stop enough accepted delivers asked receives fuel =
    let u = (server_request server_fuel req server []).1 in
    let s = server_sends_the_file server req fd reads k server_fuel p ne answers stop enough in
    elim s.1 [
      | inl r ↦ absurd (cc)
      | inr t ↦
          let b = IsTransfer-Serves replies 0 (sent u) t.0 delivers in
          let c =
            client_saves_the_blocks client server_id q pathname replies (blocks (sent u))
              client_fuel asked receives b.0 (omega (arith, b.2)) in
          (s.0, c.0, c.1 ∙ b.1 ∙ t.1)
    ]
