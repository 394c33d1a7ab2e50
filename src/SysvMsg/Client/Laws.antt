-- ===== src/SysvMsg/Client/Laws.antt =====
-- What sysv_msg_client.c writes to its output file, by the history of its calls.
use myfreelib.Base.{
  ◌∙◌, +ℤ_pos, length-append, ℕ, zero, suc, ℤ, pos, minus_one, eq_ℤ, ◌+ℤ◌, pos_part, false, some,
  none, List, [], ◌∷◌, ◌++◌, ◌≡◌, refl, ◌+◌, ◌<◌, ◌==◌, ap, arith, if◌then◌else◌, append-nil,
  append_assoc, length, take,
}
use myfreelib.SysvMsg.Calls.{
  Request, print, truncate_output, rewind_output, open_output, send_request, Response, Call, Reply,
  History, resp_mt_data, resp_mt_failure, receive_response, write_output, open_output, send_request,
}
use myfreelib.SysvMsg.Client.{refill, store, receive_rest, save, transfer}

-- The bytes of the responses received.
abbrev pub received : History → List ℕ
received [] = []
received ((receive_response q, r) ∷ t) =
    if eq_ℤ r.ret minus_one then received t else received t ++ r.response.data_bytes
received (_ ∷ t) = received t

-- The bytes handed to `write` for the output file.
abbrev pub written : History → List ℕ
written [] = []
written ((write_output fd b n, r) ∷ t) = written t ++ take (pos_part n) b
written (_ ∷ t) = written t

-- How many responses were asked for.
abbrev pub receive_count : History → ℕ
receive_count [] = 0
receive_count ((receive_response q, r) ∷ t) = suc (receive_count t)
receive_count (_ ∷ t) = receive_count t

take-length : (xs : List ℕ) → take (length xs) xs ≡ xs
take-length [] = refl
take-length (x ∷ xs) = ap (λ ys. x ∷ ys) (take-length xs)

-- A response is received whole: `msgrcv` returns the number of its bytes.
abbrev pub IsWhole : Reply → Type 0
IsWhole r = r.ret ≡ pos (length r.response.data_bytes)

-- The responses from number `n` on carry these blocks of data, and an end message follows them.
abbrev pub Serves : (ℕ → Reply) → ℕ → List (List ℕ) → Type 0
Serves replies n [] =
    ((replies n).response ≡ record { mtype = 3; data_bytes = [] }) × IsWhole (replies n)
Serves replies n (c ∷ cs) =
    ((replies n).response ≡ record { mtype = resp_mt_data; data_bytes = c })
    × IsWhole (replies n)
    × Serves replies (suc n) cs

abbrev pub concat : List (List ℕ) → List ℕ
concat [] = []
concat (c ∷ cs) = c ++ concat cs

store_lem :
    (os : History → Call → Reply) (t : History) (fd : ℤ) (resp : Response) (n : ℤ)
    → let (x, v) = store fd resp n os t in
      (receive_count v ≡ receive_count t)
      × (written v ≡ written t ++ take (pos_part n) resp.data_bytes)
store_lem os t fd resp n = ground arith

module _ (os : History → Call → Reply) (q fd : ℤ) (replies : ℕ → Reply)
    (answers : (t : History) → os t (receive_response q) ≡ replies (receive_count t)) where
  -- One more block of data is received and stored.
  receive_one :
      (c : List ℕ) (t : History) (resp : Response) (r : Reply)
      → r ≡ os t (receive_response q)
      → (replies (receive_count t)).response ≡ record { mtype = resp_mt_data; data_bytes = c }
      → IsWhole (replies (receive_count t))
      → let (x, v) = store fd (refill resp r) r.ret os ((receive_response q, r) ∷ t) in
        (eq_ℤ r.ret minus_one ≡ false)
        × (r.ret ≡ pos (length c))
        × ((refill resp r).mtype ≡ resp_mt_data)
        × (receive_count v ≡ suc (receive_count t))
        × (written v ≡ written t ++ c)
  receive_one c t resp r e d w = ground (
    arith,
    answers t,
    take-length c,
    store_lem os ((receive_response q, r) ∷ t) fd (refill resp r) r.ret,
  )

  receive_rest_lem :
      (blocks : List (List ℕ)) (fuel : ℕ) (t : History) (resp : Response) (tot num : ℕ)
      → Serves replies (receive_count t) blocks
      → resp.mtype ≡ resp_mt_data
      → length blocks + 1 < fuel
      → let (e, u) = receive_rest fuel q fd resp (pos tot) num os t in
        (e ≡ some (pos (tot + length (concat blocks)), num + length blocks + 1))
        × (written u ≡ written t ++ concat blocks)
  unfolding receive_rest
  receive_rest_lem blocks zero t resp tot num s m f = absurd (omega arith)
  receive_rest_lem [] (suc zero) t resp tot num s m f = absurd (omega arith)
  receive_rest_lem [] (suc (suc fuel)) t resp tot num s m f =
      ground (arith, answers t, append-nil (written t), +ℤ_pos tot 0)
  receive_rest_lem (c ∷ cs) (suc fuel) t resp tot num s m f =
      let r = os t (receive_response q) in
      let v = (store fd (refill resp r) r.ret os ((receive_response q, r) ∷ t)).1 in
      let o = receive_one c t resp r refl s.0 s.1 in
      let serves : Serves replies (receive_count v) cs = rw o.3 s.2 in
      ground (
        arith,
        o,
        +ℤ_pos tot (length c),
        length-append c (concat cs),
        append_assoc (written t) c (concat cs),
        receive_rest_lem cs fuel v (refill resp r) (tot + length c) (num + 1) serves o.2
            (omega arith),
      )

Serves-first :
    (replies : ℕ → Reply) (n : ℕ) (blocks : List (List ℕ))
    → Serves replies n blocks
    → (eq_ℤ (replies n).ret minus_one ≡ false)
      × (((replies n).response.mtype == resp_mt_failure) ≡ false)
Serves-first replies n [] s = ground arith
Serves-first replies n (c ∷ cs) s = ground arith

-- The history when the first response is stored.
save_history : (History → Call → Reply) → History → History
save_history os t =
    let o = os t open_output in
    let t' = (open_output, o) ∷ t in
    let t'' = (truncate_output o.ret, os t' (truncate_output o.ret)) ∷ t' in
    (rewind_output o.ret, os t'' (rewind_output o.ret)) ∷ t''

-- The output file, given that the first response is that of `blocks`.
save_lem :
    (os : History → Call → Reply) (q : ℤ) (replies : ℕ → Reply) (blocks : List (List ℕ)) (fuel : ℕ)
    (t : History) (r : Reply) (n : ℕ)
    → ((t : History) → os t (receive_response q) ≡ replies (receive_count t))
    → r ≡ replies n
    → receive_count t ≡ suc n
    → Serves replies n blocks
    → length blocks + 1 < fuel
    → let (e, u) = save fuel q r.response r.ret os t in
      (e ≡ some (pos 0)) × (written u ≡ written t ++ concat blocks)
unfolding save save_history receive_rest
save_lem os q replies [] zero t r n answers e count s f = absurd (omega arith)
save_lem os q replies [] (suc fuel) t r n answers e count s f =
    ground (arith, store_lem os (save_history os t) (os t open_output).ret r.response r.ret)
save_lem os q replies (c ∷ cs) fuel t r n answers e count s f =
    let fd = (os t open_output).ret in
    let v = (store fd r.response r.ret os (save_history os t)).1 in
    let here = store_lem os (save_history os t) fd r.response r.ret in
    let at_one : receive_count v ≡ suc n = here.0 ∙ count in
    let serves : Serves replies (receive_count v) cs = rw at_one s.2 in
    ground (
      arith,
      here,
      take-length c,
      append_assoc (written t) c (concat cs),
      receive_rest_lem os q fd replies answers cs fuel v r.response (length c) 1 serves,
    )

pub client_saves_the_blocks :
    (os : History → Call → Reply) (server_id q : ℤ) (pathname : List ℕ) (replies : ℕ → Reply)
    (blocks : List (List ℕ)) (fuel : ℕ)
    → eq_ℤ
        (os [] (send_request server_id (record { client_id = q; pathname = pathname }))).ret
        minus_one
      ≡ false
    → ((t : History) → os t (receive_response q) ≡ replies (receive_count t))
    → Serves replies 0 blocks
    → length blocks + 1 < fuel
    → let (e, u) = transfer fuel server_id q pathname os [] in
      (e ≡ some (pos 0)) × (written u ≡ concat blocks)
unfolding transfer
client_saves_the_blocks os server_id q pathname replies blocks fuel p answers s f =
    let req : Request = record { client_id = q; pathname = pathname } in
    let t = (send_request server_id req, os [] (send_request server_id req)) ∷ [] in
    let r = os t (receive_response q) in
    let u = (receive_response q, r) ∷ t in
    ground (
      arith,
      p,
      Serves-first replies 0 blocks s,
      answers t,
      save_lem os q replies blocks fuel u r 0 answers (answers t) refl s f,
    )

-- If every `msgrcv` on the client's queue fails from some point on while the last response was data,
-- the loop never ends: no fuel is enough.
client_spins_on_errors :
    (os : History → Call → Reply) (q fd : ℤ)
    → ((t : History) → (os t (receive_response q)).ret ≡ minus_one)
    → (fuel : ℕ) (t : History) (resp : Response) (tot : ℤ) (num : ℕ) → resp.mtype ≡ resp_mt_data
    → (receive_rest fuel q fd resp tot num os t).0 ≡ none
unfolding receive_rest
client_spins_on_errors os q fd fails zero t resp tot num m = refl
client_spins_on_errors os q fd fails (suc fuel) t resp tot num m =
    let r = os t (receive_response q) in
    let t' = (receive_response q, r) ∷ t in
    let v = (print "msgrcv fail.\n" [], os t' (print "msgrcv fail.\n" [])) ∷ t' in
    ground (
      arith,
      fails t,
      client_spins_on_errors os q fd fails fuel (store fd resp r.ret os v).1 resp (tot +ℤ r.ret)
          (num + 1) m,
    )
