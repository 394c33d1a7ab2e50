-- ===== src/SysvMsg/Server/Laws.antt =====
-- What the child of sysv_msg_server.c sends for a request, by the history of its calls.
use myfreelib.Base.{
  ap, ◌==◌, ◌≢◌, ◌<◌, ◌≤◌, ℕ, zero, suc, ℤ, minus_one, eq_ℤ, is_pos, Bool, true, false, some, List,
  [], ◌∷◌, ◌++◌, ◌≡◌, ◌≢◌, ◌⊎◌, inl, inr, refl, ◌+◌, ◌<◌, ◌≤◌, ◌||◌, arith, if◌then◌else◌,
  append-nil, append_assoc, Bool-cases,
}
use myfreelib.SysvMsg.Calls.{
  Request, Response, Call, Reply, History, resp_mt_data, resp_mt_end, read_input, send_response,
  open_input,
}
use myfreelib.SysvMsg.Server.{Ending, send_file, server_request}

-- The bytes that reads returned.
abbrev file_bytes : History → List ℕ
file_bytes [] = []
file_bytes ((read_input fd, r) ∷ t) = if is_pos r.ret then file_bytes t ++ r.bytes else file_bytes t
file_bytes (_ ∷ t) = file_bytes t

-- The file: the bytes of the reads from number `i` on, up to the first that returns no more bytes, and
-- of at most `n` of them.
abbrev pub file_from : (reads : ℕ → Reply) (i n : ℕ) → List ℕ
file_from reads i zero = []
file_from reads i (suc n) =
    if is_pos (reads i).ret then (reads i).bytes ++ file_from reads (suc i) n else []

-- The responses that were accepted, the first first.
abbrev pub sent : History → List Response
sent [] = []
sent ((send_response q m, r) ∷ t) = if eq_ℤ r.ret minus_one then sent t else sent t ++ m ∷ []
sent (_ ∷ t) = sent t

-- A response was refused.
abbrev pub refused : History → Bool
refused [] = false
refused ((send_response q m, r) ∷ t) = eq_ℤ r.ret minus_one || refused t
refused (_ ∷ t) = refused t

-- How many reads were made.
abbrev pub read_count : History → ℕ
read_count [] = 0
read_count ((read_input fd, r) ∷ t) = suc (read_count t)
read_count (_ ∷ t) = read_count t

-- The bytes of the data messages.
abbrev pub payload : List Response → List ℕ
payload [] = []
payload (m ∷ ms) = m.data_bytes ++ payload ms

payload-append : (ms ns : List Response) → payload (ms ++ ns) ≡ payload ms ++ payload ns
payload-append [] ns = refl
payload-append (m ∷ ms) ns = simp (payload-append ms ns, append_assoc)

payload-append_one :
    (ms : List Response) (m : Response) → payload (ms ++ m ∷ []) ≡ payload ms ++ m.data_bytes
payload-append_one ms m = simp (payload-append ms (m ∷ []), append-nil)

-- Every message but the last is data, and the last is the end.
abbrev pub IsTransfer : List Response → Type 0
IsTransfer [] = ⊥
IsTransfer (m ∷ []) = (m.mtype ≡ resp_mt_end) × (m.data_bytes ≡ [])
IsTransfer (m ∷ n ∷ ms) = (m.mtype ≡ resp_mt_data) × IsTransfer (n ∷ ms)

abbrev AllData : List Response → Type 0
AllData [] = Unit
AllData (m ∷ ms) = (m.mtype ≡ resp_mt_data) × AllData ms

AllData-append_one :
    (ms : List Response) (m : Response)
    → AllData ms
    → m.mtype ≡ resp_mt_data
    → AllData (ms ++ m ∷ [])
AllData-append_one [] m h e = (e, tt)
AllData-append_one (n ∷ ms) m h e = (h.0, AllData-append_one ms m h.1 e)

AllData-IsTransfer :
    (ms : List Response) (m : Response)
    → AllData ms
    → m.mtype ≡ resp_mt_end
    → m.data_bytes ≡ []
    → IsTransfer (ms ++ m ∷ [])
AllData-IsTransfer [] m h e d = (e, d)
AllData-IsTransfer (n ∷ []) m h e d = (h.0, (e, d))
AllData-IsTransfer (n ∷ k ∷ ms) m h e d = (h.0, AllData-IsTransfer (k ∷ ms) m h.1 e d)

-- So far everything that was read has been sent.
abbrev Level : History → Type 0
Level t = (refused t ≡ true) ⊎ ((payload (sent t) ≡ file_bytes t) × AllData (sent t))

read_step :
    (t : History) (q fd : ℤ) (r s : Reply)
    → Level t
    → is_pos r.ret ≡ true
    → Level (
        (send_response q (record { mtype = resp_mt_data; data_bytes = r.bytes }), s)
        ∷ (read_input fd, r)
        ∷ t)
read_step t q fd r s h p = ground (
  arith,
  payload-append_one (sent t) (record { mtype = resp_mt_data; data_bytes = r.bytes }),
  AllData-append_one (sent t) (record { mtype = resp_mt_data; data_bytes = r.bytes }),
)

module _ (os : History → Call → Reply) (q fd : ℤ) where
  send_file-Level : (fuel : ℕ) (t : History) → Level t → Level (send_file fuel q fd os t).1
  unfolding send_file
  send_file-Level zero t h = h
  send_file-Level (suc fuel) t h =
      let r = os t (read_input fd) in
      let t' = (read_input fd, r) ∷ t in
      let m : Response = record { mtype = resp_mt_data; data_bytes = r.bytes } in
      let s = os t' (send_response q m) in
      ground (
        arith,
        read_step t q fd r s h,
        λ (l : Level ((send_response q m, s) ∷ t')).
            send_file-Level fuel ((send_response q m, s) ∷ t') l,
      )

  -- If the answer to the read number `k` is no more bytes, then fuel for the reads up to it is
  -- enough.
  send_file_enough_fuel :
      (reads : ℕ → Reply) (k : ℕ)
      → ((t : History) → os t (read_input fd) ≡ reads (read_count t))
      → is_pos (reads k).ret ≡ false
      → (fuel : ℕ) (t : History) → read_count t ≤ k
      → k < read_count t + fuel
      → (send_file fuel q fd os t).0 ≡ some tt
  unfolding send_file
  send_file_enough_fuel reads k answers stop zero t le lt = absurd (omega arith)
  send_file_enough_fuel reads k answers stop (suc fuel) t le lt =
      let r = os t (read_input fd) in
      let t' = (read_input fd, r) ∷ t in
      let m : Response = record { mtype = resp_mt_data; data_bytes = r.bytes } in
      let s = os t' (send_response q m) in
      elim (Bool-cases (read_count t == k)) [
        | inl e ↦ ground (
          arith,
          answers t,
          ap (λ j. is_pos (reads j).ret) {x = read_count t} {y = k} (ground arith),
        )
        | inr e ↦ ground (
          arith,
          send_file_enough_fuel reads k answers stop fuel ((send_response q m, s) ∷ t')
              (ground arith) (omega arith),
        )
      ]

  -- Unless a response is refused, the whole file is read.
  send_file-file_from :
      (reads : ℕ → Reply) (k : ℕ)
      → ((t : History) → os t (read_input fd) ≡ reads (read_count t))
      → is_pos (reads k).ret ≡ false
      → (fuel n : ℕ) (t : History) → read_count t ≤ k
      → k < read_count t + fuel
      → k ≤ read_count t + n
      → let u = (send_file fuel q fd os t).1 in
        (refused u ≡ true) ⊎ (file_bytes u ≡ file_bytes t ++ file_from reads (read_count t) n)
  unfolding send_file
  send_file-file_from reads k answers stop zero n t le lt room = absurd (omega arith)
  send_file-file_from reads k answers stop (suc fuel) zero t le lt room = ground (
    arith,
    answers t,
    append-nil (file_bytes t),
    ap (λ j. is_pos (reads j).ret) {x = read_count t} {y = k} (omega arith),
  )
  send_file-file_from reads k answers stop (suc fuel) (suc n) t le lt room =
      let r = os t (read_input fd) in
      let t' = (read_input fd, r) ∷ t in
      let m : Response = record { mtype = resp_mt_data; data_bytes = r.bytes } in
      let s = os t' (send_response q m) in
      elim (Bool-cases (read_count t == k)) [
        | inl e ↦ ground (
          arith,
          answers t,
          append-nil (file_bytes t),
          ap (λ j. is_pos (reads j).ret) {x = read_count t} {y = k} (ground arith),
        )
        | inr e ↦ ground (
          arith,
          answers t,
          append-nil (file_bytes t),
          append_assoc (file_bytes t) r.bytes (file_from reads (suc (read_count t)) n),
          send_file-file_from reads k answers stop fuel n ((send_response q m, s) ∷ t')
              (ground arith) (omega arith) (omega arith),
        )
      ]

end_step :
    (t : History) (q : ℤ) (s : Reply)
    → Level t
    → let u = (send_response q (record { mtype = resp_mt_end; data_bytes = [] }), s) ∷ t in
      (refused u ≡ true) ⊎ (IsTransfer (sent u) × (payload (sent u) ≡ file_bytes u))
end_step t q s h =
    let m : Response = record { mtype = resp_mt_end; data_bytes = [] } in
    ground (
      arith,
      payload-append_one (sent t) m,
      append-nil (payload (sent t)),
      λ (a : AllData (sent t)). AllData-IsTransfer (sent t) m a refl refl,
    )

-- If the file can be opened and its read number `k` (from 0) returns no more bytes or an error, then
-- with more than `k` rounds of fuel the child returns; and unless some response was refused by the
-- queue, the responses are data messages followed by one end message, and their contents put
-- together are the bytes of the reads up to the first that returns no more.
pub server_sends_the_file :
    (os : History → Call → Reply) (req : Request) (fd : ℤ) (reads : ℕ → Reply) (k fuel : ℕ)
    → fd ≡ (os [] (open_input req.pathname)).ret
    → fd ≢ minus_one
    → ((t : History) → os t (read_input fd) ≡ reads (read_count t))
    → is_pos (reads k).ret ≡ false
    → k < fuel
    → let (e, u) = server_request fuel req os [] in
      (e ≡ some Ending.returned)
      × ((refused u ≡ true) ⊎ (IsTransfer (sent u) × (payload (sent u) ≡ file_from reads 0 k)))
unfolding server_request
server_sends_the_file os req fd reads k fuel p q answers stop enough =
    let c = req.client_id in
    let t = (open_input req.pathname, os [] (open_input req.pathname)) ∷ [] in
    let v = (send_file fuel c fd os t).1 in
    ground (
      arith,
      send_file_enough_fuel os c fd reads k answers stop fuel t (omega arith) (omega arith),
      send_file-file_from os c fd reads k answers stop fuel k t (omega arith) (omega arith)
          (omega arith),
      end_step v c (os v (send_response c (record { mtype = resp_mt_end; data_bytes = [] })))
          (send_file-Level os c fd fuel t (inr (refl, tt))),
    )
