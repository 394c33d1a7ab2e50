-- ===== src/SeqNum/Clients.antt =====
-- Clients of pipe_client.c and the server of pipe_server.c, joined by the pipes.
use myfreelib.Base.{
  ℕ, zero, suc, ℤ, pos, int, List, [], ◌∷◌, Option, some, none, ◌≡◌, refl, sym, ap, subst, ◌∙◌, ◌<◌,
  ◌+◌, ◌%◌, ◌^◌, ◌==◌, length, length-replicate, replicate, arith, if◌then◌else◌,
}
use myfreelib.SeqNum.Calls.{
  Request, Response, Call, Reply, History, client_fifo, read_only, print, getpid, mkfifo, open_fifo,
  read_request, write_request, read_response,
}
use myfreelib.SeqNum.Server.{request_size, response_size, answer, round, rounds, setup}
use myfreelib.SeqNum.Server
use myfreelib.SeqNum.Blocks.{asked, answered, total, starts, answer-InStep, responses_are_sums}
use myfreelib.SeqNum.Client
use myfreelib.SeqNum.Client.{signed, last_call, client_prints_its_number}

-- The requests that a client has written, the last first.
abbrev pub requests : History → List Request
requests [] = []
requests ((write_request fd req, r) ∷ t) = req ∷ requests t
requests (_ ∷ t) = requests t

-- Each of them asks for one number.
abbrev AllOne : List Request → Type 0
AllOne [] = Unit {0}
AllOne (req ∷ rs) = (req.seq_len ≡ 1) × AllOne rs

requests-AllOne :
    (os : History → Call → Reply) (garbage : Response)
    → AllOne (requests (Client.main garbage os []).1)
unfolding Client.main Client.ask
requests-AllOne os garbage = ground arith

-- Response number `i`, of responses listed with the last one first.
abbrev response_at : List ℕ → ℕ → Option ℕ
response_at [] i = none
response_at (n ∷ ns) i = if i == length ns then some n else response_at ns i

total-ones : (k : ℕ) → total (replicate k 1) ≡ k % 2 ^ 32
total-ones zero = refl
total-ones (suc k) = omega (arith, total-ones k)

length-starts : (ns : List ℕ) → length (starts ns) ≡ length ns
length-starts [] = refl
length-starts (n ∷ ns) = ap suc (length-starts ns)

starts-ones : (k i : ℕ) → i < k → response_at (starts (replicate k 1)) i ≡ some (i % 2 ^ 32)
starts-ones zero i h = absurd (omega arith)
starts-ones (suc k) i h = ground (
  arith,
  length-starts (replicate k 1),
  length-replicate {A = ℕ} k 1,
  total-ones k,
  starts-ones k i,
)

-- A system for the server, at which every read of a request is whole and gives the request that
-- one of the clients has written.
pub record IsServing (os : History → Call → Reply) (client : History → History → Call → Reply)
    : Type 0 where
  pub whole : (t : History) (fd : ℤ) → (os t (read_request fd)).ret ≡ request_size
  pub sent :
      (t : History) (fd : ℤ) (garbage : Response)
      → requests (Client.main garbage (client t) []).1 ≡ (os t (read_request fd)).request ∷ []

module _ (os : History → Call → Reply) (client : History → History → Call → Reply)
    (serving : IsServing os client) where
  asks_for_one : (t : History) (fd : ℤ) → (os t (read_request fd)).request.seq_len ≡ 1
  asks_for_one t fd =
      let g : Response = record { seq_num = 0 } in
      (subst AllOne (serving.sent t fd g) (requests-AllOne (client t) g)).0

  round-asked : (fd : ℤ) (n : ℕ) (t : History) → asked (round fd n os t).1 ≡ 1 ∷ asked t
  unfolding round
  round-asked fd n t = ground (
    arith,
    serving.whole t fd,
    asks_for_one t fd,
    answer-InStep os ((read_request fd, os t (read_request fd)) ∷ t)
        (os t (read_request fd)).request n,
  )

  rounds-asked :
      (k : ℕ) (fd : ℤ) (n : ℕ) (t : History) (j : ℕ)
      → asked t ≡ replicate j 1
      → asked (rounds k fd n os t).1 ≡ replicate (k + j) 1
  unfolding rounds
  rounds-asked zero fd n t j h = ground (arith, h)
  rounds-asked (suc k) fd n t j h =
      let (m, u) = round fd n os t in
      let e : k + suc j ≡ suc k + j = omega arith in
      subst (λ m. asked (rounds (suc k) fd n os t).1 ≡ replicate m 1) e
        (rounds-asked k fd m u (suc j) (round-asked fd n t ∙ ap (λ ns. 1 ∷ ns) h))

  setup-asked : asked (setup os []).1 ≡ []
  unfolding setup
  setup-asked = ground arith

  main-asked : (k : ℕ) → asked (Server.main k os []).1 ≡ replicate k 1
  unfolding Server.main
  main-asked k =
      let (fd, u) = setup os [] in
      let e : k + 0 ≡ k = omega arith in
      subst (λ m. asked (rounds k fd 0 os u).1 ≡ replicate m 1) e
        (rounds-asked k fd 0 u 0 setup-asked)

-- Suppose that every request the server reads is one that a client has written, and that the
-- server has gone through more than `i` rounds. If client `i` makes its pipe and reads there the
-- server's response number `i` whole, then it returns 0 and the last thing it does is to print the
-- signed number whose 32 bits are those of `i`: `i` itself below 2 ^ 31.
pub clients_print_their_turn :
    (os : History → Call → Reply) (client : History → History → Call → Reply)
    (answer : Call → Reply) (garbage : Response) (pid : ℕ) (fd : ℤ) (k i : ℕ)
    → IsServing os client
    → i < k
    → pid ≡ (answer getpid).request.pid
    → fd ≡ (answer (open_fifo (client_fifo pid) read_only)).ret
    → (answer (mkfifo (client_fifo pid))).ret ≡ pos 0
    → (answer (read_response fd)).ret ≡ response_size
    → response_at (answered (Server.main k os []).1) i
      ≡ some (answer (read_response fd)).response.seq_num
    → let (ret, u) = Client.main garbage (λ _ c. answer c) [] in
      (ret ≡ pos 0) × (last_call u ≡ some (print "%d\n" (int (signed (i % 2 ^ 32)) ∷ [])))
clients_print_their_turn os client answer garbage pid fd k i serving h p q m r given =
    let u = (Server.main k os []).1 in
    let turn : (answer (read_response fd)).response.seq_num ≡ i % 2 ^ 32 =
      cc (given, responses_are_sums os k, main-asked os client serving k, starts-ones k i h) in
    rw (sym turn) (client_prints_its_number answer [] garbage pid fd p q m r)
