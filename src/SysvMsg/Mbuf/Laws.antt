-- ===== src/SysvMsg/Mbuf/Laws.antt =====
-- What the server of the other variant prints when clients of its variant send.
use myfreelib.Base.{
  ℕ, zero, suc, ℤ, pos, minus_one, eq_ℤ, false, Option, some, none, List, [], ◌∷◌, replicate, codes,
  ◌+◌, ◌≡◌, ◌∙◌, ap, subst, refl, sym, drop, length, ◌++◌, ◌⊎◌, true, arith,
}
use myfreelib.SysvMsg.Mbuf.{
  Mbuf, Call, Reply, History, print_message, msgrcv, msgsnd, text_of, round, rounds, setup, server,
  client, hello,
}

-- The messages sent, and the messages printed, the last first.
abbrev pub sent : History → List Mbuf
sent [] = []
sent ((msgsnd q msg size, r) ∷ t) = msg ∷ sent t
sent (_ ∷ t) = sent t

abbrev pub printed : History → List (ℤ × Option (List ℕ))
printed [] = []
printed ((print_message mtype s, r) ∷ t) = (mtype, s) ∷ printed t
printed (_ ∷ t) = printed t

-- A system for the server at which every receive succeeds and stores a whole message that one of
-- the clients has sent.
pub record IsDelivering (os : History → Call → Reply) (clients : History → History → Call → Reply)
    : Type 0 where
  pub succeeds : (t : History) (q : ℤ) → eq_ℤ (os t (msgrcv q 100)).ret minus_one ≡ false
  pub from_client :
      (t : History) (q : ℤ)
      → let r = os t (msgrcv q 100) in
        sent (client (clients t) []).1 ≡ record { mtype = r.mtype; mtext = r.bytes } ∷ []

-- What the client's message is printed as.
abbrev pub line : ℤ × Option (List ℕ)
line = (pos 100, some (codes "hello"))

-- Each message is the client's.
abbrev AllHello : List Mbuf → Type 0
AllHello [] = Unit {0}
AllHello (m ∷ ms) = (m ≡ hello) × AllHello ms

sent-AllHello : (os : History → Call → Reply) → AllHello (sent (client os []).1)
unfolding client
sent-AllHello os = ground arith

text_of-hello : (rest : List ℕ) → text_of (hello.mtext ++ rest) ≡ some (codes "hello")
text_of-hello rest = refl

module _ (os : History → Call → Reply) (clients : History → History → Call → Reply)
    (h : IsDelivering os clients) where
  received-hello :
      (t : History) (q : ℤ)
      → let r = os t (msgrcv q 100) in (r.mtype ≡ pos 100) × (r.bytes ≡ hello.mtext)
  received-hello t q =
      let e = (subst AllHello (h.from_client t q) (sent-AllHello (clients t))).0 in
      (ap (λ m. m.mtype) e, ap (λ m. m.mtext) e)

  round-printed :
      (q : ℤ) (msg : Mbuf) (t : History) → printed (round q msg os t).1 ≡ line ∷ printed t
  unfolding round
  round-printed q msg t =
      let (e, f) = received-hello t q in
      let rest = drop (length (os t (msgrcv q 100)).bytes) msg.mtext in
      let g =
        subst (λ b. text_of (b ++ rest) ≡ some (codes "hello")) (sym f) (text_of-hello rest) in
      ground (arith, h.succeeds t q, e, g)

  rounds-printed :
      (n : ℕ) (q : ℤ) (msg : Mbuf) (t : History) (j : ℕ)
      → printed t ≡ replicate j line
      → printed (rounds n q msg os t).1 ≡ replicate (n + j) line
  unfolding rounds
  rounds-printed zero q msg t j p = ground (arith, p)
  rounds-printed (suc n) q msg t j p =
      let (m, u) = round q msg os t in
      let e : n + suc j ≡ suc n + j = omega arith in
      subst (λ k. printed (rounds (suc n) q msg os t).1 ≡ replicate k line) e
        (rounds-printed n q m u (suc j) (round-printed q msg t ∙ ap (λ ls. line ∷ ls) p))

  setup-printed : printed (setup os []).1 ≡ []
  unfolding setup
  setup-printed = refl

  -- If every receive of the server succeeds and stores a whole message that some client has sent,
  -- then a server that gets its queue has printed after `n` rounds exactly `n` lines, each with the
  -- type 100 and the text hello, whatever its buffer held before; if it does not get the queue, it
  -- returns -1 and prints none.
  pub server_prints_hello :
      (n : ℕ) (msg : Mbuf)
      → let (ret, u) = server n msg os [] in
        ((ret ≡ none) × (printed u ≡ replicate n line))
        ⊎ ((eq_ℤ (setup os []).0.ret minus_one ≡ true) × (ret ≡ some minus_one) × (printed u ≡ []))
  unfolding server
  server_prints_hello n msg =
      let (q, u) = setup os [] in
      let e : n + 0 ≡ n = omega arith in
      let p : printed (rounds n q.ret msg os u).1 ≡ replicate n line =
        subst (λ k. printed (rounds n q.ret msg os u).1 ≡ replicate k line) e
          (rounds-printed n q.ret msg u 0 setup-printed) in
      ground (arith, p, setup-printed)
