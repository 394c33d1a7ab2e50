-- ===== src/SeqNum/Blocks.antt =====
-- The numbers that the server hands out.
use myfreelib.Base.{
  ℕ, zero, suc, ℤ, eq_ℤ, List, [], ◌∷◌, ◌≡◌, refl, ◌+◌, ◌%◌, ◌^◌, ◌<◌, ◌≤◌, if◌then◌else◌, arith,
}
use myfreelib.SeqNum.Calls.{Request, Call, Reply, History, read_request, write_response}
use myfreelib.SeqNum.Server.{request_size, answer, round, rounds, setup, main}

-- The lengths asked for by the requests that were read whole, the last first.
abbrev pub asked : History → List ℕ
asked [] = []
asked ((read_request fd, r) ∷ t) =
    if eq_ℤ r.ret request_size then r.request.seq_len ∷ asked t else asked t
asked (_ ∷ t) = asked t

-- The numbers sent in responses, the last first.
abbrev pub answered : History → List ℕ
answered [] = []
answered ((write_response fd p, r) ∷ t) = p.seq_num ∷ answered t
answered (_ ∷ t) = answered t

-- The length of a list of blocks, in 32 bits, and where each of them starts, the last first.
abbrev pub total : List ℕ → ℕ
total [] = 0
total (n ∷ ns) = (total ns + n) % 2 ^ 32

abbrev pub starts : List ℕ → List ℕ
starts [] = []
starts (n ∷ ns) = total ns ∷ starts ns

record InStep (seq_num : ℕ) (t : History) : Type 0 where
  number : seq_num ≡ total (asked t)
  given : answered t ≡ starts (asked t)

pub answer-InStep :
    (os : History → Call → Reply) (t : History) (req : Request) (n : ℕ)
    → let (m, u) = answer req n os t in
      (m ≡ (n + req.seq_len) % 2 ^ 32) × (asked u ≡ asked t) × (answered u ≡ n ∷ answered t)
unfolding answer
answer-InStep os t req n = ground arith

round-InStep :
    (os : History → Call → Reply) (t : History) (fd : ℤ) (n : ℕ)
    → InStep n t
    → let (m, u) = round fd n os t in InStep m u
unfolding round
round-InStep os t fd n h = ground (
  arith,
  answer-InStep os ((read_request fd, os t (read_request fd)) ∷ t) (os t (read_request fd)).request
      n,
)

rounds-InStep :
    (os : History → Call → Reply) (k : ℕ) (t : History) (fd : ℤ) (n : ℕ)
    → InStep n t
    → let (m, u) = rounds k fd n os t in InStep m u
unfolding rounds
rounds-InStep os zero t fd n h = h
rounds-InStep os (suc k) t fd n h =
    let (m, u) = round fd n os t in rounds-InStep os k u fd m (round-InStep os t fd n h)

-- The sum of the lengths, without a bound.
abbrev sum : List ℕ → ℕ
sum [] = 0
sum (n ∷ ns) = sum ns + n

-- Every block, given by its start and its length, ends at `limit` or before.
abbrev EndsBy : (limit : ℕ) → List ℕ → List ℕ → Type 0
EndsBy limit (s ∷ ss) (n ∷ ns) = (s + n ≤ limit) × EndsBy limit ss ns
EndsBy limit _ _ = Unit

-- Every block starts where all earlier ones have ended.
abbrev pub Apart : List ℕ → List ℕ → Type 0
Apart (s ∷ ss) (n ∷ ns) = EndsBy s ss ns × Apart ss ns
Apart _ _ = Unit

total-eq-sum : (ns : List ℕ) → sum ns < 2 ^ 32 → total ns ≡ sum ns
total-eq-sum [] h = refl
total-eq-sum (n ∷ ns) h = omega (arith, total-eq-sum ns (omega arith))

starts-EndsBy :
    (ns : List ℕ) (limit : ℕ) → sum ns < 2 ^ 32 → sum ns ≤ limit → EndsBy limit (starts ns) ns
starts-EndsBy [] limit h k = tt
starts-EndsBy (n ∷ ns) limit h k = (
  omega (arith, total-eq-sum ns (omega arith)),
  starts-EndsBy ns limit (omega arith) (omega arith),
)

starts-Apart : (ns : List ℕ) → sum ns < 2 ^ 32 → Apart (starts ns) ns
starts-Apart [] h = tt
starts-Apart (n ∷ ns) h = (
  starts-EndsBy ns (total ns) (omega arith) (omega (arith, total-eq-sum ns (omega arith))),
  starts-Apart ns (omega arith),
)

setup-InStep : (os : History → Call → Reply) → InStep 0 (setup os []).1
unfolding setup
setup-InStep os = ground arith

main-given : (os : History → Call → Reply) (k : ℕ) → let (m, u) = main k os [] in InStep m u
unfolding main
main-given os k = let (fd, u) = setup os [] in rounds-InStep os k u fd 0 (setup-InStep os)

-- However the system answers, after any number of rounds the server has sent one response to each
-- request that it read whole, in order, and the number in it is the sum of the lengths that the
-- earlier requests asked for, in 32 bits.
pub responses_are_sums :
    (os : History → Call → Reply) (k : ℕ)
    → let (m, u) = main k os [] in answered u ≡ starts (asked u)
responses_are_sums os k = (main-given os k).given

-- If the lengths asked for stay below 2 ^ 32 in all, the blocks of numbers handed out do not
-- overlap: each starts where all the earlier ones have ended.
pub blocks_do_not_overlap :
    (os : History → Call → Reply) (k : ℕ)
    → sum (asked (main k os []).1) < 2 ^ 32
    → Apart (answered (main k os []).1) (asked (main k os []).1)
blocks_do_not_overlap os k h =
    rw (responses_are_sums os k) (starts-Apart (asked (main k os []).1) h)
