-- ===== src/PosixShm/Tests.antt =====
-- The theorems about the shared word at a concrete semaphore and a short run.
use myfreelib.Base.{
  List, map, length, replicate, ℕ, suc, true, false, [], ◌∷◌, ◌++◌, ◌≡◌, ◌⊎◌, refl,
}
use myfreelib.Base.Semaphore.{PosixSem}
use myfreelib.PosixShm.Model.{
  State, ServerStep, ClientStep, server_moves, client_moves, Reach, here, next,
}
use myfreelib.Base.Channel.{ChannelStep}
use myfreelib.PosixShm.Channel.{IsWord, abstract, words_refine_channel}
use myfreelib.PosixShm.Progress.{Progress, words_go_on}
use myfreelib.PosixShm.Words.{as_printed}
use myfreelib.PosixShm.Safety.{server_uses, client_uses, words_in_order}

take_back : {v w : ℕ} → v ≡ suc w → v ≡ suc w
take_back h = h

give_back : {v w : ℕ} → w ≡ suc v → w ≡ suc v
give_back h = h

abbrev counter : PosixSem
counter = record {
  Waits = λ v w. v ≡ suc w;
  Posts = λ v w. w ≡ suc v;
  wait_takes = take_back;
  post_gives = give_back;
  wait_returns = λ v. refl;
  post_returns = λ v. refl;
}

record Run : Type 0 where
  last : State
  reach : Reach counter [] last

abbrev by_server :
    (r : Run) {u : State} → r.last.server_gone ≡ false → ServerStep counter r.last u → Run
by_server r alive st = record { last = _; reach = next r.reach (server_moves alive st) }

abbrev by_client :
    (r : Run) {u : State} → r.last.client_gone ≡ false → ClientStep counter r.last u → Run
by_client r alive st = record { last = _; reach = next r.reach (client_moves alive st) }

-- A word of 1100 bytes.
abbrev long : List ℕ
long = replicate 1100 97

-- The client has handed over a word, and the server is about to print it.
abbrev handed : Run
handed =
    let a =
      by_client (record { last = _; reach = here }) refl (ClientStep.waited {v = 0} refl refl) in
    let b = by_client a refl (ClientStep.scanned_word long refl) in
    let c = by_client b refl (ClientStep.posted {v = 1} refl refl) in
    let d = by_server c refl (ServerStep.waited {v = 0} refl refl) in
    by_server d refl (ServerStep.terminated refl)

words_in_order_example :
    (map as_printed handed.last.scanned ≡ handed.last.printed)
    ⊎ (map as_printed handed.last.scanned ≡ handed.last.printed ++ as_printed handed.last.word ∷ [])
words_in_order_example = words_in_order counter handed.reach refl

abbrev printed : Run
printed = by_server handed refl (ServerStep.printed_word refl)

-- The server cuts it.
only_1023 : map length printed.last.printed ≡ 1023 ∷ []
only_1023 = refl

words_refine_channel_example :
    (abstract printed.last ≡ abstract handed.last)
    ⊎ ChannelStep IsWord (abstract handed.last) (abstract printed.last)
words_refine_channel_example =
    words_refine_channel counter handed.reach (server_moves refl (ServerStep.printed_word refl))
      refl

words_go_on_example : Progress counter handed.last
words_go_on_example = words_go_on counter handed.last handed.reach refl refl refl

-- After a `sem_wait` of the server that fails, the server prints while the client stores.
abbrev overlap : Run
overlap =
    let a =
      by_client (record { last = _; reach = here }) refl (ClientStep.waited {v = 0} refl refl) in
    by_server a refl (ServerStep.wait_fails refl)

overlap_uses : (server_uses overlap.last.server ≡ true) × (client_uses overlap.last.client ≡ true)
overlap_uses = (refl, refl)
