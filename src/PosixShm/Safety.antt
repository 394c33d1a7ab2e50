-- ===== src/PosixShm/Safety.antt =====
-- What holds in the states that the server and the client of the shared memory reach while no
-- `sem_wait` of the server has failed.
use myfreelib.Base.{
  ℕ, Bool, true, false, List, [], ◌∷◌, ◌++◌, map, length, ◌<◌, ◌≡◌, ◌⊎◌, inl, inr, refl, arith,
}
use myfreelib.Base.Semaphore.{PosixSem}
use myfreelib.PosixShm.Words.{
  as_printed, as_printed-terminated, as_printed-short, length-terminated, map-as_printed,
}
use myfreelib.PosixShm.Model.{
  data_size, ServerAt, ClientAt, State, ServerStep, ClientStep, server_moves, client_moves, Reach,
  here, next,
}

abbrev Sems : ℕ → ℕ → State → Type 0
Sems r w s = (s.read ≡ r) × (s.write ≡ w)

abbrev Printed : State → Type 0
Printed s = map as_printed s.scanned ≡ s.printed

abbrev Waiting : State → Type 0
Waiting s = map as_printed s.scanned ≡ s.printed ++ as_printed s.word ∷ []

-- One row for each pair of positions that can be reached.
abbrev Agree : ServerAt → ClientAt → State → Type 0
Agree ServerAt.waiting ClientAt.waiting s = (Sems 0 1 s × Printed s) ⊎ (Sems 1 0 s × Waiting s)
Agree ServerAt.waiting ClientAt.scanning s = Sems 0 0 s × Printed s
Agree ServerAt.waiting ClientAt.posting s = Sems 0 0 s × Waiting s
Agree ServerAt.terminating ClientAt.waiting s = Sems 0 0 s × Waiting s
Agree ServerAt.printing ClientAt.waiting s = Sems 0 0 s × Waiting s × (length s.word < data_size)
Agree ServerAt.posting ClientAt.waiting s = Sems 0 0 s × Printed s
Agree _ _ s = ⊥

abbrev pub Inv : State → Type 0
Inv s = (s.wait_failed ≡ true) ⊎ Agree s.server s.client s

module _ (sem : PosixSem) where
  ServerStep-Inv : {s u : State} → ServerStep sem s u → Inv s → Inv u
  ServerStep-Inv (ServerStep.waited p h) i = ground (arith, sem.wait_takes h)
  ServerStep-Inv (ServerStep.wait_fails p) i = inl refl
  ServerStep-Inv {s} (ServerStep.terminated p) i =
      ground (arith, as_printed-terminated s.word, length-terminated s.word)
  ServerStep-Inv {s} (ServerStep.printed_word p) i = ground (arith, as_printed-short s.word)
  ServerStep-Inv (ServerStep.posted p h) i = ground (arith, sem.post_gives h)
  ServerStep-Inv (ServerStep.post_fails p) i = ground arith

  ClientStep-Inv : {s u : State} → ClientStep sem s u → Inv s → Inv u
  ClientStep-Inv (ClientStep.waited p h) i = ground (arith, sem.wait_takes h)
  ClientStep-Inv (ClientStep.wait_fails p) i = ground arith
  ClientStep-Inv {s} (ClientStep.scanned_word w p) i = ground (arith, map-as_printed s.scanned w)
  ClientStep-Inv (ClientStep.overrun w v p h) i = ground arith
  ClientStep-Inv (ClientStep.scan_ends p) i = ground arith
  ClientStep-Inv (ClientStep.posted p h) i = ground (arith, sem.post_gives h)
  ClientStep-Inv (ClientStep.post_fails p) i = ground arith

  pub Reach-Inv : {g : List ℕ} {s : State} → Reach sem g s → Inv s
  Reach-Inv here = inr (inl ((refl, refl), refl))
  Reach-Inv (next r (server_moves a w)) = ServerStep-Inv w (Reach-Inv r)
  Reach-Inv (next r (client_moves a w)) = ClientStep-Inv w (Reach-Inv r)

-- The server is about to use the word, or the client about to store one.
abbrev pub server_uses : ServerAt → Bool
server_uses ServerAt.terminating = true
server_uses ServerAt.printing = true
server_uses _ = false

abbrev pub client_uses : ClientAt → Bool
client_uses ClientAt.scanning = true
client_uses _ = false

module _ (sem : PosixSem) {garbage : List ℕ} {s : State} (r : Reach sem garbage s)
    (fine : s.wait_failed ≡ false) where
  -- While no `sem_wait` of the server has failed, the client does not stand before its `scanf` when
  -- the server is about to use the shared word.
  word_is_exclusive : server_uses s.server ≡ true → client_uses s.client ≡ false
  word_is_exclusive h = ground (arith, Reach-Inv sem r)

  -- While no `sem_wait` of the server has failed, the server has printed of each word that the client
  -- has scanned, once and in order, the bytes before the first zero, and at most 1023 of them: of
  -- all words, or of all but the last, which stands in the shared memory.
  pub words_in_order :
      (map as_printed s.scanned ≡ s.printed)
      ⊎ (map as_printed s.scanned ≡ s.printed ++ as_printed s.word ∷ [])
  words_in_order = ground (arith, Reach-Inv sem r)
