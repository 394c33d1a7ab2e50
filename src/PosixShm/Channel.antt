-- ===== src/PosixShm/Channel.antt =====
-- The shared word as a channel with room for one word: what the loops of `client_demo` and
-- `server_demo` promise while no `sem_wait` of the server has failed.
use myfreelib.Base.{
  ℕ, Bool, true, false, List, [], ◌∷◌, ◌≡◌, ◌⊎◌, map, AllNonzero, inl, inr, arith, ◌==◌, ◌<◌,
  length, some, none, if◌then◌else◌, not,
}
use myfreelib.Base.Channel.{Channel, ChannelStep, Simulates}
use myfreelib.Base.Semaphore.{PosixSem}
use myfreelib.PosixShm.Model.{
  data_size, ServerAt, ClientAt, State, ServerStep, ClientStep, Step, server_moves, client_moves,
  Reach,
}
use myfreelib.PosixShm.Words.{
  as_printed, as_printed-terminated, as_printed-short, length-as_printed, as_printed-AllNonzero,
  map-as_printed,
}
use myfreelib.PosixShm.Safety.{Inv, Reach-Inv}

-- One word that fits into `shmp->data` with a zero after it, and has none in it.
abbrev pub IsWord : List (List ℕ) → Type 0
IsWord (w ∷ []) = (length w < data_size) × AllNonzero w
IsWord _ = ⊥

-- Does the segment hold a word that is not yet printed?
abbrev pub full : ServerAt → ClientAt → (read : ℕ) → Bool
full ServerAt.terminating c r = true
full ServerAt.printing c r = true
full ServerAt.posting c r = false
full ServerAt.waiting ClientAt.posting r = true
full ServerAt.waiting ClientAt.scanning r = false
full ServerAt.waiting ClientAt.waiting r = not (r == 0)

-- Of each word the channel has what the server prints of it.
abbrev pub abstract : State → Channel (List ℕ)
abstract s = record {
  put = map as_printed s.scanned;
  slot = if full s.server s.client s.read then some (as_printed s.word ∷ []) else none;
  taken = s.printed;
}

abbrev Refines : (s u : State) → Type 0
Refines s u = Simulates IsWord (abstract s) (abstract u)

module _ (sem : PosixSem) where
  ServerStep-Refines :
      {s u : State} → ServerStep sem s u → Inv s → u.wait_failed ≡ false → Refines s u
  ServerStep-Refines (ServerStep.waited p h) i f = inl (ground (arith, sem.wait_takes h))
  ServerStep-Refines (ServerStep.wait_fails p) i f = absurd (cc)
  ServerStep-Refines {s} (ServerStep.terminated p) i f =
      inl (ground (arith, as_printed-terminated s.word))
  ServerStep-Refines {s} (ServerStep.printed_word p) i f = inr (
      ChannelStep.takes (as_printed s.word ∷ []) (ground arith)
        (ground (arith, as_printed-short s.word)))
  ServerStep-Refines (ServerStep.posted p h) i f = inl (ground (arith, sem.post_gives h))
  ServerStep-Refines (ServerStep.post_fails p) i f = inl (ground arith)

  ClientStep-Refines :
      {s u : State} → ClientStep sem s u → Inv s → u.wait_failed ≡ false → Refines s u
  ClientStep-Refines (ClientStep.waited p h) i f = inl (ground (arith, sem.wait_takes h))
  ClientStep-Refines (ClientStep.wait_fails p) i f = inl (ground arith)
  ClientStep-Refines {s} (ClientStep.scanned_word w p) i f = inr (
      ChannelStep.puts (as_printed w ∷ []) (ground arith)
        (length-as_printed w, as_printed-AllNonzero w) (ground (arith, map-as_printed s.scanned w)))
  ClientStep-Refines (ClientStep.overrun w v p h) i f = inl (ground arith)
  ClientStep-Refines (ClientStep.scan_ends p) i f = inl (ground arith)
  ClientStep-Refines (ClientStep.posted p h) i f = inl (ground (arith, sem.post_gives h))
  ClientStep-Refines (ClientStep.post_fails p) i f = inl (ground arith)

  -- While no `sem_wait` of the server has failed, every step of the two programs from a state that is
  -- reached is a step of a channel with room for one word, or leaves the channel as it is. What goes
  -- through the channel is of each word that the client scans, however long, the bytes before the
  -- first zero, and at most 1023 of them.
  pub words_refine_channel :
      {garbage : List ℕ} {s u : State}
      → Reach sem garbage s
      → Step sem s u
      → u.wait_failed ≡ false
      → (abstract u ≡ abstract s) ⊎ ChannelStep IsWord (abstract s) (abstract u)
  words_refine_channel r (server_moves a w) f = ServerStep-Refines w (Reach-Inv sem r) f
  words_refine_channel r (client_moves a w) f = ClientStep-Refines w (Reach-Inv sem r) f
