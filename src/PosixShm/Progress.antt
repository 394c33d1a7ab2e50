-- ===== src/PosixShm/Progress.antt =====
-- The server and the client of the shared word never wait for each other.
use myfreelib.Base.{
  ℕ, suc, Bool, true, false, List, [], ◌≡◌, ◌⊎◌, inl, inr, refl, sym, subst, arith, ◌<◌, ◌-◌, ltb,
}
use myfreelib.Base.Semaphore.{PosixSem}
use myfreelib.PosixShm.Model.{
  ServerAt, ClientAt, State, ServerStep, ClientStep, Step, server_moves, client_moves, Reach,
}
use myfreelib.PosixShm.Safety.{Inv, Reach-Inv}

-- The call on which the process stands would return, by the values of the semaphores.
abbrev server_ready : ServerAt → State → Bool
server_ready ServerAt.waiting s = ltb 0 s.read
server_ready _ s = true

abbrev client_ready : ClientAt → State → Bool
client_ready ClientAt.waiting s = ltb 0 s.write
client_ready _ s = true

Inv-ready :
    (s : State)
    → Inv s
    → s.wait_failed ≡ false
    → (server_ready s.server s ≡ true) ⊎ (client_ready s.client s ≡ true)
Inv-ready s i f = ground arith

module _ (sem : PosixSem) (s : State) where
  -- A step after which both processes are alive, and no `sem_wait` of the server has failed.
  abbrev pub Progress : Type 0
  Progress =
      (u : State) × Step sem s u
      × (u.server_gone ≡ false)
      × (u.client_gone ≡ false)
      × (u.wait_failed ≡ false)

  waits : {v : ℕ} → 0 < v → sem.Waits v (v - 1)
  waits {v} h =
      let e : v ≡ suc (v - 1) = omega arith in
      subst (λ w. sem.Waits w (v - 1)) (sym e) (sem.wait_returns (v - 1))

  module _ (a : s.server_gone ≡ false) (b : s.client_gone ≡ false) (f : s.wait_failed ≡ false) where
    server_progress : (w : ServerAt) → s.server ≡ w → server_ready w s ≡ true → Progress
    server_progress ServerAt.waiting p h =
        (_, server_moves a (ServerStep.waited p (waits (ground arith))), a, b, f)
    server_progress ServerAt.terminating p h =
        (_, server_moves a (ServerStep.terminated p), a, b, f)
    server_progress ServerAt.printing p h = (_, server_moves a (ServerStep.printed_word p), a, b, f)
    server_progress ServerAt.posting p h =
        (_, server_moves a (ServerStep.posted p (sem.post_returns s.write)), a, b, f)

    client_progress : (w : ClientAt) → s.client ≡ w → client_ready w s ≡ true → Progress
    client_progress ClientAt.waiting p h =
        (_, client_moves b (ClientStep.waited p (waits (ground arith))), a, b, f)
    client_progress ClientAt.scanning p h =
        (_, client_moves b (ClientStep.scanned_word [] p), a, b, f)
    client_progress ClientAt.posting p h =
        (_, client_moves b (ClientStep.posted p (sem.post_returns s.read)), a, b, f)

-- In every state that is reached with both processes alive and no failed `sem_wait` of the server,
-- one of them can take a step that is no failure: they never wait for each other.
pub words_go_on :
    (sem : PosixSem) {garbage : List ℕ} (s : State)
    → Reach sem garbage s
    → s.server_gone ≡ false
    → s.client_gone ≡ false
    → s.wait_failed ≡ false
    → Progress sem s
words_go_on sem s r a b f = elim (Inv-ready s (Reach-Inv sem r) f) [
  | inl w ↦ server_progress sem s a b f s.server refl w
  | inr w ↦ client_progress sem s a b f s.client refl w
]
