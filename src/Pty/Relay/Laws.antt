-- ===== src/Pty/Relay/Laws.antt =====
-- What the loop of `pty_demo` copies.
use myfreelib.Base.{
  ℕ, zero, suc, ℤ, pos, eq_ℤ, ◌&&◌, not, List, [], ◌∷◌, ◌==◌, ◌≡◌, ◌≢◌, refl, if◌then◌else◌, arith,
}
use myfreelib.Pty.Calls.{Call, Reply, History, read, write}
use myfreelib.Pty.Relay.{to_size, copy, round, relay}

-- The blocks that were read from a descriptor with a count other than 0, with their counts, and the
-- blocks that were handed to `write` on a descriptor, the last first.
abbrev pub read_from : (fd : ℤ) → History → List (List ℕ × ℕ)
read_from fd [] = []
read_from fd ((read source, r) ∷ t) =
    if eq_ℤ fd source && not (to_size r.ret == 0)
    then (r.bytes, to_size r.ret) ∷ read_from fd t
    else read_from fd t
read_from fd (_ ∷ t) = read_from fd t

abbrev pub written_to : (fd : ℤ) → History → List (List ℕ × ℕ)
written_to fd [] = []
written_to fd ((write target buf n, r) ∷ t) =
    if eq_ℤ fd target then (buf, n) ∷ written_to fd t else written_to fd t
written_to fd (_ ∷ t) = written_to fd t

-- Both directions are copied.
abbrev Copied : (master : ℤ) → History → Type 0
Copied master t =
    (written_to master t ≡ read_from (pos 0) t) × (written_to (pos 1) t ≡ read_from master t)

module _ (os : History → Call → Reply) (m : ℕ) (apart : (m ≢ 0) × (m ≢ 1)) where
  round-Copied : (t : History) → Copied (pos m) t → Copied (pos m) (round (pos m) os t).1
  unfolding round copy
  round-Copied t h = ground (arith, apart)

  relay-Copied :
      (fuel : ℕ) (t : History) → Copied (pos m) t → Copied (pos m) (relay fuel (pos m) os t).1
  unfolding relay
  relay-Copied zero t h = h
  relay-Copied (suc fuel) t h =
      let c = round-Copied t h in
      let u = (round (pos m) os t).1 in ground (arith, c, relay-Copied fuel u c)

  -- Whatever the calls return, and however long the loop runs, what it hands to `write` for the shell
  -- is what it has read from the terminal, but for empty reads, and what it hands to `write` for the
  -- terminal is what it has read from the shell, block by block in order, if the master's descriptor
  -- is neither 0 nor 1. The counts are those of a `size_t`: a failed read counts 2 ^ 64 - 1 bytes.
  pub relay_copies :
      (fuel : ℕ)
      → let u = (relay fuel (pos m) os []).1 in
        (written_to (pos m) u ≡ read_from (pos 0) u) × (written_to (pos 1) u ≡ read_from (pos m) u)
  relay_copies fuel = relay-Copied fuel [] (refl, refl)
