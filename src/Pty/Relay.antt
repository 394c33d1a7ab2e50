-- ===== src/Pty/Relay.antt =====
-- The loop of `pty_demo` in pty_demo.c, which copies between the terminal and the shell.
pub mod Laws
use myfreelib.Base.{
  ℕ, zero, suc, ℤ, pos, negsuc, minus_one, eq_ℤ, Bool, true, false, List, [], ◌∷◌, Option, some,
  none, ◌==◌, ◌≡◌, refl, ◌-◌, ◌^◌, if◌then◌else◌, arith,
}
use myfreelib.Base.Sys.{pure, call, ◌>>=◌, ◌>>◌}
use myfreelib.Pty.Calls.{Call, Reply, History, Io, print, select, read, write}

-- A result of `read` or `write` as a `size_t`.
abbrev to_size : ℤ → ℕ
to_size (pos n) = n
to_size (negsuc n) = 2 ^ 64 - 1 - n

-- One direction: read from a descriptor and write what was read. `true` means that the loop goes on,
-- `false` that `pty_demo` returns -1. `numRead` is a `size_t`, so only 0 is less than or equal to 0.
unfoldable pub copy : (source target : ℤ) (label : Call) → Io Bool
copy source target label = do
  r ← call (read source)
  if to_size r.ret == 0 then pure false else (do
    call label
    w ← call (write target r.bytes (to_size r.ret))
    pure (to_size w.ret == to_size r.ret))

abbrev to_shell : Call
to_shell = print "stdin-->pty:" []

abbrev to_terminal : Call
to_terminal = print "pty-->stdin:" []

-- One round of the loop.
unfoldable pub round : (master : ℤ) → Io Bool
round master = do
  s ← call (select master)
  if eq_ℤ s.ret minus_one then pure false else (do
    a ← if s.stdin_ready then copy (pos 0) master to_shell else pure true
    if a
        then (if s.master_ready then copy master (pos 1) to_terminal else pure true)
        else pure false)

-- The loop, on fuel: `none` means that it still runs.
unfoldable pub relay : ℕ → (master : ℤ) → Io (Option ℤ)
relay zero master = pure none
relay (suc fuel) master = do
  on ← round master
  if on then relay fuel master else pure (some minus_one)

-- If `select` always reports the shell's side alone, and the reads from it and the writes to the
-- terminal fail with -1, as after the shell has ended, the loop never returns.
relay_spins :
    (os : History → Call → Reply) (m : ℕ)
    → ((t : History) → (os t (select (pos m))).ret ≡ pos 1)
    → ((t : History) → (os t (select (pos m))).stdin_ready ≡ false)
    → ((t : History) → (os t (select (pos m))).master_ready ≡ true)
    → ((t : History) → (os t (read (pos m))).ret ≡ minus_one)
    → ((t : History) (b : List ℕ) (n : ℕ) → (os t (write (pos 1) b n)).ret ≡ minus_one)
    → (fuel : ℕ) (t : History) → (relay fuel (pos m) os t).0 ≡ none
unfolding relay round copy
relay_spins os m sel a b r w zero t = refl
relay_spins os m sel a b r w (suc fuel) t =
    let t' = (select (pos m), os t (select (pos m))) ∷ t in
    let x = os t' (read (pos m)) in
    let u = (read (pos m), x) ∷ t' in
    let v = (to_terminal, os u to_terminal) ∷ u in
    let n = to_size x.ret in
    ground (
      arith,
      sel t,
      a t,
      b t,
      r t',
      w v x.bytes n,
      relay_spins os m sel a b r w fuel
          ((write (pos 1) x.bytes n, os v (write (pos 1) x.bytes n)) ∷ v),
    )
