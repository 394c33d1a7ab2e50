-- ===== src/SysvMsg/Reaper.antt =====
-- `grimReaper` of sysv_msg_server.c, the handler of SIGCHLD.
use myfreelib.Base.{
  ℕ, zero, suc, ℤ, is_pos, ltb, Option, some, none, [], ◌∷◌, ◌≡◌, ◌+◌, ◌-◌, ◌<◌, arith,
  if◌then◌else◌,
}
use myfreelib.Base.Sys.{Trace, Prog, pure, call, ◌>>=◌}

pub data Call : Type 0 where
  waitpid_nohang : Call  -- `waitpid(-1, NULL, WNOHANG)`

-- The return value, and `errno` after the call.
pub record Reply : Type 0 where
  pub ret : ℤ
  pub errno : ℕ

abbrev pub Io : Type 0 → Type 0
Io A = Prog Call Reply A

abbrev pub History : Type 0
History = Trace Call Reply

-- The loop, on fuel, with `errno` after it; `none` means that the fuel ran out.
reap : ℕ → (errno : ℕ) → Io (Option ℕ)
reap zero errno = pure none
reap (suc fuel) errno = do
  w ← call waitpid_nohang
  if is_pos w.ret then reap fuel w.errno else pure (some w.errno)

abbrev restore : (saved_error : ℕ) → Option ℕ → Option ℕ
restore saved_error none = none
restore saved_error (some _) = some saved_error

-- The handler, with `errno` before and after it.
grim_reaper : (fuel : ℕ) (errno : ℕ) → Io (Option ℕ)
grim_reaper fuel errno = do done ← reap fuel errno; pure (restore errno done)

-- How many children were waited for.
abbrev reaped : History → ℕ
reaped [] = 0
reaped ((waitpid_nohang, r) ∷ t) = if is_pos r.ret then suc (reaped t) else reaped t

module _ (os : History → Call → Reply) (total : ℕ)
    (ended : (t : History) → is_pos (os t waitpid_nohang).ret ≡ ltb (reaped t) total) where
  reap_takes_all :
      (saved fuel left errno : ℕ) (t : History)
      → reaped t + left ≡ total
      → left < fuel
      → let (done, u) = reap fuel errno os t in
        (reaped u ≡ total) × (restore saved done ≡ some saved)
  unfolding reap
  reap_takes_all saved zero left errno t e h = absurd (omega arith)
  reap_takes_all saved (suc fuel) left errno t e h =
      let r = os t waitpid_nohang in
      ground
        (arith, ended t, reap_takes_all saved fuel (left - 1) r.errno ((waitpid_nohang, r) ∷ t))

  -- If `waitpid` finds a child as long as fewer than `total` have been waited for, then with fuel for
  -- them the handler returns, has waited for all of them, and leaves `errno` as it was.
  reaper_takes_all :
      (fuel errno : ℕ)
      → total < fuel
      → let (e, u) = grim_reaper fuel errno os [] in (reaped u ≡ total) × (e ≡ some errno)
  unfolding grim_reaper
  reaper_takes_all fuel errno h =
      ground (arith, reap_takes_all errno fuel total errno [] (omega arith) h)
