-- ===== src/Pty/Session.antt =====
-- `pty_demo` and `ttyReset` of pty_demo.c: the shell and the loop together.
pub mod Laws
use myfreelib.Base.{
  ℕ, zero, suc, ℤ, pos, minus_one, eq_ℤ, List, [], ◌∷◌, Option, some, none, codes, ◌≡◌, ◌≢◌, ◌⊎◌,
  inl, inr, not, Bool, true, false, arith, if◌then◌else◌,
}
use myfreelib.Base.Sys.{pure, call, ◌>>=◌, ◌>>◌}
use myfreelib.Pty.Calls.{
  Call, Reply, History, Io, tcgetattr, get_winsize, getenv_shell, execlp, atexit_reset, set_termios,
}
use myfreelib.Pty.Open.{Forked, failed, in_parent, in_child, child_failed, pty_fork}
use myfreelib.Pty.Relay.{round, relay}

-- The process returns from `pty_demo`, or goes on as a shell.
pub data Ended : Type 0 where
  returned : ℤ → Ended
  is_shell : (shell : List ℕ) → Ended

abbrev default_shell : List ℕ
default_shell = codes "/bin/bash"

abbrev pub shell_of : Option (List ℕ) → List ℕ
shell_of none = default_shell
shell_of (some []) = default_shell
shell_of (some (c ∷ cs)) = c ∷ cs

-- The child: `execlp` returns only when it fails.
pub run_shell : Io Ended
run_shell = do
  e ← call getenv_shell
  x ← call (execlp (shell_of e.name))
  if eq_ℤ x.ret minus_one then pure (returned minus_one) else pure (is_shell (shell_of e.name))

-- The parent; `none` means that the loop still runs.
abbrev pub ended_by : Option ℤ → Option Ended
ended_by none = none
ended_by (some r) = some (returned r)

pub attend : (fuel : ℕ) (master : ℤ) → Io (Option Ended)
attend fuel master = do
  a ← call atexit_reset
  if not (eq_ℤ a.ret (pos 0))
      then pure (some (returned minus_one))
      else (do r ← relay fuel master; pure (ended_by r))

pub after_fork : (fuel : ℕ) → Forked → Io (Option Ended)
after_fork fuel (failed errno) = pure (some (returned minus_one))
after_fork fuel child_failed = pure (some (returned minus_one))
after_fork fuel in_child = do e ← run_shell; pure (some e)
after_fork fuel (in_parent pid master) = attend fuel master

pub pty_demo : (fuel : ℕ) → Io (Option Ended)
unfolding after_fork attend run_shell
pty_demo fuel = do
  t ← call tcgetattr
  if eq_ℤ t.ret minus_one then pure (some (returned minus_one)) else (do
    w ← call get_winsize
    if eq_ℤ w.ret minus_one
        then pure (some (returned minus_one))
        else (do f ← pty_fork (some 128) true true; after_fork fuel f))

-- The function that runs at the exit.
tty_reset : Io (Unit {0})
tty_reset = do call (set_termios (pos 0)); pure tt
