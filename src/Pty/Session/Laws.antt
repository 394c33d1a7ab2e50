-- ===== src/Pty/Session/Laws.antt =====
-- How `pty_demo` can end, and the descriptors that it leaves.
use myfreelib.Base.{
  ℕ, zero, suc, ℤ, minus_one, List, [], ◌∷◌, Option, some, none, ◌≡◌, ◌≢◌, refl, ◌∙◌, true, arith,
}
use myfreelib.Pty.Calls.{
  Call, Reply, History, open_fds, tcgetattr, get_winsize, getenv_shell, atexit_reset,
}
use myfreelib.Pty.Open.{Forked, failed, in_parent, in_child, child_failed, pty_fork}
use myfreelib.Pty.Open.Laws.{Leaves, above_two, pty_fork_keeps_the_master}
use myfreelib.Pty.Relay.{copy, round, relay}
use myfreelib.Pty.Session.{
  Ended, returned, is_shell, shell_of, ended_by, run_shell, attend, after_fork, pty_demo,
}

-- What each end of `pty_demo` means, with the descriptors open before it and after it.
abbrev pub Ends : List ℤ → Option Ended → List ℤ → Type 0
Ends before none after = (master : ℤ) × (after ≡ master ∷ before)
Ends before (some (returned r)) after = r ≡ minus_one
Ends before (some (is_shell shell)) after = (above_two after ≡ above_two before) × (shell ≢ [])

round-open_fds :
    (os : History → Call → Reply) (t : History) (master : ℤ)
    → open_fds (round master os t).1 ≡ open_fds t
unfolding round copy
round-open_fds os t master = ground arith

shell_of-nonempty : (name : Option (List ℕ)) → shell_of name ≢ []
shell_of-nonempty none e = cc
shell_of-nonempty (some []) e = cc
shell_of-nonempty (some (c ∷ cs)) e = cc

relay-Ends :
    (fuel : ℕ) (master : ℤ) (os : History → Call → Reply) (t : History) (before : List ℤ)
    → open_fds t ≡ master ∷ before
    → let (r, u) = relay fuel master os t in Ends before (ended_by r) (open_fds u)
unfolding relay
relay-Ends zero master os t before h = (master, h)
relay-Ends (suc fuel) master os t before h =
    let u = (round master os t).1 in
    ground (arith, relay-Ends fuel master os u before (round-open_fds os t master ∙ h))

after_fork-Ends :
    (fuel : ℕ) (f : Forked) (os : History → Call → Reply) (t : History) (before : List ℤ)
    → Leaves before f (open_fds t)
    → let (e, u) = after_fork fuel f os t in Ends before e (open_fds u)
unfolding after_fork attend run_shell
after_fork-Ends fuel (failed errno) os t before h = refl
after_fork-Ends fuel child_failed os t before h = refl
after_fork-Ends fuel in_child os t before h =
    ground (arith, shell_of-nonempty (os t getenv_shell).name)
after_fork-Ends fuel (in_parent pid master) os t before h =
    ground (arith, relay-Ends fuel master os ((atexit_reset, os t atexit_reset) ∷ t) before h)

-- Whatever the calls return, `pty_demo` returns -1 if it returns, in the parent or in the child; a child that becomes a
-- shell has no descriptor above 2 open that was not open before, and its program's name is not
-- empty; and while the loop runs, the process has the master's descriptor open besides those it had.
pub pty_demo-Ends :
    (os : History → Call → Reply) (t : History) (fuel : ℕ)
    → let (e, u) = pty_demo fuel os t in Ends (open_fds t) e (open_fds u)
unfolding pty_demo
pty_demo-Ends os t fuel =
    let v =
      (get_winsize, os ((tcgetattr, os t tcgetattr) ∷ t) get_winsize)
      ∷ (tcgetattr, os t tcgetattr)
      ∷ t in
    let (f, u) = pty_fork (some 128) true true os v in
    ground (
      arith,
      after_fork-Ends fuel f os u (open_fds t)
          (pty_fork_keeps_the_master os v (some 128) true true),
    )
