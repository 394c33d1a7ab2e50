-- ===== src/Pty/Open/Laws.antt =====
-- The descriptors that `ptyMasterOpen` and `ptyFork` leave open.
use myfreelib.Base.{
  if◌then◌else◌, ℕ, ℤ, pos, minus_one, eq_ℤ, ltb_ℤ, List, [], ◌∷◌, ◌≡◌, ◌⊎◌, Option, Bool, false,
  length, ◌<◌, arith,
}
use myfreelib.Pty.Calls.{fork, Call, Reply, History, open_fds}
use myfreelib.Pty.Open.{
  Opened, pty_master_open, Forked, failed, in_parent, in_child, child_failed, child_part, fork_part,
  pty_fork,
}

-- Whatever the calls return, `ptyMasterOpen` either returns -1 and has left no descriptor open that
-- was not open before, or returns the one descriptor that it has left open, with a name that is
-- shorter than the caller's buffer.
pty_master_open_keeps_one :
    (os : History → Call → Reply) (t : History) (sn_len : ℕ)
    → let (m, u) = pty_master_open sn_len os t in
      ((m.fd ≡ minus_one) × (open_fds u ≡ open_fds t))
      ⊎ ((eq_ℤ m.fd minus_one ≡ false)
          × (open_fds u ≡ m.fd ∷ open_fds t)
          × (length m.slave_name < sn_len))
unfolding pty_master_open
pty_master_open_keeps_one os t sn_len = ground arith

-- The descriptors above the standard three.
abbrev pub above_two : List ℤ → List ℤ
above_two [] = []
above_two (fd ∷ fds) = if ltb_ℤ (pos 2) fd then fd ∷ above_two fds else above_two fds

-- What each way to return from `ptyFork` leaves open. The child's failures are followed by its end.
abbrev pub Leaves : List ℤ → Forked → List ℤ → Type 0
Leaves before (failed errno) after = after ≡ before
Leaves before (in_parent pid master_fd) after = after ≡ master_fd ∷ before
Leaves before in_child after = above_two after ≡ above_two before
Leaves before child_failed after = Unit

child_part-Leaves :
    (os : History → Call → Reply) (t : History) (termios winsize : Bool) (mfd : ℤ) (name : List ℕ)
    (before : List ℤ)
    → open_fds t ≡ mfd ∷ before
    → let (f, u) = child_part termios winsize mfd name os t in Leaves before f (open_fds u)
unfolding child_part
child_part-Leaves os t termios winsize mfd name before h = ground arith

fork_part-Leaves :
    (os : History → Call → Reply) (t : History) (termios winsize : Bool) (m : Opened)
    (before : List ℤ)
    → open_fds t ≡ m.fd ∷ before
    → let (f, u) = fork_part termios winsize m os t in Leaves before f (open_fds u)
unfolding fork_part
fork_part-Leaves os t termios winsize m before h =
    ground (
      arith,
      child_part-Leaves os ((fork, os t fork) ∷ t) termios winsize m.fd m.slave_name before h,
    )

-- Whatever the calls return, after `ptyFork` the process has open what it had before when it returns
-- -1 without a child, the master descriptor besides in the parent, and, in the child that it has set
-- up, no descriptor above 2 that was not open before.
pub pty_fork_keeps_the_master :
    (os : History → Call → Reply) (t : History) (sn_len : Option ℕ) (termios winsize : Bool)
    → let (f, u) = pty_fork sn_len termios winsize os t in Leaves (open_fds t) f (open_fds u)
unfolding pty_fork
pty_fork_keeps_the_master os t sn_len termios winsize =
    let (m, u) = pty_master_open 128 os t in
    ground (
      arith,
      pty_master_open_keeps_one os t 128,
      fork_part-Leaves os u termios winsize m (open_fds t),
    )
