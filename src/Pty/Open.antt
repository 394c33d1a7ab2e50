-- ===== src/Pty/Open.antt =====
-- `ptyMasterOpen` and `ptyFork` of pty_demo.c.
pub mod Laws
use myfreelib.Base.{
  ℕ, ℤ, pos, minus_one, eq_ℤ, ltb_ℤ, String, List, [], Option, some, none, Bool, ltb, length, not,
  if◌then◌else◌,
}
use myfreelib.Base.Sys.{pure, call, ◌>>=◌, ◌>>◌}
use myfreelib.Pty.Calls.{
  Io, print, print_text, posix_openpt, grantpt, unlockpt, ptsname, close, fork, setsid, open_slave,
  set_controlling, set_termios, set_winsize, dup2,
}

-- `EOVERFLOW`
abbrev eoverflow : ℕ
eoverflow = 75

-- What a call leaves: the value returned, `errno`, and the name copied to `slaveName`.
pub record Opened : Type 0 where
  pub fd : ℤ
  pub errno : ℕ
  pub slave_name : List ℕ

-- Close the descriptor, put back the `errno` of the call that failed, and return -1.
abbrev give_up : (fd : ℤ) (saved_errno : ℕ) → Io Opened
give_up fd saved_errno = do
  call (close fd)
  pure (record { fd = minus_one; errno = saved_errno; slave_name = [] })

-- The end of `ptyMasterOpen`, with the name.
name_fits : (master_fd : ℤ) (errno sn_len : ℕ) (p : List ℕ) → Io Opened
name_fits master_fd errno sn_len p = do
  call (print_text "slave pty: %s\n" p)
  if ltb (length p) sn_len
      then pure (record { fd = master_fd; errno = errno; slave_name = p })
      else give_up master_fd eoverflow

named : (master_fd : ℤ) (errno sn_len : ℕ) → Option (List ℕ) → Io Opened
unfolding name_fits
named master_fd errno sn_len none = give_up master_fd errno
named master_fd errno sn_len (some p) = name_fits master_fd errno sn_len p

pub pty_master_open : (sn_len : ℕ) → Io Opened
unfolding named
pty_master_open sn_len = do
  m ← call posix_openpt
  if eq_ℤ m.ret minus_one
      then (do
        call (print "posix_openpt failed.\n" [])
        pure (record { fd = minus_one; errno = m.errno; slave_name = [] }))
      else (do
        g ← call (grantpt m.ret)
        if eq_ℤ g.ret minus_one then give_up m.ret g.errno else (do
          u ← call (unlockpt m.ret)
          if eq_ℤ u.ret minus_one
              then give_up m.ret u.errno
              else (do p ← call (ptsname m.ret); named m.ret p.errno sn_len p.name)))

-- How `ptyFork` returns: -1 before there is a child, the child's number in the parent with the
-- master descriptor, 0 in the child, or -1 in the child.
pub data Forked : Type 0 where
  failed : (errno : ℕ) → Forked
  in_parent : (pid master_fd : ℤ) → Forked
  in_child : Forked
  child_failed : Forked

-- Descriptors 0, 1 and 2 become the slave's.
attach : (slave_fd : ℤ) → Io Forked
attach slave_fd = do
  a ← call (dup2 slave_fd 0)
  if not (eq_ℤ a.ret (pos 0)) then pure child_failed else (do
    b ← call (dup2 slave_fd 1)
    if not (eq_ℤ b.ret (pos 1)) then pure child_failed else (do
      c ← call (dup2 slave_fd 2)
      if not (eq_ℤ c.ret (pos 2))
          then pure child_failed
          else if ltb_ℤ (pos 2) slave_fd
          then (do call (close slave_fd); pure in_child)
          else pure in_child))

-- The two optional settings: each is made if its pointer is not null.
optional_settings : (termios winsize : Bool) (slave_fd : ℤ) → Io Forked
unfolding attach
optional_settings termios winsize slave_fd = do
  t ←
      if termios
      then (do r ← call (set_termios slave_fd); pure (eq_ℤ r.ret minus_one))
      else pure Bool.false
  if t then pure child_failed else (do
    w ←
        if winsize
        then (do r ← call (set_winsize slave_fd); pure (eq_ℤ r.ret minus_one))
        else pure Bool.false
    if w then pure child_failed else attach slave_fd)

-- The child's part of `ptyFork`.
pub child_part : (termios winsize : Bool) (mfd : ℤ) (slname : List ℕ) → Io Forked
unfolding optional_settings
child_part termios winsize mfd slname = do
  s ← call setsid
  if eq_ℤ s.ret minus_one then pure child_failed else (do
    call (close mfd)
    f ← call (open_slave slname)
    if eq_ℤ f.ret minus_one then pure child_failed else (do
      c ← call (set_controlling f.ret)
      if eq_ℤ c.ret minus_one then pure child_failed else optional_settings termios winsize f.ret))

-- `ptyFork` from the `fork` on.
pub fork_part : (termios winsize : Bool) → Opened → Io Forked
fork_part termios winsize m = do
  p ← call fork
  if eq_ℤ p.ret minus_one
      then (do call (close m.fd); pure (failed p.errno))
      else if not (eq_ℤ p.ret (pos 0))
      then pure (in_parent p.ret m.fd)
      else child_part termios winsize m.fd m.slave_name

-- Is the caller's buffer, if there is one, too small?
abbrev too_small : Option ℕ → List ℕ → Bool
too_small none slname = Bool.false
too_small (some sn_len) slname = not (ltb (length slname) sn_len)

-- `ptyFork`; `sn_len` is the size of `slaveName`, if that is not null.
pub pty_fork : (sn_len : Option ℕ) (termios winsize : Bool) → Io Forked
unfolding fork_part
pty_fork sn_len termios winsize = do
  m ← pty_master_open 128
  if eq_ℤ m.fd minus_one
      then pure (failed m.errno)
      else if too_small sn_len m.slave_name
      then (do call (close m.fd); pure (failed eoverflow))
      else fork_part termios winsize m
