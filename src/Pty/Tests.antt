-- ===== src/Pty/Tests.antt =====
-- The theorems about the pseudo terminal at a system that answers in a fixed way.
use myfreelib.Base.{ℤ, pos, zero, refl, arith, true, false, some, [], ◌∷◌, ◌≡◌}
use myfreelib.Pty.Calls.{
  Call, Reply, History, open_fds, posix_openpt, open_slave, dup2, read, write,
}
use myfreelib.Pty.Relay.{copy, round, relay}
use myfreelib.Pty.Relay.Laws.{read_from, written_to, relay_copies}
use myfreelib.Pty.Session.{pty_demo}
use myfreelib.Pty.Session.Laws.{Ends, pty_demo-Ends}

abbrev returns : ℤ → Reply
returns n = record {
  ret = n;
  errno = 0;
  bytes = [];
  name = some (47 ∷ 112 ∷ []);
  stdin_ready = false;
  master_ready = true;
}

-- The child's side of a `fork` that succeeds.
abbrev child_os : History → Call → Reply
child_os t posix_openpt = returns (pos 3)
child_os t (open_slave name) = returns (pos 4)
child_os t (dup2 fd n) = returns (pos n)
child_os t c = returns (pos 0)

-- It becomes the shell.
pty_demo-Ends_example : let (e, u) = pty_demo 4 child_os [] in Ends [] e (open_fds u)
pty_demo-Ends_example = pty_demo-Ends child_os [] 4

-- The terminal and the shell both have bytes.
abbrev busy_os : History → Call → Reply
busy_os t (read (pos zero)) = record (returns (pos 2)) { bytes = 108 ∷ 115 ∷ [] }
busy_os t (read fd) = record (returns (pos 1)) { bytes = 36 ∷ [] }
busy_os t (write fd buf count) = returns (pos count)
busy_os t c = record (returns (pos 2)) { stdin_ready = true }

both_ways : written_to (pos 3) (relay 1 (pos 3) busy_os []).1 ≡ (108 ∷ 115 ∷ [], 2) ∷ []
unfolding relay round copy
both_ways = refl

relay_copies_example :
    let u = (relay 5 (pos 3) busy_os []).1 in
    (written_to (pos 3) u ≡ read_from (pos 0) u) × (written_to (pos 1) u ≡ read_from (pos 3) u)
relay_copies_example = relay_copies busy_os 3 (omega arith, omega arith) 5
