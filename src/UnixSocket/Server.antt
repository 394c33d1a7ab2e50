-- ===== src/UnixSocket/Server.antt =====
-- `str_server_demo`, the thread function `str_server`, and `data_server_demo` of unix_socket_demo.c.
pub mod Laws
use myfreelib.Base.{
  ℕ, zero, suc, ℤ, pos, minus_one, eq_ℤ, is_pos, int, List, [], ◌∷◌, ◌++◌, length, drop, Option,
  some, none, if◌then◌else◌,
}
use myfreelib.Base.Sys.{pure, call, ◌>>=◌, ◌>>◌}
use myfreelib.UnixSocket.Calls.{
  Reply, Io, sock_stream, sock_dgram, print, print_message, print_accepted, print_from, socket,
  remove_path, bind, listen, accept, malloc, pthread_attr_init, pthread_attr_setdetachstate,
  pthread_attr_destroy, pthread_create, pthread_self, free, close, recv, recvfrom,
}

-- A buffer after bytes are received into it.
abbrev pub stored : Reply → List ℕ → List ℕ
stored r msg = r.bytes ++ drop (length r.bytes) msg

-- The loop of `str_server`, on fuel, with the buffer; `none` means that it still runs.
unfoldable pub show_messages : ℕ → (pid cfd : ℤ) (msg : List ℕ) → Io (Option (Unit {0}))
show_messages zero pid cfd msg = pure none
show_messages (suc fuel) pid cfd msg = do
  r ← call (recv cfd)
  if is_pos r.ret
      then (do call (print_message pid (stored r msg)); show_messages fuel pid cfd (stored r msg))
      else pure (some tt)

-- How the thread function ends: it returns, it still runs, or it reads through a null pointer.
pub data ThreadEnd : Type 0 where
  returned still_running fault : ThreadEnd

finish : (pid cfd : ℤ) → Option (Unit {0}) → Io ThreadEnd
finish pid cfd none = pure still_running
finish pid cfd (some x) = do
  call (print "thread[%lu]: client leave\n" (int pid ∷ []))
  call (close cfd)
  call (free (some cfd))
  pure returned

unfoldable pub str_server : (fuel : ℕ) (pcfd : Option ℤ) (garbage : List ℕ) → Io ThreadEnd
unfolding finish
str_server fuel none garbage = do call pthread_self; pure fault
str_server fuel (some cfd) garbage = do
  p ← call pthread_self
  done ← show_messages fuel p.ret cfd garbage
  finish p.ret cfd done

-- The part of the loop of `str_server_demo` after a client was accepted.
pub start_thread : (cfd : ℤ) → Io (Unit {0})
start_thread cfd = do
  m ← call malloc
  let pcfd : Option ℤ = if m.is_null then none else some cfd
  call pthread_attr_init
  call pthread_attr_setdetachstate
  p ← call (pthread_create pcfd)
  if eq_ℤ p.ret (pos 0) then pure tt else (do
    call (print "pthread_create failed.\n" [])
    call (close cfd)
    call (free pcfd)
    pure tt)
  call pthread_attr_destroy
  pure tt

-- So many rounds of the loop; `some` is the value that `str_server_demo` returns.
pub accept_clients : ℕ → (sfd : ℤ) → Io (Option ℤ)
accept_clients zero sfd = pure none
accept_clients (suc n) sfd = do
  c ← call (accept sfd)
  if eq_ℤ c.ret minus_one
      then (do call (print "accept failed.\n" []); pure (some minus_one))
      else (do call (print_accepted c.ret c.path); start_thread c.ret; accept_clients n sfd)

pub str_server_demo : (rounds : ℕ) → Io (Option ℤ)
str_server_demo rounds = do
  s ← call (socket sock_stream)
  if eq_ℤ s.ret minus_one
      then (do call (print "socket failed.\n" []); pure (some minus_one))
      else (do
        call remove_path
        call (print "len of sun_path=%lu\n" (int (pos 108) ∷ []))
        b ← call (bind s.ret)
        if eq_ℤ b.ret minus_one
            then (do call (print "bind failed.\n" []); pure (some minus_one))
            else (do
              l ← call (listen s.ret)
              if eq_ℤ l.ret minus_one
                  then (do call (print "listen failed.\n" []); pure (some minus_one))
                  else (do
                    call (print "waitting client to connect\n" [])
                    accept_clients rounds s.ret)))

-- The loop of `data_server_demo`, on fuel.
show_datagrams : ℕ → (sfd : ℤ) (msg : List ℕ) → Io (Option (Unit {0}))
show_datagrams zero sfd msg = pure none
show_datagrams (suc fuel) sfd msg = do
  r ← call (recvfrom sfd)
  if eq_ℤ r.ret minus_one
      then pure (some tt)
      else (do call (print_from r.path (stored r msg)); show_datagrams fuel sfd (stored r msg))

leave : (sfd : ℤ) → Option (Unit {0}) → Io (Option ℤ)
leave sfd none = pure none
leave sfd (some x) = do call (print "bye...\n" []); call (close sfd); pure (some (pos 0))

pub data_server_demo : (fuel : ℕ) (garbage : List ℕ) → Io (Option ℤ)
unfolding leave
data_server_demo fuel garbage = do
  s ← call (socket sock_dgram)
  if eq_ℤ s.ret minus_one
      then (do call (print "socket failed.\n" []); pure (some minus_one))
      else (do
        call remove_path
        b ← call (bind s.ret)
        if eq_ℤ b.ret minus_one
            then (do call (print "bind failed.\n" []); pure (some minus_one))
            else (do done ← show_datagrams fuel s.ret garbage; leave s.ret done))
