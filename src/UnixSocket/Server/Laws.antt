-- ===== src/UnixSocket/Server/Laws.antt =====
-- Which descriptors `str_server_demo` of unix_socket_demo.c keeps.
use myfreelib.Base.{int, gain, ℕ, zero, suc, ℤ, pos, false, List, [], ◌∷◌, ◌++◌, ◌≡◌, arith}
use myfreelib.UnixSocket.Calls.{
  Call, Reply, History, malloc, open_fds, handed, accept, socket, sock_stream, remove_path, print,
  bind, listen, print_accepted,
}
use myfreelib.UnixSocket.Server.{start_thread, accept_clients, str_server_demo}

module _ (os : History → Call → Reply)
    (memory : (t : History) → (os t malloc).is_null ≡ false) where
  -- The connections that are open beside these are the ones that threads have.
  abbrev Kept : List ℤ → History → Type 0
  Kept fds t = open_fds t ≡ handed t ++ fds

  start_thread-Kept :
      (cfd : ℤ) (fds : List ℤ) (t : History)
      → open_fds t ≡ cfd ∷ handed t ++ fds
      → Kept fds (start_thread cfd os t).1
  unfolding start_thread
  start_thread-Kept cfd fds t h = ground (arith, memory t)

  accept_clients-Kept :
      (n : ℕ) (sfd : ℤ) (fds : List ℤ) (t : History)
      → Kept fds t
      → Kept fds (accept_clients n sfd os t).1
  unfolding accept_clients
  accept_clients-Kept zero sfd fds t h = h
  accept_clients-Kept (suc n) sfd fds t h =
      let c = os t (accept sfd) in
      let u = (accept sfd, c) ∷ t in
      let line = print_accepted c.ret c.path in
      let v = (line, os u line) ∷ u in
      ground (
        arith,
        start_thread-Kept c.ret fds v,
        accept_clients-Kept n sfd fds (start_thread c.ret os v).1,
      )

  -- If `malloc` never fails, then after any number of clients the descriptors that
  -- `str_server_demo` has open are its own socket, if it got one, and exactly the connections that
  -- it has handed to a thread, in the order of their acceptance.
  pub server_hands_over :
      (rounds : ℕ)
      → let (ret, u) = str_server_demo rounds os [] in
        open_fds u ≡ handed u ++ gain (os [] (socket sock_stream)).ret []
  unfolding str_server_demo
  server_hands_over rounds =
      let s = os [] (socket sock_stream) in
      let a : History = (socket sock_stream, s) ∷ [] in
      let b = (remove_path, os a remove_path) ∷ a in
      let line = print "len of sun_path=%lu\n" (int (pos 108) ∷ []) in
      let c = (line, os b line) ∷ b in
      let d = (bind s.ret, os c (bind s.ret)) ∷ c in
      let e = (listen s.ret, os d (listen s.ret)) ∷ d in
      let wait = print "waitting client to connect\n" [] in
      let f = (wait, os e wait) ∷ e in
      ground (arith, accept_clients-Kept rounds s.ret (gain s.ret []) f)
