-- ===== src/SeqNum/Server.antt =====
-- pipe_server.c.
use myfreelib.Base.{ℕ, zero, suc, ℤ, pos, minus_one, eq_ℤ, [], ◌+◌, ◌%◌, ◌^◌, if◌then◌else◌}
use myfreelib.Base.Sys.{pure, call, ◌>>=◌, ◌>>◌}
use myfreelib.SeqNum.Calls.{
  Request, Call, Io, server_fifo, client_fifo, read_only, write_only, print, print_name, mkfifo,
  atexit_unlink, unlink, open_fifo, close, ignore_sigpipe, read_request, write_response,
}

-- `sizeof(request_t)`, `sizeof(response_t)`
abbrev pub request_size : ℤ
request_size = pos 8

abbrev pub response_size : ℤ
response_size = pos 4

-- `removefifo`
removefifo : Io (Unit {0})
removefifo = do call (unlink server_fifo); pure tt

-- `if(ret == -1) printf(message)`
abbrev pub report_if_failed : ℤ → Call → Io (Unit {0})
report_if_failed ret message = if eq_ℤ ret minus_one then (do call message; pure tt) else pure tt

-- The part of the loop body from the name of the client's pipe on; returns the new `seqNum`.
unfoldable pub answer : Request → (seq_num : ℕ) → Io ℕ
answer req seq_num = do
  c ← call (open_fifo (client_fifo req.pid) write_only)
  report_if_failed c.ret (print_name "server open %s failed.\n" (client_fifo req.pid))
  w ← call (write_response c.ret (record { seq_num = seq_num }))
  if eq_ℤ w.ret response_size
      then pure tt
      else (do call (print "response client failed.\n" []); pure tt)
  d ← call (close c.ret)
  report_if_failed d.ret (print "close client_fd failed.\n" [])
  pure ((seq_num + req.seq_len) % 2 ^ 32)

-- The body of `while(1)`.
unfoldable pub round : (server_fd : ℤ) (seq_num : ℕ) → Io ℕ
unfolding answer
round server_fd seq_num = do
  r ← call (read_request server_fd)
  if eq_ℤ r.ret request_size
      then answer r.request seq_num
      else (do call (print "server get an error request.\n" []); pure seq_num)

-- So many rounds of the loop, which has no end.
unfoldable pub rounds : ℕ → (server_fd : ℤ) (seq_num : ℕ) → Io ℕ
rounds zero server_fd seq_num = pure seq_num
rounds (suc n) server_fd seq_num = do
  seq_num' ← round server_fd seq_num
  rounds n server_fd seq_num'

-- The part of `main` above the loop; returns `server_fd`.
unfoldable pub setup : Io ℤ
setup = do
  m ← call (mkfifo server_fifo)
  report_if_failed m.ret (print "server make fifo failed." [])
  call (atexit_unlink server_fifo)
  s ← call (open_fifo server_fifo read_only)
  report_if_failed s.ret (print_name "server open %s failed.\n" server_fifo)
  call (print "having client connect.\n" [])
  d ← call (open_fifo server_fifo write_only)
  report_if_failed d.ret (print_name "server open %s failed.\n" server_fifo)
  g ← call ignore_sigpipe
  report_if_failed g.ret (print "server set signal SIGPIPE SIG_IGN failed.\n" [])
  pure s.ret

-- `main`, stopped after so many rounds.
unfoldable pub main : ℕ → Io ℕ
main n = do server_fd ← setup; rounds n server_fd 0
