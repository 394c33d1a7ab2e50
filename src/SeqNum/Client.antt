-- ===== src/SeqNum/Client.antt =====
-- pipe_client.c.
use myfreelib.Base.{
  Option, some, none, ◌≡◌, arith, ℕ, ℤ, pos, negsuc, ltb, ◌-◌, ◌^◌, minus_one, eq_ℤ, int, [], ◌∷◌,
  if◌then◌else◌,
}
use myfreelib.Base.Sys.{pure, call, ◌>>=◌, ◌>>◌}
use myfreelib.SeqNum.Calls.{
  Call, Reply, History, Response, Reply, Io, client_fifo, server_fifo, read_only, write_only, print,
  getpid, mkfifo, atexit_unlink, unlink, open_fifo, write_request, read_response,
}
use myfreelib.SeqNum.Server.{request_size, response_size, report_if_failed}

-- `removeFifo`
remove_fifo : (pid : ℕ) → Io (Unit {0})
remove_fifo pid = do call (unlink (client_fifo pid)); pure tt

-- What `resp` holds after the read: unless it returns `sizeof(resp)`, some other number may stand
-- there, `garbage`.
abbrev received : Reply → Response → Response
received r garbage = if eq_ℤ r.ret response_size then r.response else garbage

-- The `int` with this bit pattern of 32 bits.
abbrev pub signed : (pattern : ℕ) → ℤ
signed n = if ltb n (2 ^ 31) then pos n else negsuc (2 ^ 32 - 1 - n)

-- The part of `main` after `atexit`: send the request, wait for the response, print it.
unfoldable pub ask : (pid : ℕ) (garbage : Response) → Io ℤ
ask pid garbage = do
  s ← call (open_fifo server_fifo write_only)
  report_if_failed s.ret (print "client open server fifo failed.\n" [])
  w ← call (write_request s.ret (record { pid = pid; seq_len = 1 }))
  if eq_ℤ w.ret request_size then pure tt else (do call (print "write failed.\n" []); pure tt)
  c ← call (open_fifo (client_fifo pid) read_only)
  report_if_failed c.ret (print "open client fifo failed.\n" [])
  r ← call (read_response c.ret)
  if eq_ℤ r.ret response_size
      then pure tt
      else (do call (print "read server response failed.\n" []); pure tt)
  call (print "%d\n" (int (signed (received r garbage).seq_num) ∷ []))
  pure (pos 0)

-- `main`; `garbage` is what `resp` holds before the read.
unfoldable pub main : (garbage : Response) → Io ℤ
unfolding ask
main garbage = do
  p ← call getpid
  m ← call (mkfifo (client_fifo p.request.pid))
  if eq_ℤ m.ret minus_one
      then (do call (print "client make fifo failed.\n" []); pure minus_one)
      else (do
        a ← call (atexit_unlink (client_fifo p.request.pid))
        if eq_ℤ a.ret (pos 0) then pure tt else (do call (print "atexit failed.\n" []); pure tt)
        ask p.request.pid garbage)

-- The call made last.
abbrev pub last_call : History → Option Call
last_call [] = none
last_call ((c, r) ∷ t) = some c

-- If the client's pipe is made and the response is read whole, then `main` returns 0 and the last
-- thing it does is to print the number of that response, whatever the other calls return. (The
-- system answers by the call here, since no call but prints is made twice.)
pub client_prints_its_number :
    (answer : Call → Reply) (t : History) (garbage : Response) (pid : ℕ) (fd : ℤ)
    → pid ≡ (answer getpid).request.pid
    → fd ≡ (answer (open_fifo (client_fifo pid) read_only)).ret
    → (answer (mkfifo (client_fifo pid))).ret ≡ pos 0
    → (answer (read_response fd)).ret ≡ response_size
    → let (ret, u) = main garbage (λ _ c. answer c) t in
      (ret ≡ pos 0)
      × (last_call u
          ≡ some (print "%d\n" (int (signed (answer (read_response fd)).response.seq_num) ∷ [])))
unfolding main
client_prints_its_number answer t garbage pid fd p q m r = ground arith
