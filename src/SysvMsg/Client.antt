-- ===== src/SysvMsg/Client.antt =====
-- sysv_msg_client.c.
pub mod Laws
use myfreelib.Base.{
  String, str, ℕ, zero, suc, ℤ, pos, minus_one, eq_ℤ, ◌+ℤ◌, str, int, Option, some, none, List, [],
  ◌∷◌, length, codes, same_text, ltb, ◌==◌, not, ◌||◌, ◌-◌, ◌+◌, if◌then◌else◌,
}
use myfreelib.Base.Sys.{pure, call, ◌>>=◌, ◌>>◌}
use myfreelib.SysvMsg.Calls.{
  Request, Response, Reply, Io, resp_mt_failure, resp_mt_data, path_max, print, print_text, atexit,
  open_server_queue, create_private_queue, send_request, receive_response, msgctl, open_output,
  truncate_output, rewind_output, write_output, close,
}

-- `IPC_RMID`
abbrev ipc_rmid : ℕ
ipc_rmid = 0

-- `removeQueue`
remove_queue : (client_id : ℤ) → Io (Unit {0})
remove_queue client_id = do
  r ← call (msgctl client_id ipc_rmid)
  if eq_ℤ r.ret minus_one
      then (do call (print "fail to remove messgae %d.\n" (int client_id ∷ [])); pure tt)
      else pure tt

-- `resp` after a `msgrcv`: as it was, if that fails. Of `data` only the bytes received last are kept,
-- since no more are written to the file.
abbrev pub refill : Response → Reply → Response
refill resp r = if eq_ℤ r.ret minus_one then resp else r.response

-- `if(write(fd, resp.data, msglen) == -1) printf("write fail.\n")`
abbrev pub store : (fd : ℤ) → Response → (msglen : ℤ) → Io (Unit {0})
store fd resp msglen = do
  w ← call (write_output fd resp.data_bytes msglen)
  if eq_ℤ w.ret minus_one then (do call (print "write fail.\n" []); pure tt) else pure tt

-- The loop of `main`, on fuel, with `totBytes` and `numMsgs`; `none` means that the fuel ran out.
pub receive_rest :
    ℕ → (client_id fd : ℤ) → Response → (tot_bytes : ℤ) → (num_msgs : ℕ) → Io (Option (ℤ × ℕ))
receive_rest zero client_id fd resp tot_bytes num_msgs = pure none
receive_rest (suc fuel) client_id fd resp tot_bytes num_msgs =
    if resp.mtype == resp_mt_data
    then (do
      r ← call (receive_response client_id)
      if eq_ℤ r.ret minus_one then (do call (print "msgrcv fail.\n" []); pure tt) else pure tt
      store fd (refill resp r) r.ret
      receive_rest fuel client_id fd (refill resp r) (tot_bytes +ℤ r.ret) (num_msgs + 1))
    else pure (some (tot_bytes, num_msgs))

-- The end of `main`.
abbrev pub finish : (fd : ℤ) → Option (ℤ × ℕ) → Io (Option ℤ)
finish fd none = pure none
finish fd (some (tot_bytes, num_msgs)) = do
  call (close fd)
  call (print "received %ld bytes (%d messgae)\n" (int tot_bytes ∷ int (pos num_msgs) ∷ []))
  pure (some (pos 0))

-- `main` from the `open` of the output file on, with the first response.
pub save : (fuel : ℕ) (client_id : ℤ) → Response → (msglen : ℤ) → Io (Option ℤ)
save fuel client_id resp msglen = do
  o ← call open_output
  call (truncate_output o.ret)
  call (rewind_output o.ret)
  store o.ret resp msglen
  done ← receive_rest fuel client_id o.ret resp msglen 1
  finish o.ret done

-- `main` from the request on.
pub transfer : (fuel : ℕ) (server_id client_id : ℤ) (pathname : List ℕ) → Io (Option ℤ)
transfer fuel server_id client_id pathname = do
  s ← call (send_request server_id (record { client_id = client_id; pathname = pathname }))
  if eq_ℤ s.ret minus_one
      then (do call (print "send messgae to server fail.\n" []); pure (some minus_one))
      else (do
        r ← call (receive_response client_id)
        if eq_ℤ r.ret minus_one
            then (do
              call (print "fail to get messgae from client queue.\n" [])
              pure (some minus_one))
            else if r.response.mtype == resp_mt_failure
            then (do call (print_text r.response.data_bytes); pure (some minus_one))
            else save fuel client_id r.response r.ret)

-- `main` with `argc`, the program's name and the bytes of `argv[1]`.
pub main : (fuel argc : ℕ) (argv0 : String) (argv1 : List ℕ) → Io (Option ℤ)
main fuel argc argv0 argv1 =
    if not (argc == 2) || (same_text argv1 (codes "--help") || same_text argv1 (codes "-h"))
    then (do call (print "%s pathname\n" (str argv0 ∷ [])); pure (some minus_one))
    else if ltb (path_max - 1) (length argv1)
    then (do call (print "pathname too long.\n" []); pure (some minus_one))
    else (do
      q ← call open_server_queue
      if eq_ℤ q.ret minus_one
          then (do call (print "fail to open server messgae.\n" []); pure (some minus_one))
          else (do
            c ← call create_private_queue
            if eq_ℤ c.ret minus_one
                then (do
                  call (print "fail to create client messgae queue.\n" [])
                  pure (some minus_one))
                else (do
                  a ← call (atexit "removeQueue")
                  if eq_ℤ a.ret (pos 0)
                      then transfer fuel q.ret c.ret argv1
                      else (do call (print "ateixt fail.\n" []); pure (some minus_one)))))
