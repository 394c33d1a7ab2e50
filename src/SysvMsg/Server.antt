-- ===== src/SysvMsg/Server.antt =====
-- sysv_msg_server.c.
pub mod Laws
use myfreelib.Base.{
  ℕ, zero, suc, ℤ, pos, minus_one, eq_ℤ, is_pos, str, int, Option, some, none, List, [], ◌∷◌, ◌++◌,
  codes, if◌then◌else◌,
}
use myfreelib.Base.Sys.{pure, call, ◌>>=◌, ◌>>◌}
use myfreelib.SysvMsg.Calls.{
  Request, Response, Io, server_key, resp_mt_failure, resp_mt_data, resp_mt_end, print, sigaction,
  atexit, create_server_queue, receive_request, send_response, msgctl, fork, open_input, read_input,
}

-- How the child process ends.
pub data Ending : Type 0 where
  exit_failure returned : Ending

-- `clean`, which passes the queue's key as the command.
pub clean : (msgid : ℤ) → Io (Unit {0})
clean msgid = do call (print "Remove message queue.\n" []); call (msgctl msgid server_key); pure tt

-- `sig_handler` up to its `exit(-1)`
pub sig_handler : (msgid : ℤ) (sig : ℤ) → Io (Unit {0})
sig_handler msgid sig = do
  call (print "Receive signal(%d).\n" (int sig ∷ []))
  call (msgctl msgid server_key)
  pure tt

abbrev pub failure : (pathname : List ℕ) → Response
failure pathname = record {
  mtype = resp_mt_failure;
  data_bytes = (codes "Couldn't open " ++ pathname) ++ codes ".\n" ++ 0 ∷ [];
}

-- The loop of `serverRequest`, on fuel; `none` means that the fuel ran out.
unfoldable pub send_file : ℕ → (client_id fd : ℤ) → Io (Option (Unit {0}))
send_file zero client_id fd = pure none
send_file (suc fuel) client_id fd = do
  r ← call (read_input fd)
  if is_pos r.ret
      then (do
        s ← call (send_response client_id (record { mtype = resp_mt_data; data_bytes = r.bytes }))
        if eq_ℤ s.ret minus_one then pure (some tt) else send_file fuel client_id fd)
      else pure (some tt)

-- What follows the loop.
abbrev end_file : (client_id : ℤ) → Option (Unit {0}) → Io (Option Ending)
end_file client_id none = pure none
end_file client_id (some _) = do
  call (send_response client_id (record { mtype = resp_mt_end; data_bytes = [] }))
  pure (some Ending.returned)

unfoldable pub server_request : ℕ → Request → Io (Option Ending)
server_request fuel req = do
  o ← call (open_input req.pathname)
  if eq_ℤ o.ret minus_one
      then (do
        call (send_response req.client_id (failure req.pathname))
        pure (some Ending.exit_failure))
      else (do done ← send_file fuel req.client_id o.ret; end_file req.client_id done)

-- One round of the loop of `main`: the parent goes on, `main` returns, or this is the child.
pub data Round : Type 0 where
  parent : Round
  main_returns : ℤ → Round
  child : Option Ending → Round

pub round : (fuel : ℕ) (server_id : ℤ) → Io Round
round fuel server_id = do
  m ← call (receive_request server_id)
  if eq_ℤ m.ret minus_one
      then (if m.interrupted
          then pure Round.parent
          else (do call (print "msgrcv fail.\n" []); pure (Round.main_returns minus_one)))
      else (do
        p ← call fork
        if eq_ℤ p.ret minus_one
            then (do call (print "fork fail.\n" []); pure (Round.main_returns (pos 0)))
            else if eq_ℤ p.ret (pos 0)
            then (do e ← server_request fuel m.request; pure (Round.child e))
            else pure Round.parent)

-- So many rounds of the loop.
pub rounds : ℕ → (fuel : ℕ) (server_id : ℤ) → Io Round
rounds zero fuel server_id = pure Round.parent
rounds (suc n) fuel server_id = do
  r ← round fuel server_id
  elim r [ Round.parent ↦ rounds n fuel server_id | ended ↦ pure ended ]

-- `main`, stopped after so many rounds.
pub main : ℕ → (fuel : ℕ) → Io Round
main n fuel = do
  q ← call create_server_queue
  if eq_ℤ q.ret minus_one
      then (do
        call (print "Create server message queue fail.\n" [])
        pure (Round.main_returns minus_one))
      else (do
        c ← call (sigaction "SIGCHLD")
        if eq_ℤ c.ret minus_one
            then (do
              call (print "Failed to create signal processor.\n" [])
              pure (Round.main_returns minus_one))
            else (do
              call (atexit "clean")
              i ← call (sigaction "SIGINT")
              if eq_ℤ i.ret minus_one
                  then (do
                    call (print "Failed to create signal processor.\n" [])
                    pure (Round.main_returns minus_one))
                  else (do
                    s ← call (sigaction "SIGTERM")
                    if eq_ℤ s.ret minus_one
                        then (do
                          call (print "Failed to create signal processor.\n" [])
                          pure (Round.main_returns minus_one))
                        else rounds n fuel q.ret)))
