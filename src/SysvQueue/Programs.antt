-- ===== src/SysvQueue/Programs.antt =====
-- `sysv_msg_ctl`, `sysv_msg_show` and `clean` of sysv_msg_demo.c.
pub mod Laws
use Prim.Native.Nat.{bit_or}
use myfreelib.Base.{
  ℕ, zero, suc, ℤ, pos, negsuc, minus_one, eq_ℤ, int, String, List, [], ◌∷◌, Arg, if◌then◌else◌,
}
use myfreelib.Base.Sys.{Trace, Prog, pure, call, ◌>>=◌, ◌>>◌}

-- The part of `struct msqid_ds` that is used.
pub record Status : Type 0 where
  pub msg_qbytes : ℕ
  pub mode : ℕ
  pub key : ℤ
  pub msg_qnum : ℤ

pub data Call : Type 0 where
  print : String → List Arg → Call
  print_status : String → (msg_qbytes mode : ℕ) → Call
  print_row : (ind msqid : ℤ) → (key msg_qnum : ℤ) → Call
  create_queue : Call  -- `msgget(MY_KEY, IPC_CREAT | IPC_EXCL)`
  ipc_stat : (msqid : ℤ) → Call
  ipc_set : (msqid : ℤ) → Status → Call
  ipc_rmid : (msqid : ℤ) → Call
  msg_info : Call
  msg_stat : (ind : ℕ) → Call

pub record Reply : Type 0 where
  pub ret : ℤ
  pub status : Status

abbrev pub Io : Type 0 → Type 0
Io A = Prog Call Reply A

abbrev pub History : Type 0
History = Trace Call Reply

abbrev fail : (msgid : ℤ) → String → Io (ℤ × ℤ)
fail msgid message = do call (print message []); pure (minus_one, msgid)

-- `S_IRUSR|S_IWUSR|S_IRGRP`
abbrev owner_and_group : ℕ
owner_and_group = 416

-- The changes to `msg_ds`.
abbrev enlarged : Status → Status
enlarged ds = record ds { msg_qbytes = 1_024_000; mode = bit_or ds.mode owner_and_group }

-- The result and the static variable `msgid`.
pub sysv_msg_ctl : Io (ℤ × ℤ)
sysv_msg_ctl = do
  m ← call create_queue
  if eq_ℤ m.ret minus_one then fail m.ret "Create message queue fail.\n" else (do
    s ← call (ipc_stat m.ret)
    if eq_ℤ s.ret minus_one then fail m.ret "msgctl get IPC_STAT fail.\n" else (do
      call (print_status "msg_qbytes=%ld, mode=%u\n" s.status.msg_qbytes s.status.mode)
      t ← call (ipc_set m.ret (enlarged s.status))
      if eq_ℤ t.ret minus_one then fail m.ret "msgctl get IPC_SET fail.\n" else (do
        u ← call (ipc_stat m.ret)
        if eq_ℤ u.ret minus_one then fail m.ret "msgctl get IPC_STAT fail.\n" else (do
          call (
              print_status "After set: msg_qbytes=%ld, mode=%u\n" u.status.msg_qbytes u.status.mode)
          pure (pos 0, m.ret)))))

-- `clean`, which `main` registers with `atexit`.
pub clean : (msgid : ℤ) → Io (Unit {0})
clean msgid = do
  call (print "Bye!\n" [])
  if eq_ℤ msgid minus_one then pure tt else (do call (ipc_rmid msgid); pure tt)

-- The rest of the loop of `sysv_msg_show`, with the number of rounds left and the index.
pub show_from : ℕ → (ind : ℕ) → Io (Unit {0})
show_from zero ind = pure tt
show_from (suc n) ind = do
  s ← call (msg_stat ind)
  if eq_ℤ s.ret minus_one
      then pure tt
      else (do call (print_row (pos ind) s.ret s.status.key s.status.msg_qnum); pure tt)
  show_from n (suc ind)

-- How often the loop runs for `maxind`.
abbrev pub rounds : ℤ → ℕ
rounds (pos n) = suc n
rounds (negsuc n) = 0

pub sysv_msg_show : Io ℤ
unfolding show_from
sysv_msg_show = do
  m ← call msg_info
  if eq_ℤ m.ret minus_one
      then (do call (print "msgctl MSG_INFO fail.\n" []); pure minus_one)
      else (do
        call (print "maxind:%d\n\n" (int m.ret ∷ []))
        call (print "index\tid\tkey\tmessage\t\n" [])
        show_from (rounds m.ret) 0
        pure (pos 0))
