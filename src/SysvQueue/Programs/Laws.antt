-- ===== src/SysvQueue/Programs/Laws.antt =====
-- Which queues sysv_msg_demo.c leaves, and which it lists.
use myfreelib.Base.{
  ℕ, zero, suc, ℤ, pos, minus_one, eq_ℤ, List, [], ◌∷◌, ◌++◌, ◌≡◌, arith, append_assoc, append-nil,
  int, remove, gain, if◌then◌else◌,
}
use myfreelib.SysvQueue.Programs.{
  Call, Reply, History, print, rounds, print_row, create_queue, ipc_rmid, msg_stat, msg_info,
  sysv_msg_ctl, clean, show_from, sysv_msg_show,
}

-- The queues that the program has created and not removed.
abbrev pub queues : History → List ℤ
queues [] = []
queues ((create_queue, r) ∷ t) = gain r.ret (queues t)
queues ((ipc_rmid msqid, r) ∷ t) = remove msqid (queues t)
queues (_ ∷ t) = queues t

-- Whatever the calls return, `sysv_msg_ctl` followed by the function that runs at the program's
-- exit asks for the removal of the queue that it has created, if there is one, and of no other.
clean-sysv_msg_ctl :
    (os : History → Call → Reply) (t : History)
    → let ((ret, msgid), u) = sysv_msg_ctl os t in queues (clean msgid os u).1 ≡ queues t
unfolding sysv_msg_ctl clean
clean-sysv_msg_ctl os t = ground arith

-- A row of the table.
pub record Row : Type 0 where
  pub ind : ℤ
  pub msqid : ℤ
  pub key : ℤ
  pub msg_qnum : ℤ

-- The rows printed, in order.
abbrev pub table : History → List Row
table [] = []
table ((print_row ind msqid key msg_qnum, r) ∷ t) =
    table t ++ record { ind = ind; msqid = msqid; key = key; msg_qnum = msg_qnum } ∷ []
table (_ ∷ t) = table t

-- The entries in use among so many from an index on.
abbrev pub used : (stat : ℕ → Reply) → ℕ → (ind : ℕ) → List Row
used stat zero ind = []
used stat (suc n) ind =
    if eq_ℤ (stat ind).ret minus_one
    then used stat n (suc ind)
    else record {
      ind = pos ind;
      msqid = (stat ind).ret;
      key = (stat ind).status.key;
      msg_qnum = (stat ind).status.msg_qnum;
    }
      ∷ used stat n (suc ind)

module _ (os : History → Call → Reply) (stat : ℕ → Reply)
    (answers : (t : History) (ind : ℕ) → os t (msg_stat ind) ≡ stat ind) where
  show_from-used :
      (n ind : ℕ) (t : History) → table (show_from n ind os t).1 ≡ table t ++ used stat n ind
  unfolding show_from
  show_from-used zero ind t = ground (arith, append-nil (table t))
  show_from-used (suc n) ind t =
      let s = stat ind in
      let u : History = (msg_stat ind, s) ∷ t in
      let line = print_row (pos ind) s.ret s.status.key s.status.msg_qnum in
      let row : Row = record {
        ind = pos ind;
        msqid = s.ret;
        key = s.status.key;
        msg_qnum = s.status.msg_qnum;
      } in
      ground (
        arith,
        answers t ind,
        show_from-used n (suc ind) u,
        show_from-used n (suc ind) ((line, os u line) ∷ u),
        append_assoc (table t) (row ∷ []) (used stat n (suc ind)),
      )

  -- If the kernel knows the entries 0 to `maxind` and answers a question about one entry always
  -- alike, then `sysv_msg_show` returns 0 and has printed a row for exactly the entries in use among
  -- these, in the order of their indices.
  pub sysv_msg_show-used :
      (maxind : ℕ)
      → (os [] msg_info).ret ≡ pos maxind
      → let (ret, u) = sysv_msg_show os [] in (ret ≡ pos 0) × (table u ≡ used stat (suc maxind) 0)
  unfolding sysv_msg_show
  sysv_msg_show-used maxind e =
      let m = os [] msg_info in
      let a : History = (msg_info, m) ∷ [] in
      let b = print "maxind:%d\n\n" (int m.ret ∷ []) in
      let c : History = (b, os a b) ∷ a in
      let d = print "index\tid\tkey\tmessage\t\n" [] in
      ground (arith, show_from-used (rounds m.ret) 0 ((d, os c d) ∷ c))
