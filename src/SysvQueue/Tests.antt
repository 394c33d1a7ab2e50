-- ===== src/SysvQueue/Tests.antt =====
-- The theorems about System V queues at a kernel with two queues.
use myfreelib.Base.{ℕ, zero, suc, ℤ, pos, minus_one, [], ◌≡◌, refl}
use myfreelib.SysvQueue.Programs.{
  Call, Reply, History, create_queue, msg_info, msg_stat, sysv_msg_show,
}
use myfreelib.SysvQueue.Programs.Laws.{table, used, sysv_msg_show-used}

abbrev returns : ℤ → Reply
returns n = record {
  ret = n;
  status = record { msg_qbytes = 16384; mode = 0; key = pos 1456; msg_qnum = pos 2 };
}

-- Entry 1 is not in use.
abbrev stat : ℕ → Reply
stat zero = returns (pos 7)
stat (suc zero) = returns minus_one
stat n = returns (pos 9)

abbrev os : History → Call → Reply
os t (msg_stat n) = stat n
os t msg_info = returns (pos 2)
os t create_queue = returns (pos 9)
os t c = returns (pos 0)

sysv_msg_show-used_example :
    let (ret, u) = sysv_msg_show os [] in (ret ≡ pos 0) × (table u ≡ used stat 3 0)
sysv_msg_show-used_example = sysv_msg_show-used os stat (λ t n. refl) 2 refl
