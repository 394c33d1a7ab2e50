-- ===== src/NamedSem/Demos/Laws.antt =====
-- What the functions of posix_sem_demo.c do to the named semaphore, by the history of their calls.
use myfreelib.Base.{ℕ, suc, ℤ, pos, minus_one, ◌≡◌, ◌⊎◌, ◌+◌, arith}
use myfreelib.NamedSem.Calls.{Call, Reply, History, opened, closed, posted, taken}
use myfreelib.NamedSem.Demos.{create_demo, unlink_demo, wait_demo, post_demo, get_demo}

-- The run from one history to another returned 0 and has opened and closed the semaphore so many
-- times, or it returned -1, has closed nothing, and has opened the semaphore at most once.
abbrev Balanced : (times : ℕ) (before after : History) → (ret : ℤ) → Type 0
Balanced n t u ret =
    ((ret ≡ pos 0) × (opened u ≡ n + opened t) × (closed u ≡ n + closed t))
    ⊎ ((ret ≡ minus_one)
        × (closed u ≡ closed t)
        × ((opened u ≡ opened t) ⊎ (opened u ≡ suc (opened t))))

-- The semaphore has been posted and waited for this many times more.
abbrev Changes : (before after : History) → (posts waits : ℕ) → Type 0
Changes t u posts waits = (posted u ≡ posts + posted t) × (taken u ≡ waits + taken t)

-- Whatever the system answers, `create_demo`, `wait_demo`, `post_demo` and `get_demo` either return
-- 0 and have opened the semaphore once and closed it once, or return -1, have closed nothing and
-- have opened it at most once; `unlink_demo` returns 0 or -1 and, if it returns 0, has opened and
-- closed nothing.
demos_close :
    (os : History → Call → Reply) (t : History)
    → (let (r, u) = create_demo os t in Balanced 1 t u r)
      × (let (r, u) = unlink_demo os t in Balanced 0 t u r)
      × (let (r, u) = wait_demo os t in Balanced 1 t u r)
      × (let (r, u) = post_demo os t in Balanced 1 t u r)
      × (let (r, u) = get_demo os t in Balanced 1 t u r)
unfolding create_demo unlink_demo wait_demo post_demo get_demo
demos_close os t = ground arith

-- Whatever the system answers, one `sem_post` of `post_demo` has not failed if it returns 0, and
-- none otherwise, when it returns -1; the same holds of `sem_timedwait` and `wait_demo`; and
-- otherwise the five functions neither post nor wait.
demos_count :
    (os : History → Call → Reply) (t : History)
    → (let (r, u) = post_demo os t in
        ((r ≡ pos 0) × Changes t u 1 0) ⊎ ((r ≡ minus_one) × Changes t u 0 0))
      × (let (r, u) = wait_demo os t in
          ((r ≡ pos 0) × Changes t u 0 1) ⊎ ((r ≡ minus_one) × Changes t u 0 0))
      × (let (r, u) = create_demo os t in Changes t u 0 0)
      × (let (r, u) = unlink_demo os t in Changes t u 0 0)
      × (let (r, u) = get_demo os t in Changes t u 0 0)
unfolding create_demo unlink_demo wait_demo post_demo get_demo
demos_count os t = ground arith
