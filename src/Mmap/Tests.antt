-- ===== src/Mmap/Tests.antt =====
-- The theorem about the shared mapping at a system in which every call succeeds.
use myfreelib.Base.{ℕ, pos, some, List, [], ◌∷◌, ◌++◌, ◌≡◌, refl, arith, length, take, shown}
use myfreelib.Mmap.Programs.{Call, Reply, History, share_demo}
use myfreelib.Mmap.Contents.{synced, shown-share_demo}

abbrev fine_os : History → Call → Reply
fine_os t c = record { ret = pos 0; st_size = 0; mapping = [] }

abbrev hi : List ℕ
hi = 104 ∷ 105 ∷ []

succeeds : (share_demo (some hi) fine_os []).0 ≡ pos 0
unfolding share_demo
succeeds = refl

shown-share_demo_example :
    (contents : List ℕ) × (synced (share_demo (some hi) fine_os []).1 ≡ some contents)
    × (length contents ≡ 128)
    × (shown 128 contents ≡ take 126 (hi ++ 10 ∷ []))
shown-share_demo_example = shown-share_demo fine_os hi [] (omega arith) succeeds
