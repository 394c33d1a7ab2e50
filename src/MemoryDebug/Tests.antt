-- ===== src/MemoryDebug/Tests.antt =====
-- The functions of memory_debug.c at a `malloc` that returns one block.
use myfreelib.Base.{pos, eq_ℤ, false, [], ◌∷◌, ◌≡◌, ◌⊎◌}
use myfreelib.MemoryDebug.{
  Call, Reply, History, malloc, leaks, overflow, use_after_free, double_free,
}
use myfreelib.MemoryDebug.Laws.{
  live, mistakes, not_allocated, beyond_end, not_freeable, each_makes_its_mistake,
}

abbrev os : History → Call → Reply
os t (malloc size) = record { ret = pos 4096 }
os t c = record { ret = pos 0 }

each_makes_its_mistake_example :
    ((eq_ℤ (pos 4096) (pos 0) ≡ false)
      × (live (leaks os []).1 ≡ (pos 4096, 10) ∷ [])
      × (mistakes (leaks os []).1 ≡ [])
      × (mistakes (overflow os []).1 ≡ beyond_end (pos 4096) 10 ∷ [])
      × (mistakes (use_after_free os []).1 ≡ not_allocated (pos 4096) ∷ [])
      × (mistakes (double_free os []).1 ≡ not_freeable (pos 4096) ∷ []))
    ⊎ ((pos 4096 ≡ pos 0)
        × (live (leaks os []).1 ≡ [])
        × (mistakes (leaks os []).1 ≡ [])
        × (mistakes (overflow os []).1 ≡ not_allocated (pos 4096) ∷ [])
        × (mistakes (use_after_free os []).1 ≡ not_allocated (pos 4096) ∷ [])
        × (mistakes (double_free os []).1 ≡ []))
each_makes_its_mistake_example = each_makes_its_mistake os
