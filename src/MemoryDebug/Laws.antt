-- ===== src/MemoryDebug/Laws.antt =====
-- A heap with its mistakes, and what the functions of memory_debug.c do to it.
use myfreelib.Base.{
  ℕ, ℤ, pos, negsuc, eq_ℤ, ◌⊎◌, ◌++◌, true, false, Option, some, none, ltb, List, [], ◌∷◌, ◌≡◌,
  arith, if◌then◌else◌,
}
use myfreelib.MemoryDebug.{
  Call, Reply, History, malloc, free, load, store, leaks, overflow, use_after_free, double_free,
}

-- A block that is allocated, with its size.
abbrev Block : Type 0
Block = ℤ × ℕ

abbrev size_of : ℤ → List Block → Option ℕ
size_of p [] = none
size_of p ((q, n) ∷ blocks) = if eq_ℤ p q then some n else size_of p blocks

abbrev freed : ℤ → List Block → List Block
freed p [] = []
freed p ((q, n) ∷ blocks) = if eq_ℤ p q then blocks else (q, n) ∷ freed p blocks

abbrev pub live : History → List Block
live [] = []
live ((malloc size, r) ∷ t) = if eq_ℤ r.ret (pos 0) then live t else (r.ret, size) ∷ live t
live ((free p, r) ∷ t) = freed p (live t)
live (_ ∷ t) = live t

pub data Mistake : Type 0 where
  not_allocated : (ptr : ℤ) → Mistake  -- an access through a pointer to no block
  beyond_end : (ptr : ℤ) → (index : ℕ) → Mistake
  not_freeable : (ptr : ℤ) → Mistake  -- `free` of a pointer to no block, which is not null

abbrev access : (ptr : ℤ) (index : ℕ) → Option ℕ → List Mistake
access p i none = not_allocated p ∷ []
access p i (some n) = if ltb i n then [] else beyond_end p i ∷ []

abbrev release : (ptr : ℤ) → Option ℕ → List Mistake
release p none = if eq_ℤ p (pos 0) then [] else not_freeable p ∷ []
release p (some n) = []

-- The last mistake first.
abbrev pub mistakes : History → List Mistake
mistakes [] = []
mistakes ((load p i, r) ∷ t) = access p i (size_of p (live t)) ++ mistakes t
mistakes ((store p i v, r) ∷ t) = access p i (size_of p (live t)) ++ mistakes t
mistakes ((free p, r) ∷ t) = release p (size_of p (live t)) ++ mistakes t
mistakes (_ ∷ t) = mistakes t

eq_ℤ-refl : (x : ℤ) → eq_ℤ x x ≡ true
eq_ℤ-refl (pos n) = ground arith
eq_ℤ-refl (negsuc n) = ground arith

-- If `malloc` returns memory, `leaks` makes no mistake but leaves its block allocated, and each of
-- the other three makes exactly the mistake that it is named for: `overflow` reads the eleventh byte
-- of ten, `use_after_free` writes through a pointer to no block, and `double_free` frees its
-- block again. If `malloc` returns null, `leaks` and `double_free` make no mistake and leave nothing
-- allocated, and the other two access memory through the null pointer.
pub each_makes_its_mistake :
    (os : History → Call → Reply)
    → let p = (os [] (malloc 10)).ret in
      ((eq_ℤ p (pos 0) ≡ false)
        × (live (leaks os []).1 ≡ (p, 10) ∷ [])
        × (mistakes (leaks os []).1 ≡ [])
        × (mistakes (overflow os []).1 ≡ beyond_end p 10 ∷ [])
        × (mistakes (use_after_free os []).1 ≡ not_allocated p ∷ [])
        × (mistakes (double_free os []).1 ≡ not_freeable p ∷ []))
      ⊎ ((p ≡ pos 0)
          × (live (leaks os []).1 ≡ [])
          × (mistakes (leaks os []).1 ≡ [])
          × (mistakes (overflow os []).1 ≡ not_allocated p ∷ [])
          × (mistakes (use_after_free os []).1 ≡ not_allocated p ∷ [])
          × (mistakes (double_free os []).1 ≡ []))
unfolding leaks overflow use_after_free double_free
each_makes_its_mistake os = ground (arith, eq_ℤ-refl (os [] (malloc 10)).ret)
