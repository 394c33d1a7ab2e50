-- ===== src/MemoryDebug.antt =====
-- packages/demo_code/memory_debug/memory_debug.c: four functions that misuse the heap.
pub mod Laws
mod Tests
use myfreelib.Base.{ℕ, ℤ, pos, eq_ℤ, int, String, List, [], ◌∷◌, Arg, if◌then◌else◌}
use myfreelib.Base.Sys.{Trace, Prog, pure, call, ◌>>=◌, ◌>>◌}

-- The calls, and the accesses through a pointer.
pub data Call : Type 0 where
  print : String → List Arg → Call
  malloc : (size : ℕ) → Call
  free : (ptr : ℤ) → Call
  load : (ptr : ℤ) → (index : ℕ) → Call
  store : (ptr : ℤ) → (index : ℕ) → (value : ℤ) → Call

-- The pointer returned, 0 if it is null, or the value loaded.
pub record Reply : Type 0 where
  pub ret : ℤ

abbrev pub Io : Type 0 → Type 0
Io A = Prog Call Reply A

abbrev pub History : Type 0
History = Trace Call Reply

pub leaks : Io (Unit {0})
leaks = do
  p ← call (malloc 10)
  if eq_ℤ p.ret (pos 0) then pure tt else (do call (print "malloc(10)\n" []); pure tt)

-- The variant that reads the heap.
pub overflow : Io (Unit {0})
overflow = do
  p ← call (malloc 10)
  c ← call (load p.ret 10)
  call (print "%c\n" (int c.ret ∷ []))
  pure tt

pub use_after_free : Io (Unit {0})
use_after_free = do p ← call (malloc 10); call (free p.ret); call (store p.ret 0 (pos 1)); pure tt

pub double_free : Io (Unit {0})
double_free = do p ← call (malloc 10); call (free p.ret); call (free p.ret); pure tt
