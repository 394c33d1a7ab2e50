-- ===== src/Colorprint/Print.antt =====
-- `clprogress_print` of colorprint.c over the buffer that it allocates.
pub mod Laws
use Prim.Native.Nat.{ℕ, zero, suc}
use myfreelib.Base.{
  ℤ, pos, pred_ℤ, Option, some, none, List, [], ◌∷◌, ◌++◌, ◌≡◌, refl, arith, length, take, drop,
  replicate, AllNonzero, append-nil, drop-length, ◌+◌, ◌-◌,
}
use myfreelib.Colorprint.Memory.{
  ◌>>=◌, memset, poke, string_at, fill_lem, store_at_lem, replicate_split, until_zero_lem,
  replicate-AllNonzero,
}
use myfreelib.Colorprint.Bar.{space}

-- `vsnprintf(str, size, …)` with the formatted text, in a buffer of at least `size` bytes.
unfoldable pub vsnprintf : (size : ℕ) (text buf : List ℕ) → List ℕ
vsnprintf zero text buf = buf
vsnprintf (suc n) text buf = take n text ++ 0 ∷ drop (length (take n text) + 1) buf

-- What the two prints show; `ws_col` is the width of the terminal, `str` the result of `malloc`, if it
-- is not null, and `text` the formatted arguments. `none` is an access outside the buffer.
pub clprogress_print :
    (ws_col : ℕ) (str : Option (List ℕ)) (text : List ℕ) → Option (List ℕ × List ℕ)
clprogress_print ws_col str text = do
  fresh ← str
  cleared ← memset (pos ws_col) space fresh
  blank ← poke (pred_ℤ (pos ws_col)) 0 cleared
  first ← string_at 0 blank
  second ← string_at 0 (vsnprintf ws_col text blank)
  some (first, second)
