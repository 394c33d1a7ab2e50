-- ===== src/Colorprint/Print/Laws.antt =====
-- What `clprogress_print` of colorprint.c shows.
use myfreelib.Base.{
  ℕ, suc, some, none, List, [], ◌∷◌, ◌++◌, ◌≡◌, refl, arith, length, take, drop, replicate, ◌+◌,
  AllNonzero, take-AllNonzero, append-nil, drop-length,
}
use myfreelib.Colorprint.Memory.{
  memset, poke, string_at, fill_lem, store_at_lem, replicate_split, until_zero_lem,
  replicate-AllNonzero,
}
use myfreelib.Colorprint.Bar.{space}
use myfreelib.Colorprint.Print.{vsnprintf, clprogress_print}

-- In a terminal of at least one column, with memory for it, `clprogress_print` stays in its buffer;
-- it first shows spaces, one fewer than the columns, and then as many characters of the text.
clprogress_print_shows :
    (n : ℕ) (str text : List ℕ)
    → length str ≡ suc n
    → AllNonzero text
    → clprogress_print (suc n) (some str) text ≡ some (replicate n space, take n text)
unfolding clprogress_print vsnprintf memset poke string_at
clprogress_print_shows n str text e a =
    let blank = replicate n space ++ 0 ∷ [] in
    let d = drop (length (take n text) + 1) blank in
    ground (
      arith,
      fill_lem (suc n) space str (omega arith),
      drop-length (suc n) str (omega arith),
      append-nil (replicate (suc n) space),
      replicate_split (suc n) n 0 space (omega arith),
      store_at_lem n space 0 space [],
      until_zero_lem (replicate n space) []
          (replicate-AllNonzero n space (λ h. absurd (omega arith))),
      until_zero_lem (take n text) d (take-AllNonzero n text a),
    )

-- In a terminal of no columns it leaves its buffer, and so it does without memory.
clprogress_print_faults :
    (ws_col : ℕ) (str text : List ℕ)
    → (clprogress_print 0 (some str) text ≡ none) × (clprogress_print ws_col none text ≡ none)
unfolding clprogress_print memset poke string_at
clprogress_print_faults ws_col str text = (ground (arith, fill_lem 0 space str (omega arith)), refl)
