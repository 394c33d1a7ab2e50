-- ===== src/Colorprint/Bar/Laws.antt =====
-- Which calls of the progress bar stay in their buffer, and what they show.
use native.Mathlib.Decide.{dec_lt}
use myfreelib.Base.{
  AllNonzero, length-append, length-replicate, if◌then◌else◌, ◌==◌, pos_part, append_assoc, ℕ, ℤ,
  pos, negsuc, zero, suc, some, none, List, [], ◌∷◌, ◌++◌, ◌≡◌, ◌≢◌, refl, ◌≤◌, ◌<◌, ◌-◌, length,
  drop, replicate, arith, drop-length, drop-append, append-nil,
}
use myfreelib.Colorprint.Memory.{
  fill, until_zero, store_at, append-AllNonzero, drop-AllNonzero, replicate-AllNonzero,
  until_zero_lem, until_zero-none, drop-replicate_append, store_at_outside, memset, poke, string_at,
  fill_lem, store_at_lem, store_at_outside, replicate_split, until_zero_lem, until_zero-none,
  replicate-AllNonzero, drop-replicate_append,
}
use myfreelib.Colorprint.Bar.{
  Progress, Style, num_style, chr_style, bgc_style, number, bar, background, color_of, bgcolor_of,
  space, hash, max_bar_length, clprogress_init, clprogress,
}

-- For a length of 1 to 200 and a buffer of that size at least, `clprogress_init` stays inside the
-- buffer and leaves in it a string of spaces that is one shorter than the length, with the rest of
-- the buffer as it was.
pub clprogress_init_clears :
    (chr n : ℕ) (style : Style) (color bgcolor : ℤ) (buffer : List ℕ)
    → suc n ≤ max_bar_length
    → suc n ≤ length buffer
    → clprogress_init chr (pos (suc n)) style color bgcolor buffer
      ≡ some (
        record {
          chr = if chr == 0 then hash else chr;
          len = pos (suc n);
          style = style;
          color = color;
          bgcolor = bgcolor;
        },
        replicate n space ++ 0 ∷ drop (suc n) buffer,
      )
unfolding clprogress_init memset poke
clprogress_init_clears chr n style color bgcolor buffer h k =
    let d = drop (suc n) buffer in
    ground (
      arith,
      fill_lem (suc n) space buffer k,
      replicate_split (suc n) n 0 space (omega arith),
      append_assoc (replicate n space) (space ∷ []) d,
      store_at_lem n space 0 space d,
    )

-- For a length of 0 or less `clprogress_init` leaves the buffer, whatever its size.
clprogress_init_faults :
    (chr : ℕ) (len : ℤ) (style : Style) (color bgcolor : ℤ) (buffer : List ℕ)
    → pos_part len ≡ 0
    → clprogress_init chr len style color bgcolor buffer ≡ none
unfolding clprogress_init memset poke
clprogress_init_faults chr (pos n) style color bgcolor buffer h =
    ground (arith, fill_lem 0 space buffer (omega arith))
clprogress_init_faults chr (negsuc n) style color bgcolor buffer h = ground arith

-- The bar after the first `j` places are marked.
marked_bar :
    (j c : ℕ) (old rest : List ℕ)
    → c ≢ 0
    → AllNonzero old
    → j ≤ length old
    → let shown = replicate j c ++ drop j old in
      (fill j c (old ++ 0 ∷ rest) ≡ some (shown ++ 0 ∷ rest))
      × (until_zero (shown ++ 0 ∷ rest) ≡ some shown)
marked_bar j c old rest ne a h = (
  rw (
    fill_lem j c (old ++ 0 ∷ rest) (omega (arith, length-append old (0 ∷ rest))),
    drop-append j old (0 ∷ rest) h,
    append_assoc (replicate j c) (drop j old) (0 ∷ rest),
  ),
  until_zero_lem (replicate j c ++ drop j old) rest (
      append-AllNonzero (replicate j c) (drop j old) (replicate-AllNonzero j c ne)
        (drop-AllNonzero j old a)),
)

-- In the character style, if the buffer holds a string one shorter than the length and `scaled` is
-- between 0 and the length, `clprogress` stays inside the buffer: the first `scaled - 1` places get
-- the character, the others keep what they showed, and the buffer holds such a string again.
pub clprogress_chr_shows :
    (pro : Progress) (n k : ℕ) (old rest : List ℕ)
    → pro.style ≡ chr_style
    → pro.chr ≢ 0
    → length old ≡ n
    → AllNonzero old
    → k ≤ suc n
    → let shown = replicate (k - 1) pro.chr ++ drop (k - 1) old in
      clprogress pro (pos k) (old ++ 0 ∷ rest)
      ≡ some (bar (color_of pro.color) (bgcolor_of pro.bgcolor) shown, shown ++ 0 ∷ rest)
unfolding clprogress memset string_at
clprogress_chr_shows pro n zero old rest st c l a h =
    ground (arith, marked_bar 0 pro.chr old rest c a (omega arith))
clprogress_chr_shows pro n (suc j) old rest st c l a h =
    ground (arith, marked_bar j pro.chr old rest c a (omega arith))

-- In the background style a value of `scaled` that is 0 or less makes `clprogress` store before the
-- start of the buffer, whatever its size.
pub clprogress_bgc_underruns :
    (pro : Progress) (scaled : ℤ) (buffer : List ℕ)
    → pro.style ≡ bgc_style
    → pos_part scaled ≡ 0
    → clprogress pro scaled buffer ≡ none
unfolding clprogress poke
clprogress_bgc_underruns pro (pos n) buffer st h = ground arith
clprogress_bgc_underruns pro (negsuc n) buffer st h = ground arith

-- The number style leaves the buffer alone.
pub clprogress_number :
    (pro : Progress) (scaled : ℤ) (buffer : List ℕ)
    → pro.style ≡ num_style
    → clprogress pro scaled buffer
      ≡ some (number (color_of pro.color) (bgcolor_of pro.bgcolor), buffer)
unfolding clprogress
clprogress_number pro scaled buffer st = ground arith

-- The blank bar, cut at `j`: its second part has no end.
cut_bar :
    (n j : ℕ)
    → j < n
    → let blank = replicate n space in
      let cut = replicate j space ++ 0 ∷ replicate (n - suc j) space in
      (store_at j 0 blank ≡ some cut)
      × (store_at j 0 cut ≡ some cut)
      × (until_zero (drop (suc j) cut) ≡ none)
cut_bar n j h =
    let rest = replicate (n - suc j) space in
    (
      rw (replicate_split n j (n - suc j) space (omega arith)) (store_at_lem j space 0 space rest),
      store_at_lem j space 0 0 rest,
      rw (drop-replicate_append j space 0 rest)
          (until_zero-none rest (replicate-AllNonzero (n - suc j) space (omega arith))),
    )

blank_bar :
    (n : ℕ) (buffer : List ℕ) → length buffer ≡ n → fill n space buffer ≡ some (replicate n space)
blank_bar n buffer h = rw (
  fill_lem n space buffer (omega arith),
  drop-length n buffer (omega arith),
  append-nil (replicate n space),
)

-- In the background style, if the buffer is exactly as long as the bar, `clprogress` leaves the buffer
-- for every value of `scaled`: the second string has no end.
clprogress_bgc_overruns :
    (pro : Progress) (n : ℕ) (scaled : ℤ) (buffer : List ℕ)
    → pro.style ≡ bgc_style
    → pro.len ≡ pos n
    → length buffer ≡ n
    → clprogress pro scaled buffer ≡ none
unfolding clprogress memset poke string_at
clprogress_bgc_overruns pro n (negsuc m) buffer st l h =
    clprogress_bgc_underruns pro (negsuc m) buffer st refl
clprogress_bgc_overruns pro n (pos zero) buffer st l h =
    clprogress_bgc_underruns pro (pos zero) buffer st refl
clprogress_bgc_overruns pro n (pos (suc j)) buffer st l h = elim (dec_lt j n) [
  | yes inside ↦ ground (arith, blank_bar n buffer h, cut_bar n j inside)
  | no outside ↦ ground (
    arith,
    blank_bar n buffer h,
    store_at_outside j 0 (replicate n space) (omega (arith, length-replicate n space)),
  )
]

-- In a buffer that goes on behind the bar.
cut_longer :
    (n j : ℕ) (rest : List ℕ)
    → j < n
    → let tail = replicate (n - suc j) space ++ 0 ∷ rest in
      let blank = replicate n space ++ 0 ∷ rest in
      let cut = replicate j space ++ 0 ∷ tail in
      (store_at j 0 blank ≡ some cut)
      × (store_at j 0 cut ≡ some cut)
      × (until_zero cut ≡ some (replicate j space))
      × (drop (suc j) cut ≡ tail)
      × (until_zero tail ≡ some (replicate (n - suc j) space))
cut_longer n j rest h =
    let tail = replicate (n - suc j) space ++ 0 ∷ rest in
    (
      rw
          (
            replicate_split n j (n - suc j) space (omega arith),
            append_assoc (replicate j space) (space ∷ replicate (n - suc j) space) (0 ∷ rest),
          )
          (store_at_lem j space 0 space tail),
      store_at_lem j space 0 0 tail,
      until_zero_lem (replicate j space) tail (replicate-AllNonzero j space (omega arith)),
      drop-replicate_append j space 0 tail,
      until_zero_lem (replicate (n - suc j) space) rest
          (replicate-AllNonzero (n - suc j) space (omega arith)),
    )

-- In the background style, if behind the bar's places the buffer has a zero and `scaled` is between 1
-- and the length, `clprogress` stays inside the buffer: it shows `scaled - 1` places on the coloured
-- ground and the others, but for the one at the cut, on the plain one, and leaves what follows the
-- places as it was.
clprogress_bgc_shows :
    (pro : Progress) (n j : ℕ) (old rest : List ℕ)
    → pro.style ≡ bgc_style
    → pro.len ≡ pos n
    → length old ≡ n
    → j < n
    → let filled = replicate j space in
      let blank = replicate (n - suc j) space in
      clprogress pro (pos (suc j)) (old ++ 0 ∷ rest)
      ≡ some (
        background (color_of pro.color) (bgcolor_of pro.bgcolor) filled blank,
        filled ++ 0 ∷ (blank ++ 0 ∷ rest),
      )
unfolding clprogress memset poke string_at
clprogress_bgc_shows pro n j old rest st l e h = ground (
  arith,
  fill_lem n space (old ++ 0 ∷ rest) (omega (arith, length-append old (0 ∷ rest))),
  drop-append n old (0 ∷ rest) (omega arith),
  drop-length n old (omega arith),
  cut_longer n j rest h,
)
