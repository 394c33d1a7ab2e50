-- ===== src/Colorprint/Demo/Bars.antt =====
-- Several calls of `clprogress` in a row.
use myfreelib.Base.{
  ◌==◌, ℕ, zero, suc, ℤ, pos, some, List, [], ◌∷◌, ◌++◌, ◌≡◌, ◌≢◌, refl, ap, ◌-◌, ◌≤◌, map, length,
  drop, replicate, AllNonzero, arith, if◌then◌else◌, ltb,
}
use myfreelib.Colorprint.Memory.{◌>>=◌, replicate-AllNonzero}
use myfreelib.Colorprint.Bar.{
  Progress, Line, Style, chr_style, bar, color_of, bgcolor_of, space, hash, max_bar_length,
  clprogress_init,
}
use myfreelib.Colorprint.Bar.Laws.{clprogress_chr_shows, clprogress_init_clears}
use myfreelib.Colorprint.Demo.{show_each}

-- A bar of `n` places, the first `m` of them marked.
abbrev pub bar_text : (c m n : ℕ) → List ℕ
bar_text c zero n = replicate n space
bar_text c (suc m) zero = []
bar_text c (suc m) (suc n) = c ∷ bar_text c m n

abbrev larger : ℕ → ℕ → ℕ
larger j m = if ltb j m then m else j

length-bar_text : (c m n : ℕ) → length (bar_text c m n) ≡ n
length-bar_text c zero zero = refl
length-bar_text c zero (suc n) = ap suc (length-bar_text c zero n)
length-bar_text c (suc m) zero = refl
length-bar_text c (suc m) (suc n) = ap suc (length-bar_text c m n)

bar_text-AllNonzero : (c m n : ℕ) → c ≢ 0 → AllNonzero (bar_text c m n)
bar_text-AllNonzero c zero n h = replicate-AllNonzero n space (λ e. absurd (omega arith))
bar_text-AllNonzero c (suc m) zero h = tt
bar_text-AllNonzero c (suc m) (suc n) h = (h, bar_text-AllNonzero c m n h)

replicate_all : (c m : ℕ) → bar_text c m m ≡ replicate m c
replicate_all c zero = refl
replicate_all c (suc m) = ap (λ xs. c ∷ xs) (replicate_all c m)

bar_text-split : (c j n : ℕ) → j ≤ n → replicate j c ++ replicate (n - j) space ≡ bar_text c j n
bar_text-split c zero n h = ground arith
bar_text-split c (suc j) zero h = absurd (omega arith)
bar_text-split c (suc j) (suc n) h = ground (arith, bar_text-split c j n (omega arith))

drop-replicate : (j n : ℕ) → drop j (replicate n space) ≡ replicate (n - j) space
drop-replicate zero n = ground arith
drop-replicate (suc j) zero = ground arith
drop-replicate (suc j) (suc n) = ground (arith, drop-replicate j n)

-- Marking the first `j` places again.
mark_lem :
    (c j m n : ℕ) → j ≤ n → replicate j c ++ drop j (bar_text c m n) ≡ bar_text c (larger j m) n
mark_lem c zero zero n h = refl
mark_lem c zero (suc m) n h = ground arith
mark_lem c (suc j) m zero h = absurd (omega arith)
mark_lem c (suc j) zero (suc n) h = ground (arith, drop-replicate j n, bar_text-split c j n)
mark_lem c (suc j) (suc m) (suc n) h = ground (arith, mark_lem c j m n (omega arith))

abbrev AllAtMost : ℕ → List ℕ → Type 0
AllAtMost n [] = Unit {0}
AllAtMost n (k ∷ ks) = (k ≤ n) × AllAtMost n ks

-- How many places are marked after the calls.
abbrev pub marked : (m : ℕ) → List ℕ → ℕ
marked m [] = m
marked m (k ∷ ks) = marked (larger (k - 1) m) ks

-- What the calls print.
abbrev pub bar_lines : Progress → (m n : ℕ) → List ℕ → List Line
bar_lines pro m n [] = []
bar_lines pro m n (k ∷ ks) =
    let m' = larger (k - 1) m in
    bar (color_of pro.color) (bgcolor_of pro.bgcolor) (bar_text pro.chr m' n)
    ∷ bar_lines pro m' n ks

show_each-marked :
    (pro : Progress) (n m : ℕ) (ks rest : List ℕ)
    → pro.style ≡ chr_style
    → pro.chr ≢ 0
    → AllAtMost (suc n) ks
    → show_each pro (map pos ks) (bar_text pro.chr m n ++ 0 ∷ rest)
      ≡ some (bar_lines pro m n ks, bar_text pro.chr (marked m ks) n ++ 0 ∷ rest)
unfolding show_each
show_each-marked pro n m [] rest st c h = refl
show_each-marked pro n m (k ∷ ks) rest st c h =
    let old = bar_text pro.chr m n in
    ground (
      arith,
      clprogress_chr_shows pro n k old rest st c (length-bar_text pro.chr m n)
          (bar_text-AllNonzero pro.chr m n c) h.0,
      mark_lem pro.chr (k - 1) m n (omega (arith, h.0)),
      show_each-marked pro n (larger (k - 1) m) ks rest st c h.1,
    )

abbrev pub started : Style → (chr n : ℕ) → (color bgcolor : ℤ) → Progress
started style chr n color bgcolor = record {
  chr = if chr == 0 then hash else chr;
  len = pos (suc n);
  style = style;
  color = color;
  bgcolor = bgcolor;
}

-- For a length of 1 to 200 and a buffer of that size at least, `clprogress_init` in the character style
-- and then any number of calls of `clprogress`, with values of `scaled` from 0 to the length, stay
-- inside the buffer. Each call shows a bar with as many places marked as the largest value so far, less
-- one, so that the bar never shrinks; and what lies behind the bar is as it was.
pub clprogress_never_shrinks :
    (chr n : ℕ) (color bgcolor : ℤ) (buffer ks : List ℕ)
    → suc n ≤ max_bar_length
    → suc n ≤ length buffer
    → AllAtMost (suc n) ks
    → let pro = started chr_style chr n color bgcolor in
      (clprogress_init chr (pos (suc n)) chr_style color bgcolor buffer >>= λ r.
      show_each r.0 (map pos ks) r.1)
      ≡ some (bar_lines pro 0 n ks, bar_text pro.chr (marked 0 ks) n ++ 0 ∷ drop (suc n) buffer)
clprogress_never_shrinks chr n color bgcolor buffer ks h k a =
    let pro = started chr_style chr n color bgcolor in
    ground (
      arith,
      clprogress_init_clears chr n chr_style color bgcolor buffer h k,
      show_each-marked pro n 0 ks (drop (suc n) buffer) refl (ground arith) a,
    )
