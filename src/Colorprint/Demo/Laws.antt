-- ===== src/Colorprint/Demo/Laws.antt =====
-- How the three bars of demo.c end.
use myfreelib.Base.{
  pos_part, map, ℕ, ℤ, pos, some, none, List, [], ◌∷◌, ◌++◌, ◌≡◌, refl, ◌≤◌, length, drop,
  replicate, arith,
}
use myfreelib.Colorprint.Codes.{cl_value, progress_brown, progress_red}
use myfreelib.Colorprint.Bar.{
  Progress, number, color_of, bgcolor_of, bgc_style, num_style, chr_style, space, hash,
  max_bar_length,
}
use myfreelib.Colorprint.Bar.Laws.{
  clprogress_number, clprogress_init_clears, clprogress_bgc_underruns,
}
use myfreelib.Colorprint.Demo.{show_each, run_bar, number_bar, character_bar, background_bar}
use myfreelib.Colorprint.Demo.Bars.{marked, bar_lines, bar_text, started, clprogress_never_shrinks}

show_each-number :
    (pro : Progress) (ks : List ℤ) (buffer : List ℕ)
    → pro.style ≡ num_style
    → show_each pro ks buffer
      ≡ some (replicate (length ks) (number (color_of pro.color) (bgcolor_of pro.bgcolor)), buffer)
unfolding show_each
show_each-number pro [] buffer st = refl
show_each-number pro (k ∷ ks) buffer st =
    ground (arith, clprogress_number pro k buffer st, show_each-number pro ks buffer st)

show_each-underruns :
    (pro : Progress) (k : ℤ) (ks : List ℤ) (buffer : List ℕ)
    → pro.style ≡ bgc_style
    → pos_part k ≡ 0
    → show_each pro (k ∷ ks) buffer ≡ none
unfolding show_each
show_each-underruns pro k ks buffer st z =
    ground (arith, clprogress_bgc_underruns pro k buffer st z)

-- In a buffer of 80 bytes at least, with values of `scaled` from 0 to 80, of which the first is 0 like its
-- percentage, the first two bars of demo.c stay inside the buffer, and print five lines each; the third leaves it.
pub third_bar_underruns :
    (f : ℕ → ℕ) (buffer : List ℕ)
    → ((i : ℕ) → f i ≤ 80)
    → f 0 ≡ 0
    → 80 ≤ length buffer
    → let scaled : ℕ → ℤ = λ i. pos (f i) in
      let ks = f 0 ∷ f 40 ∷ f 80 ∷ f 120 ∷ f 150 ∷ [] in
      let rest = drop 80 buffer in
      let brown = started chr_style hash 79 (cl_value progress_brown) (pos 0) in
      (number_bar scaled buffer
        ≡ some (
          replicate 5 (number (color_of (cl_value progress_red)) (bgcolor_of (pos 0))),
          replicate 79 space ++ 0 ∷ rest,
        ))
      × (character_bar scaled buffer
          ≡ some (bar_lines brown 0 79 ks, bar_text hash (marked 0 ks) 79 ++ 0 ∷ rest))
      × (background_bar scaled buffer ≡ none)
unfolding number_bar character_bar background_bar run_bar
third_bar_underruns f buffer h z l =
    let scaled : ℕ → ℤ = λ i. pos (f i) in
    let cleared = replicate 79 space ++ 0 ∷ drop 80 buffer in
    let ks = f 0 ∷ f 40 ∷ f 80 ∷ f 120 ∷ f 150 ∷ [] in
    let within : 80 ≤ max_bar_length = omega arith in
    (
      rw (clprogress_init_clears hash 79 num_style (pos 1) (pos 0) buffer within l)
          (show_each-number (started num_style hash 79 (pos 1) (pos 0)) (map pos ks) cleared refl),
      clprogress_never_shrinks hash 79 (pos 3) (pos 0) buffer ks within l
          (h 0, (h 40, (h 80, (h 120, (h 150, tt))))),
      rw (clprogress_init_clears hash 79 bgc_style (pos 4) (pos 3) buffer within l) (
          show_each-underruns (started bgc_style hash 79 (pos 4) (pos 3)) (pos (f 0))
            (pos (f 40) ∷ pos (f 80) ∷ pos (f 120) ∷ pos (f 150) ∷ []) cleared refl z),
    )
