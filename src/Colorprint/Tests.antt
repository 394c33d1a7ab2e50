-- ===== src/Colorprint/Tests.antt =====
-- The theorems about the progress bar and the samples at concrete inputs.
use myfreelib.Base.{
  List, ◌≤◌, ℕ, ℤ, pos, some, none, [], ◌∷◌, ◌++◌, ◌≡◌, refl, arith, replicate, map, drop, ltb,
  if◌then◌else◌,
}
use myfreelib.Colorprint.Codes.{cl_value, progress_brown, progress_red}
use myfreelib.Colorprint.Memory.{◌>>=◌}
use myfreelib.Colorprint.Bar.{chr_style, number, color_of, bgcolor_of, space, hash, clprogress_init}
use myfreelib.Colorprint.Demo.{show_each, number_bar, character_bar, background_bar}
use myfreelib.Colorprint.Demo.Bars.{started, bar_lines, bar_text, marked, clprogress_never_shrinks}
use myfreelib.Colorprint.Demo.Laws.{third_bar_underruns}

-- Half of the bar, then all of it, then less.
clprogress_never_shrinks_example :
    (clprogress_init 0 (pos 4) chr_style (pos 1) (pos 0) (replicate 6 0x41) >>= λ r.
    show_each r.0 (map pos (2 ∷ 4 ∷ 1 ∷ [])) r.1)
    ≡ some (
      bar_lines (started chr_style 0 3 (pos 1) (pos 0)) 0 3 (2 ∷ 4 ∷ 1 ∷ []),
      bar_text hash (marked 0 (2 ∷ 4 ∷ 1 ∷ [])) 3 ++ 0 ∷ drop 4 (replicate 6 0x41),
    )
clprogress_never_shrinks_example =
    clprogress_never_shrinks 0 3 (pos 1) (pos 0) (replicate 6 0x41) (2 ∷ 4 ∷ 1 ∷ []) (omega arith)
      (omega arith) (omega arith)

-- `(int)(80 * i / 150)` for the five values of `i`.
abbrev product : ℕ → ℕ
product i =
    if ltb i 1
    then 0
    else if ltb i 41
    then 21
    else if ltb i 81
    then 42
    else if ltb i 121
    then 64
    else 80

product-le : (i : ℕ) → product i ≤ 80
product-le i = ground arith

third_bar_underruns_example :
    let scaled : ℕ → ℤ = λ i. pos (product i) in
    let ks : List ℕ = 0 ∷ 21 ∷ 42 ∷ 64 ∷ 80 ∷ [] in
    let buffer : List ℕ = replicate 200 0 in
    let brown = started chr_style hash 79 (cl_value progress_brown) (pos 0) in
    (number_bar scaled buffer
      ≡ some (
        replicate 5 (number (color_of (cl_value progress_red)) (bgcolor_of (pos 0))),
        replicate 79 space ++ 0 ∷ drop 80 buffer,
      ))
    × (character_bar scaled buffer
        ≡ some (bar_lines brown 0 79 ks, bar_text hash (marked 0 ks) 79 ++ 0 ∷ drop 80 buffer))
    × (background_bar scaled buffer ≡ none)
third_bar_underruns_example =
    third_bar_underruns product (replicate 200 0) product-le refl (omega arith)
