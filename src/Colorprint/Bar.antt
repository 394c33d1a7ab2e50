-- ===== src/Colorprint/Bar.antt =====
-- `clprogress_init` and `clprogress` of colorprint.c over the buffer of the bar. Floats are not
-- modelled: `clprogress` takes `(int)(pro.len * percent)` as an argument, and the percentage that it
-- prints is left out.
pub mod Laws
use myfreelib.Base.{
  ℕ, ℤ, pos, zero, suc, Option, some, none, List, String, [], ◌∷◌, ◌==◌, eq_ℤ, is_neg, pred_ℤ,
  ltb_ℤ, pos_part, if◌then◌else◌,
}
use myfreelib.Colorprint.Codes.{
  text, cl_value, bgcl_value, cl_back_default, progress_black, progress_bg_black, cl_black,
  cl_back_black, progress_red, progress_bg_red, cl_red, cl_back_red, progress_green,
  progress_bg_green, cl_green, cl_back_green, progress_brown, progress_bg_brown, cl_brown,
  cl_back_brown, progress_blue, progress_bg_blue, cl_blue, cl_back_blue, progress_purple,
  progress_bg_purple, cl_purple, cl_back_purple, progress_cyan, progress_bg_cyan, cl_cyan,
  cl_back_cyan, progress_white, progress_bg_white, cl_white, cl_back_white,
}
use myfreelib.Colorprint.Memory.{◌>>=◌, memset, poke, string_at}

-- `MAX_BAR_LENGTH`
abbrev pub max_bar_length : ℕ
max_bar_length = 200

-- The values of `progress_style` that `clprogress` handles, and all others.
pub data Style : Type 0 where
  num_style chr_style bgc_style other_style : Style

-- `progress_t` without `title`, `stream` and the unused `offset`. The bar's buffer stands beside it.
pub record Progress : Type 0 where
  pub chr : ℕ
  pub len : ℤ
  pub style : Style
  pub color : ℤ
  pub bgcolor : ℤ

-- What a call prints: the escape sequences, and the strings read from the bar.
pub data Line : Type 0 where
  number : (color bgcolor : String) → Line
  bar : (color bgcolor : String) → (shown : List ℕ) → Line
  background : (color bgcolor : String) → (filled rest : List ℕ) → Line
  nothing : Line

-- The space, and '#'.
abbrev pub space : ℕ
space = 0x20

abbrev pub hash : ℕ
hash = 0x23

-- `clprogress_init` on the buffer that `pro->pro` points to: `bar`, or `_bar` if that is null. The
-- result is `*pro` and the buffer; `none` is a store outside it.
pub clprogress_init :
    (chr : ℕ) (len : ℤ) (style : Style) (color bgcolor : ℤ) (buffer : List ℕ)
    → Option (Progress × List ℕ)
clprogress_init chr len style color bgcolor buffer =
    let len' : ℤ = if ltb_ℤ (pos max_bar_length) len then pos max_bar_length else len in
    let pro : Progress = record {
      chr = if chr == 0 then hash else chr;
      len = len';
      style = style;
      color = color;
      bgcolor = bgcolor;
    } in
    do cleared ← memset len' space buffer; ended ← poke (pred_ℤ len') 0 cleared; some (pro, ended)

-- The first `switch`.
abbrev pub color_of : ℤ → String
color_of color =
    if eq_ℤ color (cl_value progress_black)
    then text cl_black
    else if eq_ℤ color (cl_value progress_red)
    then text cl_red
    else if eq_ℤ color (cl_value progress_green)
    then text cl_green
    else if eq_ℤ color (cl_value progress_brown)
    then text cl_brown
    else if eq_ℤ color (cl_value progress_blue)
    then text cl_blue
    else if eq_ℤ color (cl_value progress_purple)
    then text cl_purple
    else if eq_ℤ color (cl_value progress_cyan)
    then text cl_cyan
    else if eq_ℤ color (cl_value progress_white)
    then text cl_white
    else text cl_green

-- The second `switch`.
abbrev pub bgcolor_of : ℤ → String
bgcolor_of bgcolor =
    if eq_ℤ bgcolor (bgcl_value progress_bg_black)
    then text cl_back_black
    else if eq_ℤ bgcolor (bgcl_value progress_bg_red)
    then text cl_back_red
    else if eq_ℤ bgcolor (bgcl_value progress_bg_green)
    then text cl_back_green
    else if eq_ℤ bgcolor (bgcl_value progress_bg_brown)
    then text cl_back_brown
    else if eq_ℤ bgcolor (bgcl_value progress_bg_blue)
    then text cl_back_blue
    else if eq_ℤ bgcolor (bgcl_value progress_bg_purple)
    then text cl_back_purple
    else if eq_ℤ bgcolor (bgcl_value progress_bg_cyan)
    then text cl_back_cyan
    else if eq_ℤ bgcolor (bgcl_value progress_bg_white)
    then text cl_back_white
    else text cl_back_default

-- `offset`, from `(int)(pro.len * percent)`
abbrev offset_of : ℤ → ℤ
offset_of scaled = if is_neg (pred_ℤ scaled) then pos 0 else pred_ℤ scaled

-- The case PROGRESS_CHR_STYLE.
show_chr : Progress → (scaled : ℤ) → List ℕ → Option (Line × List ℕ)
show_chr pro scaled buffer = do
  marked ← memset (offset_of scaled) pro.chr buffer
  shown ← string_at 0 marked
  some (bar (color_of pro.color) (bgcolor_of pro.bgcolor) shown, marked)

-- Where the second string of PROGRESS_BGC_STYLE begins.
abbrev second_part : (len offset : ℤ) → ℕ
second_part len offset =
    if eq_ℤ (pos (suc (pos_part offset))) len then pos_part len else suc (pos_part offset)

-- The case PROGRESS_BGC_STYLE.
show_bgc : Progress → (scaled : ℤ) → List ℕ → Option (Line × List ℕ)
show_bgc pro scaled buffer = do
  blank ← memset pro.len space buffer
  cut ← poke (pred_ℤ scaled) 0 blank
  split ← poke (offset_of scaled) 0 cut
  filled ← string_at 0 split
  rest ← string_at (second_part pro.len (offset_of scaled)) split
  some (background (color_of pro.color) (bgcolor_of pro.bgcolor) filled rest, split)

show : Style → Progress → (scaled : ℤ) → List ℕ → Option (Line × List ℕ)
unfolding show_chr show_bgc
show num_style pro scaled buffer =
    some (number (color_of pro.color) (bgcolor_of pro.bgcolor), buffer)
show chr_style pro scaled buffer = show_chr pro scaled buffer
show bgc_style pro scaled buffer = show_bgc pro scaled buffer
show other_style pro scaled buffer = some (nothing, buffer)

-- `clprogress`: what it prints, and the buffer afterwards; `none` is an access outside the buffer.
pub clprogress : Progress → (scaled : ℤ) → List ℕ → Option (Line × List ℕ)
unfolding show
clprogress pro scaled buffer = show pro.style pro scaled buffer
