-- ===== src/Colorprint/Demo.antt =====
-- packages/colorprint/demo.c: samples of the styles, and three bars.
pub mod Bars
pub mod Laws
use myfreelib.Base.{
  replicate, ℕ, zero, suc, ℤ, pos, String, Option, some, none, List, [], ◌∷◌, ◌++◌, map, ltb, ◌+◌,
  if◌then◌else◌,
}
use myfreelib.Colorprint.Codes.{
  Code, cl_end, cl_value, bgcl_value, progress_red, progress_brown, progress_blue,
  progress_bg_green, cl_angular, cl_back_black, cl_back_blue, cl_back_brown, cl_back_cyan,
  cl_back_default, cl_back_green, cl_back_purple, cl_back_red, cl_back_white, cl_black,
  cl_black_bold, cl_blue, cl_blue_bold, cl_bold, cl_bright_back_black, cl_bright_back_blue,
  cl_bright_back_brown, cl_bright_back_cyan, cl_bright_back_default, cl_bright_back_green,
  cl_bright_back_purple, cl_bright_back_red, cl_bright_back_white, cl_bright_black, cl_bright_blue,
  cl_bright_brown, cl_bright_cyan, cl_bright_green, cl_bright_purple, cl_bright_red,
  cl_bright_white, cl_brown, cl_brown_bold, cl_cancel_underline, cl_cyan, cl_cyan_bold, cl_delete,
  cl_encircled, cl_font1, cl_font2, cl_font3, cl_font4, cl_font5, cl_font6, cl_font7, cl_font8,
  cl_font9, cl_framed, cl_green, cl_green_bold, cl_hide, cl_ideograph_db_overline,
  cl_ideograph_db_underline, cl_ideograph_focus, cl_ideograph_overline, cl_ideograph_underline,
  cl_invert, cl_italics, cl_main_font, cl_overline, cl_purple, cl_purple_bold, cl_quick_twinkle,
  cl_red, cl_red_bold, cl_twinkle, cl_underline, cl_weaken, cl_white, cl_white_bold,
}
use myfreelib.Colorprint.Memory.{◌>>=◌}
use myfreelib.Colorprint.Bar.{
  Progress, Style, Line, num_style, chr_style, bgc_style, hash, max_bar_length, clprogress_init,
  clprogress,
}
use myfreelib.Colorprint.Terminal.{Piece, code, txt, render}

-- One `printf`: all of them end with CL_END.
abbrev sample : List Piece → List Piece
sample ps = ps ++ code cl_end ∷ []

abbrev all_samples : List (List Piece) → List Piece
all_samples [] = []
all_samples (ps ∷ pss) = sample ps ++ all_samples pss

unfoldable pub styles : List (List Piece)
styles =
    (code cl_black ∷ txt "BLACK\t" ∷ [])
    ∷ (code cl_red ∷ txt "RED\t" ∷ [])
    ∷ (code cl_green ∷ txt "GREEN\t" ∷ [])
    ∷ (code cl_brown ∷ txt "BROWN\t" ∷ [])
    ∷ (code cl_blue ∷ txt "BLUE\t" ∷ [])
    ∷ (code cl_purple ∷ txt "PURPLE\t" ∷ [])
    ∷ (code cl_cyan ∷ txt "CYAN\t" ∷ [])
    ∷ (code cl_white ∷ txt "WHITE\n" ∷ [])
    ∷ (code cl_black_bold ∷ txt "BLACK\t" ∷ [])
    ∷ (code cl_red_bold ∷ txt "RED\t" ∷ [])
    ∷ (code cl_green_bold ∷ txt "GREEN\t" ∷ [])
    ∷ (code cl_brown_bold ∷ txt "BROWN\t" ∷ [])
    ∷ (code cl_blue_bold ∷ txt "BLUE\t" ∷ [])
    ∷ (code cl_purple_bold ∷ txt "PURPLE\t" ∷ [])
    ∷ (code cl_cyan_bold ∷ txt "CYAN\t" ∷ [])
    ∷ (code cl_white_bold ∷ txt "WHITE\n" ∷ [])
    ∷ (code cl_bright_black ∷ txt "BLACK\t" ∷ [])
    ∷ (code cl_bright_red ∷ txt "RED\t" ∷ [])
    ∷ (code cl_bright_green ∷ txt "GREEN\t" ∷ [])
    ∷ (code cl_bright_brown ∷ txt "BROWN\t" ∷ [])
    ∷ (code cl_bright_blue ∷ txt "BLUE\t" ∷ [])
    ∷ (code cl_bright_purple ∷ txt "PURPLE\t" ∷ [])
    ∷ (code cl_bright_cyan ∷ txt "CYAN\t" ∷ [])
    ∷ (code cl_bright_white ∷ txt "WHITE\n" ∷ [])
    ∷ (code cl_bold ∷ txt "BOLD\t" ∷ [])
    ∷ (code cl_weaken ∷ txt "WEAKEN\t" ∷ [])
    ∷ (code cl_italics ∷ txt "ITALICS\t" ∷ [])
    ∷ (code cl_underline ∷ code cl_bold ∷ txt "UNDERLINE\t" ∷ [])
    ∷ (code cl_twinkle ∷ code cl_green ∷ txt "ITALICS\t" ∷ [])
    ∷ (code cl_quick_twinkle ∷ txt "QUICK_TWINKLE\n" ∷ [])
    ∷ (code cl_invert ∷ txt "INVERT\t" ∷ [])
    ∷ (code cl_hide ∷ txt "HIDE\t" ∷ [])
    ∷ (code cl_delete ∷ txt "DELETE\t" ∷ [])
    ∷ (code cl_angular ∷ txt "ANGULAR\t" ∷ [])
    ∷ (code cl_framed ∷ txt "FRAMED\t" ∷ [])
    ∷ (code cl_encircled ∷ txt "ENCIRCLED\t" ∷ [])
    ∷ (code cl_overline ∷ txt "OVERLINE\n" ∷ [])
    ∷ (code cl_ideograph_underline ∷ txt "IDEOGRAPH_UNDERLINE\t" ∷ [])
    ∷ (code cl_ideograph_db_underline ∷ txt "IDEOGRAPH_DB_UNDERLINE\t" ∷ [])
    ∷ (code cl_ideograph_overline ∷ txt "IDEOGRAPH_OVERLINE\n" ∷ [])
    ∷ (code cl_ideograph_db_overline ∷ txt "IDEOGRAPH_DB_OVERLINE\t" ∷ [])
    ∷ (code cl_ideograph_focus ∷ txt "IDEOGRAPH_FOCUS\t" ∷ [])
    ∷ (code cl_main_font ∷ txt "MAIN_FONT\t" ∷ [])
    ∷ (code cl_font1 ∷ txt "FONT1\t" ∷ [])
    ∷ (code cl_font2 ∷ txt "FONT2\n" ∷ [])
    ∷ (code cl_font3 ∷ txt "FONT3\t" ∷ [])
    ∷ (code cl_font4 ∷ txt "FONT4\t" ∷ [])
    ∷ (code cl_font5 ∷ txt "FONT5\t" ∷ [])
    ∷ (code cl_font6 ∷ txt "FONT6\t" ∷ [])
    ∷ (code cl_font7 ∷ txt "FONT7\t" ∷ [])
    ∷ (code cl_font8 ∷ txt "FONT8\n" ∷ [])
    ∷ (code cl_font9 ∷ txt "FONT9\t" ∷ [])
    ∷ (code cl_angular ∷ txt "ANGULAR\t" ∷ [])
    ∷ (code cl_underline
        ∷ code cl_bold
        ∷ txt "UNDERLINE\t"
        ∷ code cl_cancel_underline
        ∷ txt "UNDERLINE\n"
        ∷ [])
    ∷ (code cl_back_black ∷ txt "BLACK\t" ∷ [])
    ∷ (code cl_back_red ∷ code cl_twinkle ∷ txt "RED\t" ∷ [])
    ∷ (code cl_back_green ∷ code cl_twinkle ∷ txt "GREEN\t" ∷ [])
    ∷ (code cl_back_brown ∷ txt "BROWN\t" ∷ [])
    ∷ (code cl_back_blue ∷ txt "BLUE\t" ∷ [])
    ∷ (code cl_back_purple ∷ txt "PURPLE\t" ∷ [])
    ∷ (code cl_back_white ∷ txt "WHITE\t" ∷ [])
    ∷ (code cl_back_cyan ∷ code cl_twinkle ∷ txt "CYAN\t" ∷ [])
    ∷ (code cl_back_default ∷ txt "DEFAULT\n" ∷ [])
    ∷ (code cl_bright_back_black ∷ txt "BLACK\t" ∷ [])
    ∷ (code cl_bright_back_red ∷ code cl_twinkle ∷ txt "RED\t" ∷ [])
    ∷ (code cl_bright_back_green ∷ code cl_twinkle ∷ txt "GREEN\t" ∷ [])
    ∷ (code cl_bright_back_brown ∷ txt "BROWN\t" ∷ [])
    ∷ (code cl_bright_back_blue ∷ txt "BLUE\t" ∷ [])
    ∷ (code cl_bright_back_purple ∷ txt "PURPLE\t" ∷ [])
    ∷ (code cl_bright_back_white ∷ txt "WHITE\t" ∷ [])
    ∷ (code cl_bright_back_cyan ∷ code cl_twinkle ∷ txt "CYAN\t" ∷ [])
    ∷ (code cl_bright_back_default ∷ txt "DEFAULT\n" ∷ [])
    ∷ []

unfoldable pub samples : List Piece
unfolding styles
samples = all_samples styles

-- The values of `i` in the three loops, `for(i = 0; i < 150; i = i + 40)`, from `i` on; four rounds
-- are enough.
rounds : (fuel i : ℕ) → List ℕ
rounds zero i = []
rounds (suc fuel) i = if ltb i 150 then i ∷ rounds fuel (i + 40) else []

-- Calls of `clprogress`, each with `(int)(pro.len * percent)`.
pub show_each : Progress → List ℤ → List ℕ → Option (List Line × List ℕ)
show_each pro [] buffer = some ([], buffer)
show_each pro (k ∷ ks) buffer = do
  (line, after) ← clprogress pro k buffer
  (lines, last) ← show_each pro ks after
  some (line ∷ lines, last)

-- A bar with its loop, and the call for the whole after it. `scaled i` is `(int)(80 * percent)` for the
-- percentage `1.0 * i / 150`.
pub run_bar : (scaled : ℕ → ℤ) → Style → (color bgcolor : ℤ) → List ℕ → Option (List Line × List ℕ)
unfolding rounds
run_bar scaled style color bgcolor buffer = do
  (pro, cleared) ← clprogress_init hash (pos 80) style color bgcolor buffer
  show_each pro (map scaled (rounds 4 0) ++ scaled 150 ∷ []) cleared

pub number_bar : (scaled : ℕ → ℤ) → List ℕ → Option (List Line × List ℕ)
number_bar scaled = run_bar scaled num_style (cl_value progress_red) (pos 0)

pub character_bar : (scaled : ℕ → ℤ) → List ℕ → Option (List Line × List ℕ)
character_bar scaled = run_bar scaled chr_style (cl_value progress_brown) (pos 0)

pub background_bar : (scaled : ℕ → ℤ) → List ℕ → Option (List Line × List ℕ)
background_bar scaled =
    run_bar scaled bgc_style (cl_value progress_blue) (bgcl_value progress_bg_green)

-- `main`, with the static buffer `_bar`: the samples, and the lines of the bars.
pub main : (scaled : ℕ → ℤ) → Option (List ℕ × List Line)
unfolding samples number_bar character_bar background_bar
main scaled = do
  (first, b) ← number_bar scaled (replicate max_bar_length 0)
  (second, c) ← character_bar scaled b
  (third, d) ← background_bar scaled c
  some (render samples, first ++ second ++ third)
