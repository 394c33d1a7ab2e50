-- ===== src/Colorprint/Codes.antt =====
-- The escape sequences of colorprint.h, and the numbers of the colours.
use Prim.Native.String.{String}
use myfreelib.Base.{ℤ, pos}

-- The macros CL_…
pub data Code : Type 0 where
  cl_black cl_red cl_green cl_brown cl_blue cl_purple cl_cyan cl_white cl_bright_black : Code
  cl_bright_red cl_bright_green cl_bright_brown cl_bright_blue cl_bright_purple : Code
  cl_bright_cyan cl_bright_white cl_black_bold cl_red_bold cl_green_bold cl_brown_bold : Code
  cl_blue_bold cl_purple_bold cl_cyan_bold cl_white_bold cl_reset cl_bold cl_weaken : Code
  cl_italics cl_underline cl_twinkle cl_quick_twinkle cl_invert cl_hide cl_delete : Code
  cl_main_font cl_font1 cl_font2 cl_font3 cl_font4 cl_font5 cl_font6 cl_font7 cl_font8 : Code
  cl_font9 cl_angular cl_framed cl_encircled cl_overline cl_ideograph_underline : Code
  cl_ideograph_db_underline cl_ideograph_overline cl_ideograph_db_overline : Code
  cl_ideograph_focus cl_cancel_bold cl_cancel_color cl_cancel_italics cl_cancel_underline : Code
  cl_cancel_twinkle cl_cancel_invert cl_cancel_hide cl_cancel_delete cl_cancel_framed : Code
  cl_cancel_overline cl_cancel_ideograph cl_back_black cl_back_red cl_back_green : Code
  cl_back_brown cl_back_blue cl_back_purple cl_back_cyan cl_back_white cl_back_default : Code
  cl_bright_back_black cl_bright_back_red cl_bright_back_green cl_bright_back_brown : Code
  cl_bright_back_blue cl_bright_back_purple cl_bright_back_cyan cl_bright_back_white : Code
  cl_bright_back_default cl_end : Code

-- Their texts.
abbrev pub text : Code → String
text cl_black = "\u{1b}[30m"
text cl_red = "\u{1b}[31m"
text cl_green = "\u{1b}[32m"
text cl_brown = "\u{1b}[33m"
text cl_blue = "\u{1b}[34m"
text cl_purple = "\u{1b}[35m"
text cl_cyan = "\u{1b}[36m"
text cl_white = "\u{1b}[37m"
text cl_bright_black = "\u{1b}[90m"
text cl_bright_red = "\u{1b}[91m"
text cl_bright_green = "\u{1b}[92m"
text cl_bright_brown = "\u{1b}[93m"
text cl_bright_blue = "\u{1b}[94m"
text cl_bright_purple = "\u{1b}[95m"
text cl_bright_cyan = "\u{1b}[96m"
text cl_bright_white = "\u{1b}[97m"
text cl_black_bold = "\u{1b}[30;1m"
text cl_red_bold = "\u{1b}[31;1m"
text cl_green_bold = "\u{1b}[32;1m"
text cl_brown_bold = "\u{1b}[33;1m"
text cl_blue_bold = "\u{1b}[34;1m"
text cl_purple_bold = "\u{1b}[35;1m"
text cl_cyan_bold = "\u{1b}[36;1m"
text cl_white_bold = "\u{1b}[37;1m"
text cl_reset = "\u{1b}[0m"
text cl_bold = "\u{1b}[1m"
text cl_weaken = "\u{1b}[2m"
text cl_italics = "\u{1b}[3m"
text cl_underline = "\u{1b}[4m"
text cl_twinkle = "\u{1b}[5m"
text cl_quick_twinkle = "\u{1b}[6m"
text cl_invert = "\u{1b}[7m"
text cl_hide = "\u{1b}[8m"
text cl_delete = "\u{1b}[9m"
text cl_main_font = "\u{1b}[10m"
text cl_font1 = "\u{1b}[11m"
text cl_font2 = "\u{1b}[12m"
text cl_font3 = "\u{1b}[13m"
text cl_font4 = "\u{1b}[14m"
text cl_font5 = "\u{1b}[15m"
text cl_font6 = "\u{1b}[16m"
text cl_font7 = "\u{1b}[17m"
text cl_font8 = "\u{1b}[18m"
text cl_font9 = "\u{1b}[19m"
text cl_angular = "\u{1b}[20m"
text cl_framed = "\u{1b}[51m"
text cl_encircled = "\u{1b}[52m"
text cl_overline = "\u{1b}[53m"
text cl_ideograph_underline = "\u{1b}[60m"
text cl_ideograph_db_underline = "\u{1b}[61m"
text cl_ideograph_overline = "\u{1b}[62m"
text cl_ideograph_db_overline = "\u{1b}[63m"
text cl_ideograph_focus = "\u{1b}[64m"
text cl_cancel_bold = "\u{1b}[21m"
text cl_cancel_color = "\u{1b}[22m"
text cl_cancel_italics = "\u{1b}[23m"
text cl_cancel_underline = "\u{1b}[24m"
text cl_cancel_twinkle = "\u{1b}[25m"
text cl_cancel_invert = "\u{1b}[27m"
text cl_cancel_hide = "\u{1b}[28m"
text cl_cancel_delete = "\u{1b}[29m"
text cl_cancel_framed = "\u{1b}[54m"
text cl_cancel_overline = "\u{1b}[55m"
text cl_cancel_ideograph = "\u{1b}[65m"
text cl_back_black = "\u{1b}[40m"
text cl_back_red = "\u{1b}[41m"
text cl_back_green = "\u{1b}[42m"
text cl_back_brown = "\u{1b}[43m"
text cl_back_blue = "\u{1b}[44m"
text cl_back_purple = "\u{1b}[45m"
text cl_back_cyan = "\u{1b}[46m"
text cl_back_white = "\u{1b}[47m"
text cl_back_default = "\u{1b}[49m"
text cl_bright_back_black = "\u{1b}[100m"
text cl_bright_back_red = "\u{1b}[101m"
text cl_bright_back_green = "\u{1b}[102m"
text cl_bright_back_brown = "\u{1b}[103m"
text cl_bright_back_blue = "\u{1b}[104m"
text cl_bright_back_purple = "\u{1b}[105m"
text cl_bright_back_cyan = "\u{1b}[106m"
text cl_bright_back_white = "\u{1b}[107m"
text cl_bright_back_default = "\u{1b}[109m"
text cl_end = "\u{1b}[0m"

-- `progress_cl`
pub data ProgressCl : Type 0 where
  progress_black progress_red progress_green progress_brown progress_blue progress_purple
        progress_cyan progress_white :
      ProgressCl

abbrev pub cl_value : ProgressCl → ℤ
cl_value progress_black = pos 0
cl_value progress_red = pos 1
cl_value progress_green = pos 2
cl_value progress_brown = pos 3
cl_value progress_blue = pos 4
cl_value progress_purple = pos 5
cl_value progress_cyan = pos 6
cl_value progress_white = pos 7

-- `progress_bgcl`
pub data ProgressBgcl : Type 0 where
  progress_bg_default progress_bg_black progress_bg_red progress_bg_green progress_bg_brown
        progress_bg_blue progress_bg_purple progress_bg_cyan progress_bg_white :
      ProgressBgcl

abbrev pub bgcl_value : ProgressBgcl → ℤ
bgcl_value progress_bg_default = pos 0
bgcl_value progress_bg_black = pos 1
bgcl_value progress_bg_red = pos 2
bgcl_value progress_bg_green = pos 3
bgcl_value progress_bg_brown = pos 4
bgcl_value progress_bg_blue = pos 5
bgcl_value progress_bg_purple = pos 6
bgcl_value progress_bg_cyan = pos 7
bgcl_value progress_bg_white = pos 8
