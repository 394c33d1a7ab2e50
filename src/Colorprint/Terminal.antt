-- ===== src/Colorprint/Terminal.antt =====
-- What a terminal makes of the output: the characters, and the control sequences SGR, each with its
-- parameters.
use myfreelib.Base.{ℕ, String, List, [], ◌∷◌, ◌++◌, ◌≢◌, ◌+◌, ◌-◌, ◌*◌, ◌==◌, codes, if◌then◌else◌}
use myfreelib.Colorprint.Codes.{Code, text}

pub data Shown : Type 0 where
  char : (c : ℕ) → Shown
  sgr : (parameters : List ℕ) → Shown

-- Between control sequences, after the escape character, or in the parameters: those that are
-- complete, and the one being read.
data Mode : Type 0 where
  plain escaped : Mode
  numbers : (complete : List ℕ) → (current : ℕ) → Mode

abbrev advance : Mode → (c : ℕ) → Mode × List Shown
advance plain c = if c == 0x1b then (escaped, []) else (plain, char c ∷ [])
advance escaped c = if c == b'[' then (numbers [] 0, []) else (plain, [])
advance (numbers ns n) c =
    if c == b'm'
    then (plain, sgr (ns ++ n ∷ []) ∷ [])
    else if c == b';'
    then (numbers (ns ++ n ∷ []) 0, [])
    else (numbers ns (n * 10 + (c - b'0')), [])

read_on : Mode → List ℕ → List Shown
read_on mode [] = []
read_on mode (c ∷ cs) = let (mode', shown) = advance mode c in shown ++ read_on mode' cs

pub decode : List ℕ → List Shown
unfolding read_on
decode cs = read_on plain cs

-- The parameters that the macros are meant to send.
abbrev sgr_of : Code → List ℕ
sgr_of Code.cl_black = 30 ∷ []
sgr_of Code.cl_red = 31 ∷ []
sgr_of Code.cl_green = 32 ∷ []
sgr_of Code.cl_brown = 33 ∷ []
sgr_of Code.cl_blue = 34 ∷ []
sgr_of Code.cl_purple = 35 ∷ []
sgr_of Code.cl_cyan = 36 ∷ []
sgr_of Code.cl_white = 37 ∷ []
sgr_of Code.cl_bright_black = 90 ∷ []
sgr_of Code.cl_bright_red = 91 ∷ []
sgr_of Code.cl_bright_green = 92 ∷ []
sgr_of Code.cl_bright_brown = 93 ∷ []
sgr_of Code.cl_bright_blue = 94 ∷ []
sgr_of Code.cl_bright_purple = 95 ∷ []
sgr_of Code.cl_bright_cyan = 96 ∷ []
sgr_of Code.cl_bright_white = 97 ∷ []
sgr_of Code.cl_black_bold = 30 ∷ 1 ∷ []
sgr_of Code.cl_red_bold = 31 ∷ 1 ∷ []
sgr_of Code.cl_green_bold = 32 ∷ 1 ∷ []
sgr_of Code.cl_brown_bold = 33 ∷ 1 ∷ []
sgr_of Code.cl_blue_bold = 34 ∷ 1 ∷ []
sgr_of Code.cl_purple_bold = 35 ∷ 1 ∷ []
sgr_of Code.cl_cyan_bold = 36 ∷ 1 ∷ []
sgr_of Code.cl_white_bold = 37 ∷ 1 ∷ []
sgr_of Code.cl_reset = 0 ∷ []
sgr_of Code.cl_bold = 1 ∷ []
sgr_of Code.cl_weaken = 2 ∷ []
sgr_of Code.cl_italics = 3 ∷ []
sgr_of Code.cl_underline = 4 ∷ []
sgr_of Code.cl_twinkle = 5 ∷ []
sgr_of Code.cl_quick_twinkle = 6 ∷ []
sgr_of Code.cl_invert = 7 ∷ []
sgr_of Code.cl_hide = 8 ∷ []
sgr_of Code.cl_delete = 9 ∷ []
sgr_of Code.cl_main_font = 10 ∷ []
sgr_of Code.cl_font1 = 11 ∷ []
sgr_of Code.cl_font2 = 12 ∷ []
sgr_of Code.cl_font3 = 13 ∷ []
sgr_of Code.cl_font4 = 14 ∷ []
sgr_of Code.cl_font5 = 15 ∷ []
sgr_of Code.cl_font6 = 16 ∷ []
sgr_of Code.cl_font7 = 17 ∷ []
sgr_of Code.cl_font8 = 18 ∷ []
sgr_of Code.cl_font9 = 19 ∷ []
sgr_of Code.cl_angular = 20 ∷ []
sgr_of Code.cl_framed = 51 ∷ []
sgr_of Code.cl_encircled = 52 ∷ []
sgr_of Code.cl_overline = 53 ∷ []
sgr_of Code.cl_ideograph_underline = 60 ∷ []
sgr_of Code.cl_ideograph_db_underline = 61 ∷ []
sgr_of Code.cl_ideograph_overline = 62 ∷ []
sgr_of Code.cl_ideograph_db_overline = 63 ∷ []
sgr_of Code.cl_ideograph_focus = 64 ∷ []
sgr_of Code.cl_cancel_bold = 21 ∷ []
sgr_of Code.cl_cancel_color = 22 ∷ []
sgr_of Code.cl_cancel_italics = 23 ∷ []
sgr_of Code.cl_cancel_underline = 24 ∷ []
sgr_of Code.cl_cancel_twinkle = 25 ∷ []
sgr_of Code.cl_cancel_invert = 27 ∷ []
sgr_of Code.cl_cancel_hide = 28 ∷ []
sgr_of Code.cl_cancel_delete = 29 ∷ []
sgr_of Code.cl_cancel_framed = 54 ∷ []
sgr_of Code.cl_cancel_overline = 55 ∷ []
sgr_of Code.cl_cancel_ideograph = 65 ∷ []
sgr_of Code.cl_back_black = 40 ∷ []
sgr_of Code.cl_back_red = 41 ∷ []
sgr_of Code.cl_back_green = 42 ∷ []
sgr_of Code.cl_back_brown = 43 ∷ []
sgr_of Code.cl_back_blue = 44 ∷ []
sgr_of Code.cl_back_purple = 45 ∷ []
sgr_of Code.cl_back_cyan = 46 ∷ []
sgr_of Code.cl_back_white = 47 ∷ []
sgr_of Code.cl_back_default = 49 ∷ []
sgr_of Code.cl_bright_back_black = 100 ∷ []
sgr_of Code.cl_bright_back_red = 101 ∷ []
sgr_of Code.cl_bright_back_green = 102 ∷ []
sgr_of Code.cl_bright_back_brown = 103 ∷ []
sgr_of Code.cl_bright_back_blue = 104 ∷ []
sgr_of Code.cl_bright_back_purple = 105 ∷ []
sgr_of Code.cl_bright_back_cyan = 106 ∷ []
sgr_of Code.cl_bright_back_white = 107 ∷ []
sgr_of Code.cl_bright_back_default = 109 ∷ []
sgr_of Code.cl_end = 0 ∷ []

-- The parts of a format string.
pub data Piece : Type 0 where
  code : Code → Piece
  txt : String → Piece

abbrev pub render : List Piece → List ℕ
render [] = []
render (code c ∷ ps) = codes (text c) ++ render ps
render (txt s ∷ ps) = codes s ++ render ps

-- The texts have no escape character.
abbrev NoEscape : List ℕ → Type 0
NoEscape [] = Unit {0}
NoEscape (c ∷ cs) = (c ≢ 0x1b) × NoEscape cs

abbrev pub IsPrintable : List Piece → Type 0
IsPrintable [] = Unit {0}
IsPrintable (code c ∷ ps) = IsPrintable ps
IsPrintable (txt s ∷ ps) = NoEscape (codes s) × IsPrintable ps

abbrev chars : List ℕ → List Shown
chars [] = []
chars (c ∷ cs) = char c ∷ chars cs

-- What the parts are to show.
abbrev pub meaning : List Piece → List Shown
meaning [] = []
meaning (code c ∷ ps) = sgr (sgr_of c) ∷ meaning ps
meaning (txt s ∷ ps) = chars (codes s) ++ meaning ps
