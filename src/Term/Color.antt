-- ===== src/Term/Color.antt =====
-- `struct nl_term_color` and the tables of colors.
use nlutils.Prelude.{ℕ, Option, List, [], ◌∷◌, get_elem?}

-- `enum nl_term_color_type`
pub data ColorType : Type 0 where
  default_color standard_color xterm256_color rgb_color : ColorType

-- `enum nl_term_intensity`; bold is another name for intense.
pub data Intensity : Type 0 where
  normal intense faint : Intensity

pub record TermColor : Type 0 where
  pub r : ℕ
  pub g : ℕ
  pub b : ℕ
  pub xterm256 : ℕ
  pub ansi : ℕ
  pub color_type : ColorType

abbrev pub color : (r g b xterm256 ansi : ℕ) → ColorType → TermColor
color r g b x a t = record { r = r; g = g; b = b; xterm256 = x; ansi = a; color_type = t }

abbrev pub default_foreground : TermColor
default_foreground = color 158 158 158 7 7 default_color

abbrev pub default_background : TermColor
default_background = color 16 16 16 0 0 default_color

abbrev pub bold_foreground : TermColor
bold_foreground = color 234 234 234 15 7 default_color

abbrev pub faint_foreground : TermColor
faint_foreground = color 80 80 80 7 7 default_color

-- The rows of `nl_term_standard_colors`.
abbrev pub standard_colors : Intensity → List TermColor
standard_colors normal =
    color 36 36 36 0 0 standard_color
    ∷ color 204 66 66 1 1 standard_color
    ∷ color 104 154 51 2 2 standard_color
    ∷ color 196 165 42 3 3 standard_color
    ∷ color 61 107 164 4 4 standard_color
    ∷ color 116 80 123 5 5 standard_color
    ∷ color 63 154 154 6 6 standard_color
    ∷ color 158 158 158 7 7 standard_color
    ∷ default_foreground
    ∷ default_background
    ∷ []
standard_colors intense =
    color 70 70 70 8 0 standard_color
    ∷ color 225 70 70 9 1 standard_color
    ∷ color 138 196 81 10 2 standard_color
    ∷ color 205 189 83 11 3 standard_color
    ∷ color 85 146 207 12 4 standard_color
    ∷ color 173 115 167 13 5 standard_color
    ∷ color 78 190 190 14 6 standard_color
    ∷ color 234 234 234 15 7 standard_color
    ∷ bold_foreground
    ∷ default_background
    ∷ []
standard_colors faint =
    color 24 24 24 0 0 standard_color
    ∷ color 140 41 41 1 1 standard_color
    ∷ color 70 100 41 2 2 standard_color
    ∷ color 100 87 40 3 3 standard_color
    ∷ color 39 78 125 4 4 standard_color
    ∷ color 95 65 100 5 5 standard_color
    ∷ color 35 80 80 6 6 standard_color
    ∷ color 80 80 80 7 7 standard_color
    ∷ bold_foreground
    ∷ default_background
    ∷ []

-- `nl_term_standard_colors[i][n]`; `none` is a read outside of the table.
unfoldable pub nl_term_standard_colors : Intensity → ℕ → Option TermColor
nl_term_standard_colors i n = get_elem? (standard_colors i) n

abbrev gray : (level index : ℕ) → TermColor
gray level index = color level level level index 0 xterm256_color

abbrev zeroed : TermColor
zeroed = color 0 0 0 0 0 standard_color

-- The array has 32 places, and the last eight, which have no initializer, are zero.
abbrev pub xterm_grays : List TermColor
xterm_grays =
    gray 0x08 232
    ∷ gray 0x12 233
    ∷ gray 0x1c 234
    ∷ gray 0x26 235
    ∷ gray 0x30 236
    ∷ gray 0x3a 237
    ∷ gray 0x44 238
    ∷ gray 0x4e 239
    ∷ gray 0x58 240
    ∷ gray 0x62 241
    ∷ gray 0x6c 242
    ∷ gray 0x76 243
    ∷ gray 0x80 244
    ∷ gray 0x8a 245
    ∷ gray 0x94 246
    ∷ gray 0x9e 247
    ∷ gray 0xa8 248
    ∷ gray 0xb2 249
    ∷ gray 0xbc 250
    ∷ gray 0xc6 251
    ∷ gray 0xd0 252
    ∷ gray 0xda 253
    ∷ gray 0xe4 254
    ∷ gray 0xee 255
    ∷ zeroed
    ∷ zeroed
    ∷ zeroed
    ∷ zeroed
    ∷ zeroed
    ∷ zeroed
    ∷ zeroed
    ∷ zeroed
    ∷ []

unfoldable pub nl_term_xterm_grays : ℕ → Option TermColor
nl_term_xterm_grays n = get_elem? xterm_grays n

unfoldable pub xterm_rgb_values : ℕ → Option ℕ
xterm_rgb_values n = get_elem? (0 ∷ 95 ∷ 135 ∷ 175 ∷ 215 ∷ 255 ∷ []) n
