-- ===== src/Term/Style.antt =====
-- `struct nl_term_state`, and the functions of src/term.c that change its colors. `none` is a read
-- outside of a table.
use nlutils.Prelude.{◌-◌, Bool, false, not, ◌&&◌, Option, none, some, ltb, if◌then◌else◌}
use nlutils.Term.Color.{
  default_color, standard_color, xterm256_color, rgb_color, Intensity, normal, intense, faint,
  TermColor, default_foreground, default_background, bold_foreground, faint_foreground,
  nl_term_standard_colors,
}

pub record TermState : Type 0 where
  pub fg : TermColor
  pub bg : TermColor
  pub intensity : Intensity
  pub italic : Bool
  pub underline : Bool
  pub blink : Bool
  pub reverse : Bool
  pub strikethrough : Bool

-- `nl_default_term_state`, which `nl_init_term_state` stores.
abbrev pub nl_init_term_state : TermState
nl_init_term_state = record {
  fg = default_foreground;
  bg = default_background;
  intensity = normal;
  italic = false;
  underline = false;
  blink = false;
  reverse = false;
  strikethrough = false;
}

unfoldable pub make_color_faint : TermColor → Option TermColor
make_color_faint c = elim c.color_type [
  | default_color ↦ some faint_foreground
  | standard_color ↦ nl_term_standard_colors faint c.ansi
  | xterm256_color ↦
      if ltb c.xterm256 8
      then nl_term_standard_colors faint c.xterm256
      else if ltb c.xterm256 16
      then nl_term_standard_colors faint (c.xterm256 - 8)
      else some c
  | rgb_color ↦ some c
]

unfoldable pub make_color_intense : TermColor → Option TermColor
make_color_intense c = elim c.color_type [
  | default_color ↦ some bold_foreground
  | standard_color ↦ nl_term_standard_colors intense c.ansi
  | xterm256_color ↦ if ltb c.xterm256 8 then nl_term_standard_colors intense c.xterm256 else some c
  | rgb_color ↦ some c
]

unfoldable pub make_color_normal : TermColor → Option TermColor
make_color_normal c = elim c.color_type [
  | default_color ↦ some default_foreground
  | standard_color ↦ nl_term_standard_colors normal c.ansi
  | xterm256_color ↦
      if not (ltb c.xterm256 8) && ltb c.xterm256 16
      then nl_term_standard_colors normal (c.xterm256 - 8)
      else some c
  | rgb_color ↦ some c
]

-- The color of a new intensity.
unfoldable pub color_with : Intensity → TermColor → Option TermColor
color_with normal c = make_color_normal c
color_with intense c = make_color_intense c
color_with faint c = make_color_faint c

abbrev pub with_fg : TermState → Option TermColor → Option TermState
with_fg s none = none
with_fg s (some c) = some (record s { fg = c })

abbrev pub with_bg : TermState → Option TermColor → Option TermState
with_bg s none = none
with_bg s (some c) = some (record s { bg = c })

unfoldable pub set_color_intensity : TermState → Option TermState
set_color_intensity s = with_fg s (color_with s.intensity s.fg)

-- `enum target_color`
pub data Target : Type 0 where
  foreground_color background_color : Target

unfoldable pub set_target_color : TermState → Target → TermColor → TermState
set_target_color s background_color c = record s { bg = c }
set_target_color s foreground_color c = record s { fg = c }
