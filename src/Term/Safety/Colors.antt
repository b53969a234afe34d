-- ===== src/Term/Safety/Colors.antt =====
-- The tables of src/term.c are read inside of their bounds, and the fields of a color fit their types.
use nlutils.Prelude.{
  ℕ, zero, suc, ◌-◌, ◌/◌, ◌%◌, ◌<◌, ◌≤◌, ◌≡◌, refl, Option, none, some, List, [], ◌∷◌, arith,
  length, get_elem?,
}
use nlutils.Ctype.{All}
use nlutils.Term.Color.{
  Intensity, normal, intense, faint, TermColor, standard_colors, xterm_grays, default_foreground,
  nl_term_standard_colors, nl_term_xterm_grays, xterm_rgb_values,
}
use nlutils.Term.Style.{
  TermState, make_color_faint, make_color_intense, make_color_normal, color_with,
  set_color_intensity, with_fg, with_bg,
}
use nlutils.Term.Parse.{control_code, cube_color, xterm_color, as_xterm256}

-- The fields fit their types: `uint8_t`, and three bits for `ansi`.
abbrev pub IsColor : TermColor → Type 0
IsColor c = (c.r < 256) × (c.g < 256) × (c.b < 256) × (c.xterm256 < 256) × (c.ansi < 8)

abbrev pub IsTermState : TermState → Type 0
IsTermState s = IsColor s.fg × IsColor s.bg

-- A color is there, and its fields fit.
abbrev pub Gives : Option TermColor → Type 0
Gives none = ⊥
Gives (some c) = IsColor c

abbrev pub GivesState : Option TermState → Type 0
GivesState none = ⊥
GivesState (some s) = IsTermState s

get_elem?-Gives :
    (cs : List TermColor) (n : ℕ) → All IsColor cs → n < length cs → Gives (get_elem? cs n)
get_elem?-Gives [] n h l = elim l [ ]
get_elem?-Gives (c ∷ cs) zero h l = h.0
get_elem?-Gives (c ∷ cs) (suc n) h l = get_elem?-Gives cs n h.1 (omega arith)

standard-Gives : (i : Intensity) (n : ℕ) → n < 10 → Gives (nl_term_standard_colors i n)
unfolding nl_term_standard_colors
standard-Gives normal n h = get_elem?-Gives (standard_colors normal) n (omega arith) h
standard-Gives intense n h = get_elem?-Gives (standard_colors intense) n (omega arith) h
standard-Gives faint n h = get_elem?-Gives (standard_colors faint) n (omega arith) h

grays-Gives : (n : ℕ) → n < 32 → Gives (nl_term_xterm_grays n)
unfolding nl_term_xterm_grays
grays-Gives n h = get_elem?-Gives xterm_grays n (omega arith) h

rgb_value : (n : ℕ) → n < 6 → (v : ℕ) × (xterm_rgb_values n ≡ some v) × (v < 256)
unfolding xterm_rgb_values
rgb_value zero h = (0, refl, omega arith)
rgb_value (suc zero) h = (95, refl, omega arith)
rgb_value (suc (suc zero)) h = (135, refl, omega arith)
rgb_value (suc (suc (suc zero))) h = (175, refl, omega arith)
rgb_value (suc (suc (suc (suc zero)))) h = (215, refl, omega arith)
rgb_value (suc (suc (suc (suc (suc zero))))) h = (255, refl, omega arith)
rgb_value (suc (suc (suc (suc (suc (suc n)))))) h = absurd (omega arith)

cube-Gives : (n : ℕ) → 16 ≤ n → n < 232 → Gives (cube_color n)
unfolding cube_color
cube-Gives n low high =
    let rgb = n - 16 in
    let (r, er, hr) = rgb_value (rgb / 36) (omega arith) in
    let (g, eg, hg) = rgb_value (rgb / 6 % 6) (omega arith) in
    let (b, eb, hb) = rgb_value (rgb % 6) (omega arith) in
    rw (er, eg, eb, cube_color) (hr, hg, hb, omega arith, omega arith)

as_xterm256-Gives : (c : Option TermColor) → Gives c → Gives (as_xterm256 c)
as_xterm256-Gives none h = h
as_xterm256-Gives (some c) h = h

pub xterm-Gives : (n : ℕ) → n < 256 → Gives (xterm_color n)
unfolding xterm_color
xterm-Gives n h = as_xterm256-Gives _ (
    ground (
      arith,
      standard-Gives normal n,
      standard-Gives intense (n - 8),
      cube-Gives n,
      grays-Gives (n - 232),
    ))

color_with-Gives : (i : Intensity) (c : TermColor) → IsColor c → Gives (color_with i c)
unfolding color_with make_color_normal make_color_intense make_color_faint
color_with-Gives normal c h =
    ground (arith, standard-Gives normal c.ansi, standard-Gives normal (c.xterm256 - 8))
color_with-Gives intense c h =
    ground (arith, standard-Gives intense c.ansi, standard-Gives intense c.xterm256)
color_with-Gives faint c h = ground (
  arith,
  standard-Gives faint c.ansi,
  standard-Gives faint c.xterm256,
  standard-Gives faint (c.xterm256 - 8),
)

pub with_fg-Gives :
    (s : TermState) (c : Option TermColor) → IsTermState s → Gives c → GivesState (with_fg s c)
with_fg-Gives s none h g = g
with_fg-Gives s (some c) h g = (g, h.1)

with_bg-Gives :
    (s : TermState) (c : Option TermColor) → IsTermState s → Gives c → GivesState (with_bg s c)
with_bg-Gives s none h g = g
with_bg-Gives s (some c) h g = (h.0, g)

intensity-Gives : (s : TermState) → IsTermState s → GivesState (set_color_intensity s)
unfolding set_color_intensity
intensity-Gives s h =
    with_fg-Gives s (color_with s.intensity s.fg) h (color_with-Gives s.intensity s.fg h.0)

pub control_code-Gives : (n : ℕ) (s : TermState) → IsTermState s → GivesState (control_code n s)
unfolding control_code
control_code-Gives n s h = ground (
  arith,
  intensity-Gives (record s { intensity = intense }) h,
  intensity-Gives (record s { intensity = faint }) h,
  intensity-Gives (record s { intensity = normal }) h,
  intensity-Gives (record s { fg = default_foreground }) (omega arith),
  with_fg-Gives s (nl_term_standard_colors s.intensity (n - 30)) h,
  with_bg-Gives s (nl_term_standard_colors normal (n - 40)) h,
  standard-Gives s.intensity (n - 30),
  standard-Gives normal (n - 40),
)
