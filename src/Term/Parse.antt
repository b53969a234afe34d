-- ===== src/Term/Parse.antt =====
-- `nl_term_parse_ansi_color` of src/term.c.
use nlutils.Prelude.{
  ℕ, zero, suc, ◌+◌, ◌-◌, ◌/◌, ◌%◌, Bool, true, false, not, ◌&&◌, ◌||◌, Option, none, some, ltb,
  leb, ◌==◌, if◌then◌else◌, length, drop,
}
use nlutils.Prelude.Int.{ℤ, pos, negsuc}
use nlutils.Ctype.{Bytes, byte_at}
use nlutils.Ctype.Number.{strtoul10}
use nlutils.Term.Color.{
  xterm256_color, rgb_color, normal, intense, faint, TermColor, color, default_foreground,
  default_background, nl_term_standard_colors, nl_term_xterm_grays, xterm_rgb_values,
}
use nlutils.Term.Style.{
  TermState, nl_init_term_state, set_color_intensity, with_fg, with_bg, Target, foreground_color,
  background_color, set_target_color,
}

-- `enum color_parse_state`
pub data ParseState : Type 0 where
  expect_control expect_semicolon expect_2_or_5 expect_xterm_256 expect_red expect_green
        expect_blue :
      ParseState

-- The local variables; `text` is what is left at `ptr`, and `off` is `ptr - s`.
pub record ColorParse : Type 0 where
  pub text : Bytes
  pub off : ℕ
  pub ps : ParseState
  pub next_ps : ParseState
  pub color_target : Target
  pub parse_color : TermColor
  pub new_state : TermState
  pub loops : ℕ

-- How a round ends: the loop goes on, the function returns 0 or the number of characters with the new
-- state, or a table is read outside of its bounds.
pub data Round : Type 0 where
  going : ColorParse → Round
  accepted : ℕ → TermState → Round
  rejected : Round
  bad_read : Round
  unfinished : Round

abbrev pub max_color_parse_length : ℕ
max_color_parse_length = 512

abbrev pub max_color_parse_loops : ℕ
max_color_parse_loops = 256

-- The inner `switch` of `EXPECT_CONTROL`, but for 38 and 48.
unfoldable pub control_code : ℕ → TermState → Option TermState
control_code n s =
    if n == 0
    then some nl_init_term_state
    else if n == 1
    then set_color_intensity (record s { intensity = intense })
    else if n == 2
    then set_color_intensity (record s { intensity = faint })
    else if n == 3
    then some (record s { italic = true })
    else if n == 4
    then some (record s { underline = true })
    else if n == 5
    then some (record s { blink = true })
    else if n == 7
    then some (record s { reverse = true })
    else if n == 9
    then some (record s { strikethrough = true })
    else if n == 22
    then set_color_intensity (record s { intensity = normal })
    else if n == 23
    then some (record s { italic = false })
    else if n == 24
    then some (record s { underline = false })
    else if n == 25
    then some (record s { blink = false })
    else if n == 27
    then some (record s { reverse = false })
    else if n == 29
    then some (record s { strikethrough = false })
    else if n == 39
    then set_color_intensity (record s { fg = default_foreground })
    else if n == 49
    then some (record s { bg = default_background })
    else if leb 30 n && leb n 37
    then with_fg s (nl_term_standard_colors s.intensity (n - 30))
    else if leb 40 n && leb n 47
    then with_bg s (nl_term_standard_colors normal (n - 40))
    else some s

-- The colors of the cube; `rgb` is a `uint8_t`, which `n - 16` fits.
unfoldable pub cube_color : ℕ → Option TermColor
cube_color n =
    let rgb = n - 16 in
    elim (xterm_rgb_values (rgb / 36)) [
      | none ↦ none
      | some r ↦ elim (xterm_rgb_values (rgb / 6 % 6)) [
        | none ↦ none
        | some g ↦ elim (xterm_rgb_values (rgb % 6)) [
          | none ↦ none
          | some b ↦ some (color r g b n 0 xterm256_color)
        ]
      ]
    ]

abbrev pub as_xterm256 : Option TermColor → Option TermColor
as_xterm256 none = none
as_xterm256 (some c) = some (record c { color_type = xterm256_color })

-- `n` is reduced to 8 bits already.
unfoldable pub xterm_color : ℕ → Option TermColor
xterm_color n = as_xterm256 (
    if ltb n 8
    then nl_term_standard_colors normal n
    else if ltb n 16
    then nl_term_standard_colors intense (n - 8)
    else if ltb n 232
    then cube_color n
    else nl_term_xterm_grays (n - 232))

-- `ptr = endptr`, and `ps = EXPECT_SEMICOLON`, behind a number of `used` characters.
abbrev pub past : ℕ → ColorParse → ColorParse
past used p = record p { text = drop used p.text; off = p.off + used; ps = expect_semicolon }

abbrev pub with_state : ColorParse → Option TermState → Round
with_state p none = bad_read
with_state p (some s) = going (record p { next_ps = expect_control; new_state = s })

unfoldable pub control_step : ℕ → ColorParse → Round
control_step n p =
    if n == 38
    then going (record p { next_ps = expect_2_or_5; color_target = foreground_color })
    else if n == 48
    then going (record p { next_ps = expect_2_or_5; color_target = background_color })
    else with_state p (control_code n p.new_state)

unfoldable pub kind_step : ℕ → ColorParse → Round
kind_step n p =
    if n == 2
    then going (record p {
      next_ps = expect_red;
      parse_color = record p.parse_color { xterm256 = 0; ansi = 0; color_type = rgb_color };
    })
    else if n == 5
    then going (record p {
      next_ps = expect_xterm_256;
      parse_color = record p.parse_color { ansi = 0; color_type = xterm256_color };
    })
    else going (record p { next_ps = expect_control })

-- The color is read whole, and stored.
abbrev pub store_color : ColorParse → TermColor → ColorParse
store_color p c = record p {
  next_ps = expect_control;
  parse_color = c;
  new_state = set_target_color p.new_state p.color_target c;
}

abbrev pub with_color : ColorParse → Option TermColor → Round
with_color p none = bad_read
with_color p (some c) = going (store_color p c)

unfoldable pub xterm_step : ℕ → ColorParse → Round
xterm_step n p = with_color p (xterm_color (n % 256))

-- What is done with the number read in a state.
unfoldable pub number_step : ParseState → ℕ → ColorParse → Round
number_step expect_control n p = control_step n p
number_step expect_2_or_5 n p = kind_step n p
number_step expect_xterm_256 n p = xterm_step n p
number_step expect_red n p =
    going (record p { next_ps = expect_green; parse_color = record p.parse_color { r = n % 256 } })
number_step expect_green n p =
    going (record p { next_ps = expect_blue; parse_color = record p.parse_color { g = n % 256 } })
number_step expect_blue n p = going (store_color p (record p.parse_color { b = n % 256 }))
number_step expect_semicolon n p = rejected

unfoldable pub read_number : ColorParse → Round
read_number p =
    let (n, used) = strtoul10 p.text in
    if used == 0 then rejected else number_step p.ps n (past used p)

unfoldable pub read_semicolon : ColorParse → Round
read_semicolon p =
    if not (byte_at p.text 0 == b';')
    then rejected
    else going (record p {
      text = drop 1 p.text;
      off = p.off + 1;
      ps = p.next_ps;
      next_ps = expect_control;
    })

abbrev pub is_semicolon : ParseState → Bool
is_semicolon expect_semicolon = true
is_semicolon _ = false

-- One round of `while(*ptr)`. `loops` is compared and never counted up.
unfoldable pub parse_step : ColorParse → Round
parse_step p =
    if ltb max_color_parse_length p.off
    then rejected
    else if ltb max_color_parse_loops p.loops
    then rejected
    else if byte_at p.text 0 == b'm'
    then accepted (p.off + 1) p.new_state
    else if is_semicolon p.ps
    then read_semicolon p
    else read_number p

abbrev pub go_on : (ColorParse → Round) → Round → Round
go_on k (going p) = k p
go_on k r = r

-- Bounded by the first argument.
unfoldable pub parse_loop : ℕ → ColorParse → Round
parse_loop zero p = unfinished
parse_loop (suc fuel) p = elim (byte_at p.text 0 == 0) [
  | true ↦ rejected
  | false ↦ go_on (parse_loop fuel) (parse_step p)
]

abbrev pub parse_begin : Bytes → TermState → ColorParse
parse_begin s state = record {
  text = drop 2 s;
  off = 2;
  ps = expect_control;
  next_ps = expect_semicolon;
  color_target = foreground_color;
  parse_color = default_foreground;
  new_state = state;
  loops = 0;
}

abbrev pub result_of : TermState → Round → Option (ℤ × Option TermState)
result_of state (accepted n s) = some (pos n, some s)
result_of state rejected = some (pos 0, some state)
result_of state bad_read = none
result_of state unfinished = none
result_of state (going p) = none

-- The return value and `*state`. `none` as an argument is NULL; as the result it is a read outside of a
-- table, or a loop that has not ended.
unfoldable pub nl_term_parse_ansi_color :
    Option Bytes → Option TermState → Option (ℤ × Option TermState)
nl_term_parse_ansi_color none state = some (negsuc 0, state)
nl_term_parse_ansi_color (some s) none = some (negsuc 0, none)
nl_term_parse_ansi_color (some s) (some state) =
    if not (byte_at s 0 == 0x1b) || not (byte_at s 1 == b'[')
    then some (pos 0, some state)
    else result_of state (parse_loop (suc (length s)) (parse_begin s state))
