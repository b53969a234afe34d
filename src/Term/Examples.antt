-- ===== src/Term/Examples.antt =====
-- Runs of the parser of src/term.c on concrete strings.
use nlutils.Prelude.{true, List, ◌≡◌, refl, none, some, [], ◌∷◌, length, arith}
use nlutils.Prelude.Int.{pos, negsuc}
use nlutils.Ctype.{Bytes, codes, All, isdigit}
use nlutils.Ctype.Number.{IsNumeral, number_from}
use nlutils.Term.Color.{rgb_color, xterm256_color, color, default_background}
use nlutils.Term.Style.{TermState, nl_init_term_state}
use nlutils.Term.Parse.{nl_term_parse_ansi_color}
use nlutils.Term.Safety.{Outcome, nl_term_parse_ansi_color-Outcome}
use nlutils.Term.Safety.Colors.{IsTermState}
use nlutils.Term.Codes.{sequence, values, codes_of}
use nlutils.Term.Codes.Run.{nl_term_parse_ansi_color-codes_of}

abbrev escape : Bytes → Bytes
escape s = 0x1b ∷ b'[' ∷ s

gray_test :
    nl_term_parse_ansi_color (some (escape (codes "38;2;128;128;128m"))) (some nl_init_term_state)
    ≡ some (pos 19, some (record nl_init_term_state { fg = color 128 128 128 0 0 rgb_color }))
unfolding nl_term_parse_ansi_color nlutils.Term.Parse.parse_loop nlutils.Term.Parse.parse_step
    nlutils.Term.Parse.read_number nlutils.Ctype.Number.strtoul10 nlutils.Ctype.isspace isdigit
    nlutils.Term.Parse.number_step nlutils.Term.Parse.control_step nlutils.Term.Parse.read_semicolon
    nlutils.Term.Parse.kind_step nlutils.Term.Parse.xterm_step nlutils.Term.Parse.xterm_color
    nlutils.Term.Parse.cube_color nlutils.Term.Color.xterm_rgb_values
    nlutils.Term.Parse.control_code nlutils.Term.Style.set_target_color
    nlutils.Ctype.Number.read_digits nlutils.Ctype.Number.spaces nlutils.Ctype.Number.to_ulong
gray_test = refl

cube_test :
    nl_term_parse_ansi_color (some (escape (codes "48;5;140;3mab"))) (some nl_init_term_state)
    ≡ some (
      pos 13,
      some (record nl_init_term_state {
        bg = color 0xaf 0x87 0xd7 140 0 xterm256_color;
        italic = true;
      }),
    )
unfolding nl_term_parse_ansi_color nlutils.Term.Parse.parse_loop nlutils.Term.Parse.parse_step
    nlutils.Term.Parse.read_number nlutils.Ctype.Number.strtoul10 nlutils.Ctype.isspace isdigit
    nlutils.Term.Parse.number_step nlutils.Term.Parse.control_step nlutils.Term.Parse.read_semicolon
    nlutils.Term.Parse.kind_step nlutils.Term.Parse.xterm_step nlutils.Term.Parse.xterm_color
    nlutils.Term.Parse.cube_color nlutils.Term.Color.xterm_rgb_values
    nlutils.Term.Parse.control_code nlutils.Term.Style.set_target_color
    nlutils.Ctype.Number.read_digits nlutils.Ctype.Number.spaces nlutils.Ctype.Number.to_ulong
cube_test = refl

semicolon_test :
    nl_term_parse_ansi_color (some (escape (codes "3;;4m"))) (some nl_init_term_state)
    ≡ some (pos 0, some nl_init_term_state)
unfolding nl_term_parse_ansi_color nlutils.Term.Parse.parse_loop nlutils.Term.Parse.parse_step
    nlutils.Term.Parse.read_number nlutils.Ctype.Number.strtoul10 nlutils.Ctype.isspace isdigit
    nlutils.Term.Parse.number_step nlutils.Term.Parse.control_step nlutils.Term.Parse.read_semicolon
    nlutils.Term.Parse.kind_step nlutils.Term.Parse.xterm_step nlutils.Term.Parse.xterm_color
    nlutils.Term.Parse.cube_color nlutils.Term.Color.xterm_rgb_values
    nlutils.Term.Parse.control_code nlutils.Term.Style.set_target_color
    nlutils.Ctype.Number.read_digits nlutils.Ctype.Number.spaces nlutils.Ctype.Number.to_ulong
semicolon_test = refl

null_test :
    nl_term_parse_ansi_color none (some nl_init_term_state)
    ≡ some (negsuc 0, some nl_init_term_state)
unfolding nl_term_parse_ansi_color
null_test = refl

nl_init_term_state-IsTermState : IsTermState nl_init_term_state
nl_init_term_state-IsTermState = ground arith

nl_term_parse_ansi_color-Outcome_example :
    Outcome
      (escape (codes "35m"))
      nl_init_term_state
      (nl_term_parse_ansi_color (some (escape (codes "35m"))) (some nl_init_term_state))
nl_term_parse_ansi_color-Outcome_example =
    nl_term_parse_ansi_color-Outcome (escape (codes "35m")) nl_init_term_state
      nl_init_term_state-IsTermState

abbrev texts : List Bytes
texts = codes "1" ∷ codes "38" ∷ codes "2" ∷ codes "10" ∷ codes "20" ∷ codes "256" ∷ codes "4" ∷ []

texts-IsNumeral : All IsNumeral texts
unfolding isdigit number_from
texts-IsNumeral = ground arith

nl_term_parse_ansi_color-codes_of_example :
    (t : TermState) × (codes_of (values texts) nl_init_term_state ≡ some t)
    × (nl_term_parse_ansi_color (some (sequence texts (codes "xyz"))) (some nl_init_term_state)
        ≡ some (pos (length (sequence texts [])), some t))
nl_term_parse_ansi_color-codes_of_example =
    nl_term_parse_ansi_color-codes_of texts (codes "xyz") nl_init_term_state texts-IsNumeral
      (omega arith) nl_init_term_state-IsTermState
