-- ===== src/Term/Codes.antt =====
-- What a sequence of codes does, for the list of its numbers.
mod Round
mod Steps
pub mod Run
use nlutils.Prelude.{
  ℕ, zero, suc, ◌+◌, ◌%◌, ◌≡◌, refl, Bool, true, false, Option, none, some, List, [], ◌∷◌, ◌++◌,
  map, ◌==◌, length,
}
use nlutils.Prelude.Chain.{◌>>=◌}
use nlutils.Ctype.{Bytes, All}
use nlutils.Ctype.Number.{number_from, IsNumeral}
use nlutils.Term.Color.{rgb_color, TermColor, color}
use nlutils.Term.Style.{TermState, Target, foreground_color, background_color, set_target_color}
use nlutils.Term.Parse.{control_code, xterm_color}

-- A list of codes: 38 and 48 take the numbers of a color, any other number is a code by itself.
unfoldable mutual
  pub codes_of : List ℕ → TermState → Option TermState
  codes_of [] s = some s
  codes_of (n ∷ ns) s = elim (n == 38) [
    | true ↦ color_of foreground_color ns s
    | false ↦ elim (n == 48) [
      | true ↦ color_of background_color ns s
      | false ↦ control_code n s >>= codes_of ns
    ]
  ]

  pub color_of : Target → List ℕ → TermState → Option TermState
  color_of t [] s = some s
  color_of t (n ∷ ns) s = elim (n == 2) [
    | true ↦ rgb_of t ns s
    | false ↦ elim (n == 5) [ true ↦ xterm_of t ns s | false ↦ codes_of ns s ]
  ]

  pub xterm_of : Target → List ℕ → TermState → Option TermState
  xterm_of t [] s = some s
  xterm_of t (n ∷ ns) s = xterm_color (n % 256) >>= λ c. codes_of ns (set_target_color s t c)

  pub rgb_of : Target → List ℕ → TermState → Option TermState
  rgb_of t (r ∷ g ∷ b ∷ ns) s =
      codes_of ns (set_target_color s t (color (r % 256) (g % 256) (b % 256) 0 0 rgb_color))
  rgb_of t _ s = some s

-- The text of a sequence: the numerals with semicolons between them, an `m`, and what follows.
abbrev pub behind : List Bytes → Bytes → Bytes
behind [] rest = b'm' ∷ rest
behind (t ∷ ts) rest = b';' ∷ t ++ behind ts rest

abbrev pub sequence : List Bytes → Bytes → Bytes
sequence [] rest = 0x1b ∷ b'[' ∷ b'm' ∷ rest
sequence (t ∷ ts) rest = 0x1b ∷ b'[' ∷ t ++ behind ts rest

abbrev pub values : List Bytes → List ℕ
values ts = map (number_from 0) ts
