-- ===== src/Term/Codes/Steps.antt =====
-- What the parser of src/term.c does with one number of a sequence.
use mathlib.Core.Path.{subst}
use nlutils.Prelude.{
  ℕ, ◌%◌, ◌≡◌, refl, sym, ap, false, Option, none, some, List, [], ◌∷◌, arith, ◌==◌, Bool-cases,
  inl, inr,
}
use nlutils.Prelude.Chain.{◌>>=◌}
use nlutils.Ctype.{Bytes}
use nlutils.Term.Color.{rgb_color, TermColor, color}
use nlutils.Term.Style.{TermState, Target, set_target_color}
use nlutils.Term.Parse.{
  ParseState, expect_control, expect_semicolon, expect_2_or_5, expect_xterm_256, expect_red,
  expect_green, expect_blue, ColorParse, Round, going, bad_read, control_code, xterm_color,
  control_step, kind_step, xterm_step, with_state, with_color, number_step,
}
use nlutils.Term.Codes.{codes_of, color_of, xterm_of, rgb_of, behind, values}

-- What the numbers that are left ask for, when the parser expects them in a state.
abbrev pub meaning : ParseState → Target → TermColor → TermState → List ℕ → Option TermState
meaning expect_control t c s ns = codes_of ns s
meaning expect_2_or_5 t c s ns = color_of t ns s
meaning expect_xterm_256 t c s ns = xterm_of t ns s
meaning expect_red t c s ns = rgb_of t ns s
meaning expect_green t c s ns = rgb_of t (c.r ∷ ns) s
meaning expect_blue t c s ns = rgb_of t (c.r ∷ c.g ∷ ns) s
meaning expect_semicolon t c s ns = none

abbrev Fresh : TermColor → Type 0
Fresh c = (c.xterm256 ≡ 0) × (c.ansi ≡ 0) × (c.color_type ≡ rgb_color)

-- The fields of the color that are set when a state is reached.
abbrev pub Ready : ParseState → TermColor → Type 0
Ready expect_semicolon c = ⊥
Ready expect_red c = Fresh c
Ready expect_green c = (c.r % 256 ≡ c.r) × Fresh c
Ready expect_blue c = (c.g % 256 ≡ c.g) × (c.r % 256 ≡ c.r) × Fresh c
Ready _ c = Unit

module _ (rest : Bytes) where
  -- The parser stands behind a number, with texts left to read.
  abbrev pub Behind : List Bytes → ColorParse → Type 0
  Behind ts p = (p.text ≡ behind ts rest) × (p.ps ≡ expect_semicolon) × (p.loops ≡ 0)

  abbrev pub Steps : List Bytes → ℕ → Option TermState → Round → Type 0
  Steps ts off m (going p) =
      Behind ts p
      × Ready p.next_ps p.parse_color
      × (p.off ≡ off)
      × (meaning p.next_ps p.color_target p.parse_color p.new_state (values ts) ≡ m)
  Steps ts off m bad_read = m ≡ none
  Steps ts off m r = ⊥

  module _ (ts : List Bytes) where
    with_state-Steps :
        (p : ColorParse) (s : Option TermState)
        → Behind ts p
        → Steps ts p.off (s >>= codes_of (values ts)) (with_state p s)
    with_state-Steps p none b = refl
    with_state-Steps p (some s) b = (b, tt, refl, refl)

    other :
        (n : ℕ) (s : TermState)
        → (n == 38) ≡ false
        → (n == 48) ≡ false
        → codes_of (n ∷ values ts) s ≡ (control_code n s >>= codes_of (values ts))
    unfolding codes_of control_code
    other n s e f = rw (e, f, codes_of) refl

    control_step-Steps :
        (n : ℕ) (p : ColorParse)
        → Behind ts p
        → Steps ts p.off (codes_of (n ∷ values ts) p.new_state) (control_step n p)
    unfolding control_step codes_of
    control_step-Steps n p b = elim (Bool-cases (n == 38)) [
      | inl e ↦ rw (e, Steps, control_step) (b, tt, refl, rw (e, codes_of) refl)
      | inr e ↦
          rw (e, Steps, control_step)
            (elim (Bool-cases (n == 48)) [
              | inl f ↦ rw (f, Steps) (b, tt, refl, rw (e, f, codes_of) refl)
              | inr f ↦
                  rw (f, Steps)
                    (subst (λ m. Steps ts p.off m (with_state p (control_code n p.new_state)))
                      (sym (other n p.new_state e f))
                      (with_state-Steps p (control_code n p.new_state) b))
            ])
    ]

    kind_step-Steps :
        (n : ℕ) (p : ColorParse)
        → Behind ts p
        → Steps ts p.off (color_of p.color_target (n ∷ values ts) p.new_state) (kind_step n p)
    unfolding kind_step color_of
    kind_step-Steps n p b = elim (Bool-cases (n == 2)) [
      | inl e ↦ rw (e, Steps, kind_step) (b, (refl, refl, refl), refl, rw (e, color_of) refl)
      | inr e ↦
          rw (e, Steps, kind_step)
            (elim (Bool-cases (n == 5)) [
              | inl f ↦ rw (f, Steps) (b, tt, refl, rw (e, f, color_of) refl)
              | inr f ↦ rw (f, Steps) (b, tt, refl, rw (e, f, color_of) refl)
            ])
    ]

    with_color-Steps :
        (p : ColorParse) (c : Option TermColor)
        → Behind ts p
        → Steps ts p.off
            (c >>= λ c. codes_of (values ts) (set_target_color p.new_state p.color_target c))
            (with_color p c)
    with_color-Steps p none b = refl
    with_color-Steps p (some c) b = (b, tt, refl, refl)

    rgb-mod :
        (t : Target) (n : ℕ) (ns : List ℕ) (s : TermState)
        → rgb_of t (n % 256 ∷ ns) s ≡ rgb_of t (n ∷ ns) s
    unfolding rgb_of
    rgb-mod t n [] s = refl
    rgb-mod t n (g ∷ []) s = refl
    rgb-mod t n (g ∷ b ∷ ns) s = let e : n % 256 % 256 ≡ n % 256 = omega arith in rw e refl

    rgb-mod2 :
        (t : Target) (r n : ℕ) (ns : List ℕ) (s : TermState)
        → rgb_of t (r ∷ n % 256 ∷ ns) s ≡ rgb_of t (r ∷ n ∷ ns) s
    unfolding rgb_of
    rgb-mod2 t r n [] s = refl
    rgb-mod2 t r n (b ∷ ns) s = let e : n % 256 % 256 ≡ n % 256 = omega arith in rw e refl

    stored_color :
        (c : TermColor) (n : ℕ)
        → Ready expect_blue c
        → record c { b = n } ≡ color (c.r % 256) (c.g % 256) n 0 0 rgb_color
    stored_color c n (g, r, (x, a, t)) = rw (g, r, x, a, t) refl

    pub number_step-Steps :
        (ps : ParseState) (n : ℕ) (p : ColorParse)
        → Behind ts p
        → Ready ps p.parse_color
        → Steps ts p.off
            (meaning ps p.color_target p.parse_color p.new_state (n ∷ values ts))
            (number_step ps n p)
    unfolding number_step rgb_of xterm_of xterm_step
    number_step-Steps expect_control n p b h = control_step-Steps n p b
    number_step-Steps expect_2_or_5 n p b h = kind_step-Steps n p b
    number_step-Steps expect_xterm_256 n p b h = with_color-Steps p (xterm_color (n % 256)) b
    number_step-Steps expect_red n p b h =
        let e : n % 256 % 256 ≡ n % 256 = omega arith in
        (b, (e, h), refl, rgb-mod p.color_target n (values ts) p.new_state)
    number_step-Steps expect_green n p b h =
        let e : n % 256 % 256 ≡ n % 256 = omega arith in
        (b, (e, h.0, h.1), refl, rgb-mod2 p.color_target p.parse_color.r n (values ts) p.new_state)
    number_step-Steps expect_blue n p b h = (
      b,
      tt,
      refl,
      ap (λ c. codes_of (values ts) (set_target_color p.new_state p.color_target c))
          (stored_color p.parse_color (n % 256) h),
    )
    number_step-Steps expect_semicolon n p b h = absurd h
