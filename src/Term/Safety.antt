-- ===== src/Term/Safety.antt =====
-- The parser of color sequences reads inside of its tables, ends, and changes the state only as a
-- whole.
pub mod Colors
use nlutils.Prelude.{
  drop-drop, ℕ, zero, suc, ◌+◌, ◌-◌, ◌*◌, ◌/◌, ◌%◌, ◌<◌, ◌≤◌, ◌≡◌, ◌≢◌, ◌⊎◌, refl, sym, ap, ◌∙◌,
  Bool, true, false, not, ◌&&◌, ◌||◌, Option, none, some, List, [], ◌∷◌, arith, ltb, leb, ◌==◌,
  if◌then◌else◌, length, drop, get_elem?, length-drop, Bool-cases, ==_iff, inl, inr,
}
use nlutils.Prelude.Int.{ℤ, pos, negsuc}
use native.Mathlib.Nat.{add-zero, zero-add, add-suc, suc-add}
use nlutils.Ctype.{Bytes, byte_at, All}
use nlutils.Ctype.Number.{strtoul10, strtoul10-le}
use nlutils.Term.Color.{
  ColorType, default_color, standard_color, xterm256_color, rgb_color, Intensity, normal, intense,
  faint, TermColor, color, standard_colors, xterm_grays, default_foreground, default_background,
  nl_term_standard_colors, nl_term_xterm_grays, xterm_rgb_values,
}
use nlutils.Term.Style.{
  TermState, nl_init_term_state, make_color_faint, make_color_intense, make_color_normal,
  color_with, set_color_intensity, with_fg, with_bg, Target, foreground_color, background_color,
  set_target_color,
}
use nlutils.Term.Parse.{
  max_color_parse_length, max_color_parse_loops, is_semicolon, ParseState, expect_control,
  expect_semicolon, expect_2_or_5, expect_xterm_256, expect_red, expect_green, expect_blue,
  ColorParse, Round, going, accepted, rejected, bad_read, unfinished, control_code, cube_color,
  xterm_color, as_xterm256, past, control_step, kind_step, xterm_step, store_color, with_state,
  with_color, number_step, read_number, read_semicolon, parse_step, go_on, parse_loop, parse_begin,
  result_of, nl_term_parse_ansi_color,
}
use nlutils.Term.Safety.Colors.{
  IsColor, IsTermState, Gives, GivesState, xterm-Gives, control_code-Gives,
}

-- What holds of the variables between two rounds, when `s` is parsed.
record Good (s : Bytes) (p : ColorParse) : Type 0 where
  state : IsTermState p.new_state
  color : IsColor p.parse_color
  place : p.text ≡ drop p.off s
  inside : p.off ≤ length s

-- How a round may end, with `left` characters before it.
abbrev Fine : Bytes → (left : ℕ) → Round → Type 0
Fine s left (going p) = Good s p × (length p.text < left)
Fine s left (accepted n t) =
    IsTermState t × ((k : ℕ) × (n ≡ suc k) × (k ≤ 512) × (get_elem? s k ≡ some b'm'))
Fine s left rejected = Unit
Fine s left bad_read = ⊥
Fine s left unfinished = ⊥

elem_at : (s : Bytes) (n c : ℕ) → byte_at (drop n s) 0 ≡ c → c ≢ 0 → get_elem? s n ≡ some c
elem_at [] zero c h nz = absurd (nz (sym h))
elem_at [] (suc n) c h nz = absurd (nz (sym h))
elem_at (d ∷ s) zero c h nz = rw h
elem_at (d ∷ s) (suc n) c h nz = elem_at s n c h nz

target_cases : (t : Target) → (t ≡ foreground_color) ⊎ (t ≡ background_color)
target_cases foreground_color = inl refl
target_cases background_color = inr refl

byte_inside : (t : Bytes) → (byte_at t 0 == 0) ≡ false → 1 ≤ length t
byte_inside [] h = ground arith
byte_inside (c ∷ t) h = omega arith

-- A change of the colors and of the state of the parser keeps the place.
module _ (s : Bytes) (left : ℕ) where
  Placed : ColorParse → Type 0
  Placed p = Good s p × (length p.text < left)

  with_state-Fine :
      (p : ColorParse) (t : Option TermState)
      → Placed p
      → GivesState t
      → Fine s left (with_state p t)
  unfolding Placed
  with_state-Fine p none v h = h
  with_state-Fine p (some t) (g, l) h = ground arith

  store_color-Good :
      (p : ColorParse) (c : TermColor) → Good s p → IsColor c → Good s (store_color p c)
  unfolding set_target_color
  store_color-Good p c g h = elim (target_cases p.color_target) [
    | inl e ↦
        rw e (record { state = (h, g.state.1); color = h; place = g.place; inside = g.inside })
    | inr e ↦
        rw e (record { state = (g.state.0, h); color = h; place = g.place; inside = g.inside })
  ]

  with_color-Fine :
      (p : ColorParse) (c : Option TermColor) → Placed p → Gives c → Fine s left (with_color p c)
  unfolding Placed
  with_color-Fine p none v h = h
  with_color-Fine p (some c) (g, l) h = (store_color-Good p c g h, l)

  control_step-Fine : (n : ℕ) (p : ColorParse) → Placed p → Fine s left (control_step n p)
  unfolding control_step Placed
  control_step-Fine n p (g, l) = ground (
    arith,
    with_state-Fine p (control_code n p.new_state) (g, l),
    control_code-Gives n p.new_state g.state,
  )

  kind_step-Fine : (n : ℕ) (p : ColorParse) → Placed p → Fine s left (kind_step n p)
  unfolding kind_step Placed
  kind_step-Fine n p (g, l) = ground arith

  xterm_step-Fine : (n : ℕ) (p : ColorParse) → Placed p → Fine s left (xterm_step n p)
  unfolding xterm_step
  xterm_step-Fine n p v =
      with_color-Fine p (xterm_color (n % 256)) v (xterm-Gives (n % 256) (omega arith))

  number_step-Fine :
      (ps : ParseState) (n : ℕ) (p : ColorParse) → Placed p → Fine s left (number_step ps n p)
  unfolding number_step Placed
  number_step-Fine expect_control n p v = control_step-Fine n p v
  number_step-Fine expect_2_or_5 n p v = kind_step-Fine n p v
  number_step-Fine expect_xterm_256 n p v = xterm_step-Fine n p v
  number_step-Fine expect_red n p (g, l) = ground arith
  number_step-Fine expect_green n p (g, l) = ground arith
  number_step-Fine expect_blue n p (g, l) =
      (store_color-Good p (record p.parse_color { b = n % 256 }) g (ground (arith, g.color)), l)
  number_step-Fine expect_semicolon n p v = tt

module _ (s : Bytes) where
  past-Good :
      (p : ColorParse) (k : ℕ)
      → Good s p
      → 0 < k
      → k ≤ length p.text
      → Good s (past k p) × (length (past k p).text < length p.text)
  past-Good p k g some_read small =
      let left : length p.text ≡ length s - p.off = ap length g.place ∙ length-drop p.off s in
      (
        record {
          state = g.state;
          color = g.color;
          place = ap (drop k) g.place ∙ drop-drop k p.off s;
          inside = omega (arith, g.inside);
        },
        omega (arith, length-drop k p.text),
      )

  read_number-Fine : (p : ColorParse) → Good s p → Fine s (length p.text) (read_number p)
  unfolding read_number Placed
  read_number-Fine p g = elim (Bool-cases ((strtoul10 p.text).1 == 0)) [
    | inl e ↦ rw e tt
    | inr e ↦ rw e (
        number_step-Fine s (length p.text) p.ps (strtoul10 p.text).0 (past (strtoul10 p.text).1 p)
          (past-Good p (strtoul10 p.text).1 g (ground arith) (strtoul10-le p.text)))
  ]

  read_semicolon-Fine :
      (p : ColorParse)
      → Good s p
      → (byte_at p.text 0 == 0) ≡ false
      → Fine s (length p.text) (read_semicolon p)
  unfolding read_semicolon
  read_semicolon-Fine p g more = elim (Bool-cases (byte_at p.text 0 == b';')) [
    | inl e ↦ rw e (
        let (g', l) = past-Good p 1 g (omega arith) (byte_inside p.text more) in
        (record { state = g'.state; color = g'.color; place = g'.place; inside = g'.inside }, l))
    | inr e ↦ rw e tt
  ]

  finish-Fine :
      (p : ColorParse)
      → Good s p
      → ltb max_color_parse_length p.off ≡ false
      → (byte_at p.text 0 == b'm') ≡ true
      → Fine s (length p.text) (accepted (p.off + 1) p.new_state)
  finish-Fine p g short e =
      let here : byte_at (drop p.off s) 0 ≡ b'm' =
        ap (λ t. byte_at t 0) (sym g.place) ∙ (==_iff _ _).0 e in
      (
        g.state,
        (p.off, ground arith, ground (arith, short), elem_at s p.off b'm' here (ground arith)),
      )

  parse_step-Fine :
      (p : ColorParse)
      → Good s p
      → (byte_at p.text 0 == 0) ≡ false
      → Fine s (length p.text) (parse_step p)
  unfolding parse_step
  parse_step-Fine p g more = elim (Bool-cases (ltb max_color_parse_length p.off)) [
    | inl long ↦ rw long tt
    | inr short ↦ rw short (elim (Bool-cases (ltb max_color_parse_loops p.loops)) [
      | inl many ↦ rw many tt
      | inr few ↦ rw few (elim (Bool-cases (byte_at p.text 0 == b'm')) [
        | inl e ↦ rw e (finish-Fine p g short e)
        | inr e ↦ rw e (elim (Bool-cases (is_semicolon p.ps)) [
          | inl e ↦ rw e (read_semicolon-Fine p g more)
          | inr e ↦ rw e (read_number-Fine p g)
        ])
      ])
    ])
  ]

  -- The end of the loop.
  abbrev Ended : Round → Type 0
  Ended (going p) = ⊥
  Ended r = Fine s 0 r

  go_on-Ended :
      (k : ColorParse → Round) (left : ℕ) (r : Round)
      → ((p : ColorParse) → Good s p → length p.text < left → Ended (k p))
      → Fine s left r
      → Ended (go_on k r)
  go_on-Ended k left (going p) f (g, l) = f p g l
  go_on-Ended k left (accepted n t) f h = h
  go_on-Ended k left rejected f h = h
  go_on-Ended k left bad_read f h = h
  go_on-Ended k left unfinished f h = h

  parse_loop-Ended :
      (fuel : ℕ) (p : ColorParse) → Good s p → length p.text < fuel → Ended (parse_loop fuel p)
  unfolding parse_loop
  parse_loop-Ended zero p g l = absurd (omega arith)
  parse_loop-Ended (suc fuel) p g l = elim (Bool-cases (byte_at p.text 0 == 0)) [
    | inl e ↦ rw (e, Ended) tt
    | inr e ↦
        rw (e, Ended)
          (go_on-Ended (parse_loop fuel) (length p.text) (parse_step p)
            (λ q gq lq. parse_loop-Ended fuel q gq (omega (arith, l, lq))) (parse_step-Fine p g e))
  ]

parse_begin-Good :
    (s : Bytes) (state : TermState)
    → IsTermState state
    → 2 ≤ length s
    → Good s (parse_begin s state)
parse_begin-Good s state h l = record { state = h; color = omega arith; place = refl; inside = l }

two_bytes : (s : Bytes) → (byte_at s 0 == 0x1b) ≡ true → (byte_at s 1 == b'[') ≡ true → 2 ≤ length s
two_bytes [] e f = ground arith
two_bytes (c ∷ []) e f = ground arith
two_bytes (c ∷ d ∷ s) e f = omega arith

-- What a call with a string and a state may do.
abbrev pub Outcome : Bytes → TermState → Option (ℤ × Option TermState) → Type 0
Outcome s state result =
    (result ≡ some (pos 0, some state))
    ⊎ ((k : ℕ) × (t : TermState) × (result ≡ some (pos (suc k), some t))
        × IsTermState t
        × (k ≤ 512)
        × (get_elem? s k ≡ some b'm'))

result_of-Outcome :
    (s : Bytes) (state : TermState) (r : Round) → Ended s r → Outcome s state (result_of state r)
result_of-Outcome s state (going p) h = absurd h
result_of-Outcome s state (accepted n t) (v, (k, e, small, at)) =
    inr (k, t, rw e refl, v, small, at)
result_of-Outcome s state rejected h = inl refl
result_of-Outcome s state bad_read h = absurd h
result_of-Outcome s state unfinished h = absurd h

-- For every string and every state whose fields fit their types, `nl_term_parse_ansi_color` reads no table
-- outside of its bounds and ends, in at most one round more than there are characters. Either it returns
-- 0 and the state is unchanged, or it returns k + 1 for an m at a place k ≤ 512 of the string, and the
-- fields of the new state fit their types.
pub nl_term_parse_ansi_color-Outcome :
    (s : Bytes) (state : TermState)
    → IsTermState state
    → Outcome s state (nl_term_parse_ansi_color (some s) (some state))
unfolding nl_term_parse_ansi_color
nl_term_parse_ansi_color-Outcome s state h = elim (Bool-cases (byte_at s 0 == 0x1b)) [
  | inr e ↦ rw e (inl refl)
  | inl e ↦ rw e (elim (Bool-cases (byte_at s 1 == b'[')) [
    | inr f ↦ rw f (inl refl)
    | inl f ↦ rw f (
        let long : 2 ≤ length s = two_bytes s e f in
        result_of-Outcome s state (parse_loop (suc (length s)) (parse_begin s state)) (
          parse_loop-Ended s (suc (length s)) (parse_begin s state)
            (parse_begin-Good s state h long) (omega (arith, length-drop 2 s))))
  ])
]
