-- ===== src/Term/Codes/Run.antt =====
-- The parser of src/term.c does what the numbers of a sequence ask for.
use nlutils.Prelude.{
  ℕ, zero, suc, ◌+◌, ◌*◌, ◌<◌, ◌≤◌, ◌≡◌, ◌≢◌, refl, sym, ap, ◌∙◌, false, Option, none, some, List,
  [], ◌∷◌, ◌++◌, arith, ltb, length, drop, drop-append, length-append, Option-cases, inl, inr,
}
use nlutils.Prelude.Int.{ℤ, pos}
use nlutils.Ctype.{Bytes, All}
use nlutils.Ctype.Number.{number_from, IsNumeral}
use nlutils.Term.Color.{TermColor}
use nlutils.Term.Style.{TermState, Target}
use nlutils.Term.Parse.{
  ParseState, expect_control, expect_semicolon, expect_2_or_5, expect_xterm_256, expect_red,
  expect_green, expect_blue, ColorParse, Round, going, accepted, rejected, bad_read, unfinished,
  past, go_on, parse_loop, parse_begin, result_of, nl_term_parse_ansi_color, is_semicolon,
}
use nlutils.Term.Codes.{codes_of, color_of, xterm_of, rgb_of, behind, sequence, values}
use nlutils.Term.Safety.Colors.{IsTermState}
use nlutils.Term.Safety.{Outcome, nl_term_parse_ansi_color-Outcome}
use nlutils.Term.Codes.Steps.{meaning, Ready, Behind, Steps, number_step-Steps}
use nlutils.Term.Codes.Round.{
  width, width-lower, loop_step, number_head, number_round, semicolon_round, end_round, digit_more,
  between,
}

abbrev finish : ℕ → Option TermState → Round
finish n none = bad_read
finish n (some s) = accepted n s

meaning-nil :
    (ps : ParseState) (t : Target) (c : TermColor) (s : TermState)
    → Ready ps c
    → meaning ps t c s [] ≡ some s
unfolding codes_of color_of xterm_of rgb_of
meaning-nil expect_control t c s h = refl
meaning-nil expect_2_or_5 t c s h = refl
meaning-nil expect_xterm_256 t c s h = refl
meaning-nil expect_red t c s h = refl
meaning-nil expect_green t c s h = refl
meaning-nil expect_blue t c s h = refl
meaning-nil expect_semicolon t c s h = absurd h

Ready-is_semicolon : (ps : ParseState) (c : TermColor) → Ready ps c → is_semicolon ps ≡ false
Ready-is_semicolon expect_control c h = refl
Ready-is_semicolon expect_2_or_5 c h = refl
Ready-is_semicolon expect_xterm_256 c h = refl
Ready-is_semicolon expect_red c h = refl
Ready-is_semicolon expect_green c h = refl
Ready-is_semicolon expect_blue c h = refl
Ready-is_semicolon expect_semicolon c h = absurd h

module _ (rest : Bytes) where
  -- What the loop does behind a number.
  abbrev Runs : List Bytes → ℕ → Type 0
  Runs ts fuel =
      (p : ColorParse)
      → Behind rest ts p
      → Ready p.next_ps p.parse_color
      → p.off + width ts ≤ 513
      → parse_loop fuel p
        ≡ finish (p.off + width ts)
            (meaning p.next_ps p.color_target p.parse_color p.new_state (values ts))

  go_on-Steps :
      (ts : List Bytes) (fuel off : ℕ) (m : Option TermState) (r : Round)
      → Runs ts fuel
      → off + width ts ≤ 513
      → Steps rest ts off m r
      → go_on (parse_loop fuel) r ≡ finish (off + width ts) m
  go_on-Steps ts fuel off m (going p) f small (b, ready, e, means) =
      f p b ready (rw e small)
      ∙ ap
          (λ n.
            finish (n + width ts)
              (meaning p.next_ps p.color_target p.parse_color p.new_state (values ts)))
          e
      ∙ ap (finish (off + width ts)) means
  go_on-Steps ts fuel off m bad_read f small h = rw h refl
  go_on-Steps ts fuel off m (accepted n s) f small h = absurd h
  go_on-Steps ts fuel off m rejected f small h = absurd h
  go_on-Steps ts fuel off m unfinished f small h = absurd h

  -- A number, wherever the parser expects one.
  number-Runs :
      (t : Bytes) (ts : List Bytes) (fuel : ℕ) (p : ColorParse)
      → IsNumeral t
      → Runs ts fuel
      → p.text ≡ t ++ behind ts rest
      → p.loops ≡ 0
      → Ready p.ps p.parse_color
      → p.off + length t + width ts ≤ 513
      → parse_loop (suc fuel) p
        ≡ finish
            (p.off + length t + width ts)
            (meaning p.ps p.color_target p.parse_color p.new_state (number_from 0 t ∷ values ts))
  number-Runs t ts fuel p h f e l ready small =
      let text : drop (length t) p.text ≡ behind ts rest =
        ap (drop (length t)) e ∙ drop-append t (behind ts rest) in
      let short : ltb 512 p.off ≡ false = ground (arith, small) in
      loop_step fuel p (digit_more _ (number_head t (behind ts rest) p.text h e)).1
        (number_round p t ts rest e h (Ready-is_semicolon p.ps p.parse_color ready) l short)
      ∙ go_on-Steps ts fuel (p.off + length t) _ _ f small (
          number_step-Steps rest ts p.ps (number_from 0 t) (past (length t) p) (text, refl, l)
            ready)

  run : (ts : List Bytes) (fuel : ℕ) → All IsNumeral ts → 2 * length ts < fuel → Runs ts fuel
  run ts zero h enough p b ready small = absurd (omega arith)
  run [] (suc fuel) h enough p (text, _, loops) ready small =
      let short : ltb 512 p.off ≡ false = ground (arith, small) in
      loop_step fuel p (rw text refl) (end_round p rest text short loops)
      ∙ sym (
          ap (finish (p.off + 1))
            (meaning-nil p.next_ps p.color_target p.parse_color p.new_state ready))
  run (t ∷ ts) (suc zero) h enough p b ready small = absurd (omega arith)
  run (t ∷ ts) (suc (suc fuel)) h enough p (text, ps, loops) ready small =
      let short : ltb 512 p.off ≡ false = ground (arith, small) in
      loop_step (suc fuel) p (rw text refl)
        (semicolon_round p (t ++ behind ts rest) text ps loops short)
      ∙ number-Runs t ts fuel (between p) h.0 (run ts fuel h.1 (omega arith)) (ap (drop 1) text)
          loops ready (omega (arith, small))
      ∙ (let e : p.off + 1 + length t + width ts ≡ p.off + suc (length t + width ts) =
            omega arith in
          ap
            (λ n.
              finish n
                (meaning p.next_ps p.color_target p.parse_color p.new_state (values (t ∷ ts))))
            e)

length-behind : (ts : List Bytes) (rest : Bytes) → length (behind ts rest) ≡ width ts + length rest
length-behind [] rest = omega arith
length-behind (t ∷ ts) rest = omega (arith, length-append t (behind ts rest), length-behind ts rest)

length-sequence :
    (t : Bytes) (ts : List Bytes) (rest : Bytes)
    → length (sequence (t ∷ ts) rest) ≡ 2 + length t + width ts + length rest
length-sequence t ts rest = omega (arith, length-append t (behind ts rest), length-behind ts rest)

-- The loop from the beginning.
parse_loop-begin :
    (ts : List Bytes) (rest : Bytes) (state : TermState)
    → All IsNumeral ts
    → length (sequence ts []) ≤ 513
    → parse_loop (suc (length (sequence ts rest))) (parse_begin (sequence ts rest) state)
      ≡ finish (length (sequence ts [])) (codes_of (values ts) state)
unfolding codes_of
parse_loop-begin [] rest state h small =
    loop_step _ (parse_begin (sequence [] rest) state) refl
      (end_round (parse_begin (sequence [] rest) state) rest refl refl refl)
parse_loop-begin (t ∷ ts) rest state h small =
    let size = length-sequence t ts [] in
    number-Runs rest t ts _ (parse_begin (sequence (t ∷ ts) rest) state) h.0
      (run rest ts _ h.1 (omega (arith, width-lower ts h.1, length-sequence t ts rest))) refl refl
      tt (omega (arith, size, small))
    ∙ (let e : 2 + length t + width ts ≡ length (sequence (t ∷ ts) []) = omega (arith, size) in
        ap (λ n. finish n (codes_of (values (t ∷ ts)) state)) e)

parse-finish :
    (ts : List Bytes) (rest : Bytes) (state : TermState)
    → All IsNumeral ts
    → length (sequence ts []) ≤ 513
    → nl_term_parse_ansi_color (some (sequence ts rest)) (some state)
      ≡ result_of state (finish (length (sequence ts [])) (codes_of (values ts) state))
unfolding nl_term_parse_ansi_color
parse-finish [] rest state h small = ap (result_of state) (parse_loop-begin [] rest state h small)
parse-finish (t ∷ ts) rest state h small =
    ap (result_of state) (parse_loop-begin (t ∷ ts) rest state h small)

Outcome-some :
    (s : Bytes) (state : TermState) (r : Option (ℤ × Option TermState))
    → Outcome s state r
    → r ≢ none
Outcome-some s state r (inl e) h = cc
Outcome-some s state r (inr (k, t, e, _, _, _)) h = cc

-- For every list of decimal numbers that fit an unsigned long, written with semicolons between them in a
-- sequence of at most 513 characters up to its m, and every state whose fields fit their types:
-- `nl_term_parse_ansi_color` returns the number of characters of the sequence, whatever follows it, and the
-- state is what the codes do one after another, where 38 and 48 take the numbers of a color.
pub nl_term_parse_ansi_color-codes_of :
    (ts : List Bytes) (rest : Bytes) (state : TermState)
    → All IsNumeral ts
    → length (sequence ts []) ≤ 513
    → IsTermState state
    → (t : TermState) × (codes_of (values ts) state ≡ some t)
      × (nl_term_parse_ansi_color (some (sequence ts rest)) (some state)
          ≡ some (pos (length (sequence ts [])), some t))
nl_term_parse_ansi_color-codes_of ts rest state h small v =
    let e = parse-finish ts rest state h small in
    elim (Option-cases (codes_of (values ts) state)) [
      | inr (t, f) ↦ (t, f, e ∙ rw f refl)
      | inl f ↦ absurd (
          Outcome-some (sequence ts rest) state _
            (nl_term_parse_ansi_color-Outcome (sequence ts rest) state v) (e ∙ rw f refl))
    ]
