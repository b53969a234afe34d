-- ===== src/Term/Codes/Round.antt =====
-- One round of the parser of src/term.c, behind a number, between two and at the end.
use nlutils.Prelude.{
  ℕ, suc, ◌+◌, ◌*◌, ◌<◌, ◌≡◌, refl, ap, ◌∙◌, true, false, List, [], ◌∷◌, ◌++◌, arith, ltb, ◌==◌,
  if◌then◌else◌, length, drop,
}
use nlutils.Ctype.{Bytes, byte_at, All, isdigit}
use nlutils.Ctype.Number.{strtoul10, strtoul10-append, number_from, IsNumeral}
use nlutils.Term.Parse.{
  expect_control, expect_semicolon, ColorParse, Round, going, accepted, past, number_step,
  read_number, read_semicolon, parse_step, go_on, parse_loop, is_semicolon,
}
use nlutils.Term.Codes.{behind}

-- The characters of `behind`, up to the `m`.
abbrev pub width : List Bytes → ℕ
width [] = 1
width (t ∷ ts) = suc (length t + width ts)

pub width-lower : (ts : List Bytes) → All IsNumeral ts → 2 * length ts < width ts
width-lower [] h = omega arith
width-lower ([] ∷ ts) h = absurd h.0
width-lower ((d ∷ t) ∷ ts) h = omega (arith, width-lower ts h.1)

behind_head :
    (ts : List Bytes) (rest : Bytes)
    → (c : ℕ) × (s : Bytes) × (behind ts rest ≡ c ∷ s) × (isdigit c ≡ false)
unfolding isdigit
behind_head [] rest = (b'm', rest, refl, refl)
behind_head (t ∷ ts) rest = (b';', t ++ behind ts rest, refl, refl)

digit_head : (t : Bytes) → IsNumeral t → (s : Bytes) → isdigit (byte_at (t ++ s) 0) ≡ true
digit_head [] h s = absurd h
digit_head (d ∷ t) h s = h.0.0

read_number-numeral :
    (p : ColorParse) (t : Bytes) (c : ℕ) (s : Bytes)
    → p.text ≡ t ++ c ∷ s
    → IsNumeral t
    → isdigit c ≡ false
    → read_number p ≡ number_step p.ps (number_from 0 t) (past (length t) p)
unfolding read_number
read_number-numeral p [] c s e h d = absurd h
read_number-numeral p (x ∷ t) c s e h d =
    let used : (suc (length t) == 0) ≡ false = ground arith in
    let read : strtoul10 p.text ≡ (number_from 0 (x ∷ t), suc (length t)) =
      ap strtoul10 e ∙ strtoul10-append (x ∷ t) c s h d in
    rw (read, used) refl

-- A round that neither a bound nor the end of the sequence stops.
round_lem :
    (p : ColorParse)
    → ltb 512 p.off ≡ false
    → p.loops ≡ 0
    → (byte_at p.text 0 == b'm') ≡ false
    → parse_step p ≡ (if is_semicolon p.ps then read_semicolon p else read_number p)
unfolding parse_step
round_lem p short l e = rw (short, l, e) refl

pub loop_step :
    (fuel : ℕ) (p : ColorParse) {r : Round}
    → (byte_at p.text 0 == 0) ≡ false
    → parse_step p ≡ r
    → parse_loop (suc fuel) p ≡ go_on (parse_loop fuel) r
unfolding parse_loop
loop_step fuel p e f = rw (e, f, parse_loop) refl

-- The parser behind a semicolon.
abbrev pub between : ColorParse → ColorParse
between p = record p {
  text = drop 1 p.text;
  off = p.off + 1;
  ps = p.next_ps;
  next_ps = expect_control;
}

pub semicolon_round :
    (p : ColorParse) (s : Bytes)
    → p.text ≡ b';' ∷ s
    → p.ps ≡ expect_semicolon
    → p.loops ≡ 0
    → ltb 512 p.off ≡ false
    → parse_step p ≡ going (between p)
unfolding read_semicolon
semicolon_round p s e ps l short =
    let at : (byte_at p.text 0 == b'm') ≡ false = rw e refl in
    round_lem p short l at ∙ rw (ps, e, read_semicolon) refl

pub end_round :
    (p : ColorParse) (s : Bytes)
    → p.text ≡ b'm' ∷ s
    → ltb 512 p.off ≡ false
    → p.loops ≡ 0
    → parse_step p ≡ accepted (p.off + 1) p.new_state
unfolding parse_step
end_round p s e short l = rw (short, l, e) refl

pub digit_more : (d : ℕ) → isdigit d ≡ true → ((d == b'm') ≡ false) × ((d == 0) ≡ false)
unfolding isdigit
digit_more d h = (ground arith, ground arith)

pub number_head : (t s r : Bytes) → IsNumeral t → r ≡ t ++ s → isdigit (byte_at r 0) ≡ true
number_head t s r h e = rw e (digit_head t h s)

pub number_round :
    (p : ColorParse) (t : Bytes) (ts : List Bytes) (rest : Bytes)
    → p.text ≡ t ++ behind ts rest
    → IsNumeral t
    → is_semicolon p.ps ≡ false
    → p.loops ≡ 0
    → ltb 512 p.off ≡ false
    → parse_step p ≡ number_step p.ps (number_from 0 t) (past (length t) p)
number_round p t ts rest e h ps l short =
    let (c, s, f, d) = behind_head ts rest in
    let at = digit_more (byte_at p.text 0) (number_head t (behind ts rest) p.text h e) in
    round_lem p short l at.0 ∙ rw ps refl ∙ read_number-numeral p t c s (e ∙ ap (λ r. t ++ r) f) h d
