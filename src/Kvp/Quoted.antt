-- ===== src/Kvp/Quoted.antt =====
-- Runs of the loop of `nl_parse_kvp` over a quoted value.
use mathlib.Core.Path.{subst}
use nlutils.Prelude.{
  Bool, ℕ, suc, ◌+◌, ◌≡◌, refl, sym, ap, ◌∙◌, true, false, ◌&&◌, List, [], ◌∷◌, ◌++◌, ◌==◌, length,
  arith, Bool-cases, inl, inr,
}
use nlutils.Ctype.{Bytes, byte_at, IsCString}
use nlutils.Escape.Table.{get_escape, escape_char-get_escape, quote-get_escape}
use nlutils.Escape.RoundTrip.{escaped}
use nlutils.Kvp.Parse.{read_quoted_value, Span, Parse, kvp_step}
use nlutils.Kvp.Runs.{
  At, At-byte, At-next, byte_at-drop, Runs, Runs-append, one_round, Passes, Passes-none,
  Passes-more, in_mode,
}

-- The last character is no backslash.
abbrev pub HasPlainEnd : Bytes → Type 0
HasPlainEnd [] = Unit
HasPlainEnd (c ∷ []) = (c == b'\\') ≡ false
HasPlainEnd (c ∷ d ∷ s) = HasPlainEnd (d ∷ s)

At-peek :
    (line : Bytes) (off c : ℕ) (rest : Bytes)
    → At line off (c ∷ rest)
    → byte_at line (off + 1) ≡ byte_at rest 0
At-peek line off c rest at =
    sym (byte_at-drop (off + 1) line) ∙ ap (λ s. byte_at s 0) (At-next line off c rest at)

-- A text between quotation marks does not begin with one.
escaped_head : (c : ℕ) (s rest : Bytes) → (byte_at (escaped (c ∷ s) ++ rest) 0 == b'"') ≡ false
unfolding escaped
escaped_head c s rest = elim (Bool-cases (get_escape c == 0)) [
  | inl e ↦ rw (e, escaped) (ground (arith, quote-get_escape c, e))
  | inr e ↦ rw (e, escaped) refl
]

module _ (line : Bytes) (ks kl vs : ℕ) (sent : List Span) where
  abbrev quoted : ℕ → Parse
  quoted = in_mode line ks kl vs sent read_quoted_value

  -- A character that neither ends the value nor hides a quotation mark.
  quoted_round :
      (off c : ℕ) (rest : Bytes)
      → (c == 0) ≡ false
      → (c == b'"') ≡ false
      → ((c == b'\\') && (byte_at rest 0 == b'"')) ≡ false
      → At line off (c ∷ rest)
      → Runs line (quoted off) (quoted (off + 1))
  unfolding kvp_step
  quoted_round off c rest nz q e at =
      one_round line (quoted off) (quoted (off + 1)) c rest at nz
        (rw (At-peek line off c rest at, At-byte line off c rest at, q, e) refl) (omega arith)

  -- An escaped quotation mark.
  hidden_round :
      (off : ℕ) (rest : Bytes)
      → At line off (b'\\' ∷ b'"' ∷ rest)
      → Runs line (quoted off) (quoted (off + 1 + 1))
  unfolding kvp_step
  hidden_round off rest at =
      one_round line (quoted off) (quoted (off + 1 + 1)) b'\\' (b'"' ∷ rest) at refl
        (rw (At-peek line off b'\\' (b'"' ∷ rest) at, At-byte line off b'\\' (b'"' ∷ rest) at) refl)
        (omega arith)

replaced :
    (c : ℕ) → ((get_escape c == b'"') ≡ (c == b'"')) × ((get_escape c == b'\\') ≡ (c == b'\\'))
unfolding get_escape
replaced c = ground arith

ordinary : (c : ℕ) → (get_escape c == 0) ≡ true → ((c == b'"') ≡ false) × ((c == b'\\') ≡ false)
ordinary c e = (ground (arith, quote-get_escape c, e), ground (arith, escape_char-get_escape c, e))

and_false : (b : Bool) → (b && false) ≡ false
and_false true = refl
and_false false = refl

-- A backslash for a backslash does not hide the end of the value.
second_round :
    (c : ℕ) (v rest : Bytes)
    → HasPlainEnd (c ∷ v)
    → ((get_escape c == b'\\') && (byte_at (escaped v ++ rest) 0 == b'"')) ≡ false
second_round c [] rest h = rw ((replaced c).1, h) refl
second_round c (d ∷ v) rest h = rw (escaped_head d v rest) (and_false (get_escape c == b'\\'))

tail-HasPlainEnd : (c : ℕ) (v : Bytes) → HasPlainEnd (c ∷ v) → HasPlainEnd v
tail-HasPlainEnd c [] h = tt
tail-HasPlainEnd c (d ∷ v) h = h

Passes-two :
    (line : Bytes) (s : ℕ → Parse) (off c d : ℕ) (passed rest : Bytes)
    → Runs line (s off) (s (off + 1 + 1))
    → Passes line s (off + 1 + 1) passed rest
    → Passes line s off (c ∷ d ∷ passed) rest
Passes-two line s off c d passed rest r (q, at) =
    let e : off + 1 + 1 + length passed ≡ off + suc (suc (length passed)) = omega arith in
    subst (λ n. Runs line (s off) (s n) × At line n rest) e (Runs-append r q, at)

escaped_plain : (c : ℕ) (v : Bytes) → (get_escape c == 0) ≡ true → escaped (c ∷ v) ≡ c ∷ escaped v
unfolding escaped
escaped_plain c v e = rw e refl

escaped_other :
    (c : ℕ) (v : Bytes)
    → (get_escape c == 0) ≡ false
    → escaped (c ∷ v) ≡ b'\\' ∷ get_escape c ∷ escaped v
unfolding escaped
escaped_other c v e = rw e refl

module _ (line : Bytes) (ks kl vs : ℕ) (sent : List Span) where
  abbrev PassesQuoted : ℕ → (passed rest : Bytes) → Type 0
  PassesQuoted off passed rest =
      Passes line (in_mode line ks kl vs sent read_quoted_value) off passed rest

  replaced-Passes :
      (c : ℕ) (v rest : Bytes) (off : ℕ)
      → HasPlainEnd (c ∷ v)
      → (get_escape c == 0) ≡ false
      → ((off : ℕ)
          → At line off (escaped v ++ b'"' ∷ rest)
          → PassesQuoted off (escaped v) (b'"' ∷ rest))
      → At line off (b'\\' ∷ get_escape c ∷ escaped v ++ b'"' ∷ rest)
      → PassesQuoted off (b'\\' ∷ get_escape c ∷ escaped v) (b'"' ∷ rest)
  replaced-Passes c v rest off h nz go_on at =
      let behind = escaped v ++ b'"' ∷ rest in
      let at1 : At line (off + 1) (get_escape c ∷ behind) =
        At-next line off b'\\' (get_escape c ∷ behind) at in
      let at2 : At line (off + 1 + 1) behind = At-next line (off + 1) (get_escape c) behind at1 in
      elim (Bool-cases (get_escape c == b'"')) [
        | inl q ↦
            let e : get_escape c ≡ b'"' = ground (arith, q) in
            Passes-two line (quoted line ks kl vs sent) off b'\\' (get_escape c) (escaped v)
              (b'"' ∷ rest)
              (hidden_round line ks kl vs sent off behind
                (subst (λ d. At line off (b'\\' ∷ d ∷ behind)) e at))
              (go_on (off + 1 + 1) at2)
        | inr q ↦
            Passes-more line (quoted line ks kl vs sent) off b'\\' (get_escape c ∷ escaped v)
              (b'"' ∷ rest)
              (quoted_round line ks kl vs sent off b'\\' (get_escape c ∷ behind) refl refl q at)
              (Passes-more line (quoted line ks kl vs sent) (off + 1) (get_escape c) (escaped v)
                (b'"' ∷ rest)
                (quoted_round line ks kl vs sent (off + 1) (get_escape c) behind nz q
                  (second_round c v (b'"' ∷ rest) h) at1)
                (go_on (off + 1 + 1) at2))
      ]

  pub run_quoted :
      (v rest : Bytes) (off : ℕ)
      → IsCString v
      → HasPlainEnd v
      → At line off (escaped v ++ b'"' ∷ rest)
      → PassesQuoted off (escaped v) (b'"' ∷ rest)
  unfolding escaped
  run_quoted [] rest off w h at = Passes-none line (quoted line ks kl vs sent) off (b'"' ∷ rest) at
  run_quoted (c ∷ v) rest off w h at = elim (Bool-cases (get_escape c == 0)) [
    | inl e ↦
        let eq = escaped_plain c v e in
        let (q, b) = ordinary c e in
        let nz : (c == 0) ≡ false = ground (arith, w.0.0) in
        let at' : At line off (c ∷ escaped v ++ b'"' ∷ rest) =
          subst (λ s. At line off (s ++ b'"' ∷ rest)) eq at in
        subst (λ s. PassesQuoted off s (b'"' ∷ rest)) (sym eq)
          (Passes-more line (quoted line ks kl vs sent) off c (escaped v) (b'"' ∷ rest)
            (quoted_round line ks kl vs sent off c (escaped v ++ b'"' ∷ rest) nz q (rw b refl) at')
            (run_quoted v rest (off + 1) w.1 (tail-HasPlainEnd c v h) (At-next line off c _ at')))
    | inr e ↦
        let eq = escaped_other c v e in
        subst (λ s. PassesQuoted off s (b'"' ∷ rest)) (sym eq)
          (replaced-Passes c v rest off h e
            (λ o a. run_quoted v rest o w.1 (tail-HasPlainEnd c v h) a)
            (subst (λ s. At line off (s ++ b'"' ∷ rest)) eq at))
  ]
