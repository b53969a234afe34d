-- ===== src/Kvp/Sends.antt =====
-- What the loop of `nl_parse_kvp` sends, from a key to its value and between two pairs.
use mathlib.Core.Path.{subst}
use nlutils.Prelude.{
  Bool, ℕ, suc, ◌+◌, ◌-◌, ◌≡◌, ◌≢◌, refl, sym, ap, ◌∙◌, true, false, List, [], ◌∷◌, ◌++◌,
  append_assoc, append-nil, ◌==◌, length, take, drop, take-append, arith,
}
use nlutils.Ctype.{Bytes, byte_at, isspace, IsCString}
use nlutils.Escape.Unescape.{if_quoted, no_dequote}
use nlutils.Escape.RoundTrip.{escaped, unescape-quoted}
use nlutils.Kvp.Parse.{
  Mode, expect_key, read_key, expect_value, Span, Parse, Pair, kvp_step, last_pair, has_char,
  or_empty, dequoted, send_pair, send_all,
}
use nlutils.Kvp.Spans.{parse}
use nlutils.Kvp.Runs.{
  At, At-byte, At-next, byte_at-drop, Runs, stay, Runs-append, one_round, run_key,
}
use nlutils.Kvp.Entry.{Entry, IsEntry, value_text, entry_text, separated, line_of, pairs_of, span}

if_quoted-no_dequote : if_quoted ≢ no_dequote
if_quoted-no_dequote e = cc

pub dequoted_quoted : (v : Bytes) → IsCString v → dequoted (b'"' ∷ escaped v ++ b'"' ∷ []) ≡ v
dequoted_quoted v h =
    ap (λ r. or_empty r.1) (unescape-quoted v false if_quoted h if_quoted-no_dequote)

module _ (line : Bytes) where
  -- A text stands at an offset.
  abbrev pub Stands : (start n : ℕ) → Bytes → Type 0
  Stands start n text = take n (drop start line) ≡ text

  pub At-Stands :
      (off : ℕ) (text rest : Bytes) → At line off (text ++ rest) → Stands off (length text) text
  At-Stands off text rest at = ap (take (length text)) at ∙ take-append text rest

  -- From a key to the equals sign, and over it.
  pub run_to_value :
      (ks kl vs off : ℕ) (sent : List Span) (e : Entry) (rest : Bytes)
      → IsEntry e
      → At line off (entry_text e rest)
      → Runs line (parse expect_key ks kl vs off sent) (
          parse expect_value off
            (suc (length e.key_tail))
            vs
            (off + suc (length e.key_tail) + 1)
            sent)
        × At line (off + suc (length e.key_tail) + 1) (value_text e.value rest)
        × Stands off (suc (length e.key_tail)) (e.key_head ∷ e.key_tail)
  unfolding kvp_step
  run_to_value ks kl vs off sent e rest (key, q, tail, v) at =
      let behind = b'=' ∷ value_text e.value rest in
      let first : Runs line (parse expect_key ks kl vs off sent)
          (parse read_key off kl vs (off + 1) sent) =
        one_round line _ _ e.key_head (e.key_tail ++ behind) at key.1
          (rw (At-byte line off e.key_head _ at, key.2, key.0, q) refl) (omega arith) in
      let (over, at1) =
        run_key line off kl vs sent e.key_tail behind (off + 1) tail
          (At-next line off e.key_head _ at) in
      let n : off + 1 + length e.key_tail ≡ off + suc (length e.key_tail) = omega arith in
      let at2 : At line (off + suc (length e.key_tail)) behind =
        subst (λ i. At line i behind) n at1 in
      let size : off + suc (length e.key_tail) - off ≡ suc (length e.key_tail) = omega arith in
      let equals : Runs line (parse read_key off kl vs (off + suc (length e.key_tail)) sent) (
          parse expect_value off (suc (length e.key_tail)) vs (off + suc (length e.key_tail) + 1)
            sent) =
        one_round line _ _ b'=' (value_text e.value rest) at2 refl
          (unfold isspace in rw (At-byte line _ b'=' _ at2, size) refl) (omega arith) in
      (
        Runs-append first (
            Runs-append
              (subst
                (λ i.
                  Runs line (parse read_key off kl vs (off + 1) sent)
                    (parse read_key off kl vs i sent))
                n over)
              equals),
        At-next line _ b'=' _ at2,
        At-Stands off (e.key_head ∷ e.key_tail) behind at,
      )

  abbrev pub every : ℕ → Bool
  every i = true

  pub send_all-append :
      (ps qs : List Span)
      → send_all line every (ps ++ qs) ≡ send_all line every ps ++ send_all line every qs
  unfolding send_all
  send_all-append [] qs = refl
  send_all-append (p ∷ ps) qs =
      ap (λ xs. send_pair line every p ++ xs) (send_all-append ps qs)
      ∙ sym
          (append_assoc (send_pair line every p) (send_all line every ps) (send_all line every qs))

  -- From a state the loop ends, and the pairs that are sent behind those of `sent` are `ps`.
  abbrev pub Sends : Parse → List Span → List Pair → Type 0
  Sends s sent ps =
      (t : Parse) × Runs line s t
      × (has_char line t ≡ false)
      × (send_all line every (last_pair t).sent ≡ send_all line every sent ++ ps)

  pub Sends-more :
      (s u : Parse) (sent : List Span) (p : Span) (x : Pair) (ps : List Pair)
      → Runs line s u
      → send_pair line every p ≡ x ∷ []
      → Sends u (sent ++ p ∷ []) ps
      → Sends s sent (x ∷ ps)
  unfolding send_all
  Sends-more s u sent p x ps r e (t, q, stop, f) = (
    t,
    Runs-append r q,
    stop,
    f ∙ rw (send_all-append sent (p ∷ []), e) (append_assoc (send_all line every sent) (x ∷ []) ps),
  )

  pub sent_pair :
      (ks kl vs vl key_head : ℕ) (key_tail value : Bytes) (x : Bytes) (q : Bool)
      → (key_head == b'"') ≡ false
      → Stands ks kl (key_head ∷ key_tail)
      → Stands vs vl value
      → dequoted value ≡ x
      → (byte_at value 0 == b'"') ≡ q
      → send_pair line every (span ks kl vs vl)
        ≡ record { key = key_head ∷ key_tail; value = x; quoted_value = q } ∷ []
  unfolding send_pair
  sent_pair ks kl vs vl k key value x q nq at at' e f = rw (at, at', nq, e, f) refl

  -- The end of the line.
  pub at_end :
      (m : Mode) (ks kl vs off : ℕ) (sent : List Span)
      → At line off []
      → has_char line (parse m ks kl vs off sent) ≡ false
  at_end m ks kl vs off sent at =
      let e : byte_at line off ≡ 0 = sym (byte_at-drop off line) ∙ ap (λ s. byte_at s 0) at in
      rw e refl

  -- What the rest of the entries does, wherever they begin.
  abbrev pub Goes : List Entry → Type 0
  Goes es =
      (ks kl vs off : ℕ) (sent : List Span)
      → At line off (line_of es)
      → Sends (parse expect_key ks kl vs off sent) sent (pairs_of es)

  pub nothing_left : Goes []
  unfolding last_pair
  nothing_left ks kl vs off sent at = (
    parse expect_key ks kl vs off sent,
    stay line _,
    at_end expect_key ks kl vs off sent at,
    sym (append-nil (send_all line every sent)),
  )

  -- Behind a quoted value.
  pub separator :
      (es : List Entry) (ks kl vs off : ℕ) (sent : List Span)
      → Goes es
      → At line off (separated es (line_of es))
      → Sends (parse expect_key ks kl vs off sent) sent (pairs_of es)
  unfolding kvp_step
  separator [] ks kl vs off sent go at = go ks kl vs off sent at
  separator (e ∷ es) ks kl vs off sent go at =
      let (t, r, stop, f) = go ks kl vs (off + 1) sent (At-next line off b' ' _ at) in
      let first : Runs line (parse expect_key ks kl vs off sent)
          (parse expect_key ks kl vs (off + 1) sent) =
        one_round line _ _ b' ' _ at refl (unfold isspace in rw (At-byte line off b' ' _ at) refl)
          (omega arith) in
      (t, Runs-append first r, stop, f)
