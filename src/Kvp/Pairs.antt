-- ===== src/Kvp/Pairs.antt =====
-- What `nl_parse_kvp` makes of a line of well-formed pairs.
use mathlib.Core.Path.{subst}
use nlutils.Prelude.{
  ℕ, zero, suc, ◌+◌, ◌-◌, ◌*◌, ◌≤◌, ◌≡◌, refl, sym, ap, ◌∙◌, true, false, some, List, [], ◌∷◌, ◌++◌,
  append_assoc, ◌==◌, length, length-append, arith, Bool-cases, inl, inr,
}
use nlutils.Prelude.Loop.{while, while-stop}
use nlutils.Ctype.{Bytes, isspace, All}
use nlutils.Escape.RoundTrip.{escaped}
use nlutils.Kvp.Parse.{
  expect_key, expect_value, read_value, read_quoted_value, Span, Parse, Pair, kvp_step, kvp_loop,
  last_pair, has_char, parse_start, send_pair, send_all, nl_parse_kvp,
}
use nlutils.Kvp.Spans.{parse, Sound, kvp_step-Sound}
use nlutils.Kvp.Runs.{At, At-byte, At-next, Runs, stay, Runs-append, one_round, run_word}
use nlutils.Kvp.Quoted.{run_quoted}
use nlutils.Kvp.Entry.{
  EntryValue, word, quoted, Entry, IsEntryValue, IsEntry, value_text, separated, line_of, pair_of,
  pairs_of, span,
}
use nlutils.Kvp.Sends.{
  dequoted_quoted, Stands, every, Sends, Goes, At-Stands, run_to_value, send_all-append, Sends-more,
  sent_pair, at_end, nothing_left, separator,
}

module _ (line : Bytes) where
  -- Behind a word.
  word_end :
      (es : List Entry) (ks kl vs off : ℕ) (sent : List Span) (x : Pair)
      → Goes line es
      → At line off (separated es (line_of es))
      → send_pair line (every line) (span ks kl vs (off - vs)) ≡ x ∷ []
      → Sends line (parse read_value ks kl vs off sent) sent (x ∷ pairs_of es)
  unfolding kvp_step last_pair send_all
  word_end [] ks kl vs off sent x go at e = (
    parse read_value ks kl vs off sent,
    stay line _,
    at_end line read_value ks kl vs off sent at,
    send_all-append line sent (span ks kl vs (off - vs) ∷ []) ∙ rw e refl,
  )
  word_end (e' ∷ es) ks kl vs off sent x go at e =
      let p = span ks kl vs (off - vs) in
      let first : Runs line (parse read_value ks kl vs off sent)
          (parse expect_key ks kl vs (off + 1) (sent ++ p ∷ [])) =
        one_round line _ _ b' ' _ at refl (unfold isspace in rw (At-byte line off b' ' _ at) refl)
          (omega arith) in
      Sends-more line _ _ sent p x _ first e
        (go ks kl vs (off + 1) (sent ++ p ∷ []) (At-next line off b' ' _ at))

  word-Goes :
      (es : List Entry) (ks vs off key_head c : ℕ) (key_tail v : Bytes) (sent : List Span)
      → Goes line es
      → (key_head == b'"') ≡ false
      → Stands line ks (suc (length key_tail)) (key_head ∷ key_tail)
      → IsEntryValue (word c v)
      → At line off (c ∷ v ++ separated es (line_of es))
      → Sends line
          (parse expect_value ks (suc (length key_tail)) vs off sent)
          sent
          (record { key = key_head ∷ key_tail; value = c ∷ v; quoted_value = false } ∷ pairs_of es)
  unfolding kvp_step
  word-Goes es ks vs off k c kt v sent go kq key (h, q, all) at =
      let behind = separated es (line_of es) in
      let kl = suc (length kt) in
      let first : Runs line (parse expect_value ks kl vs off sent)
          (parse read_value ks kl off (off + 1) sent) =
        one_round line _ _ c (v ++ behind) at h.1 (rw (At-byte line off c _ at, h.0, q) refl)
          (omega arith) in
      let (over, at1) =
        run_word line ks kl off sent v behind (off + 1) all (At-next line off c _ at) in
      let size : off + 1 + length v - off ≡ suc (length v) = omega arith in
      let value : Stands line off (off + 1 + length v - off) (c ∷ v) =
        rw size (At-Stands line off (c ∷ v) behind at) in
      let (t, r, stop, f) = word_end es ks kl off (off + 1 + length v) sent _ go at1 (
        sent_pair line ks kl off (off + 1 + length v - off) k kt (c ∷ v) (c ∷ v) false kq key value
          (rw q refl) q) in
      (t, Runs-append first (Runs-append over r), stop, f)

  quoted-Stands :
      (off : ℕ) (v behind : Bytes)
      → At line off (b'"' ∷ escaped v ++ b'"' ∷ behind)
      → Stands line off (off + 1 + length (escaped v) - off + 1) (b'"' ∷ escaped v ++ b'"' ∷ [])
  quoted-Stands off v behind at =
      let size : off + 1 + length (escaped v) - off + 1 ≡ suc (length (escaped v ++ b'"' ∷ [])) =
        omega (arith, length-append (escaped v) (b'"' ∷ [])) in
      rw size (
        At-Stands line off (b'"' ∷ escaped v ++ b'"' ∷ []) behind
          (at ∙ ap (λ s. b'"' ∷ s) (sym (append_assoc (escaped v) (b'"' ∷ []) behind))))

  quoted-Goes :
      (es : List Entry) (ks vs off key_head : ℕ) (key_tail v : Bytes) (sent : List Span)
      → Goes line es
      → (key_head == b'"') ≡ false
      → Stands line ks (suc (length key_tail)) (key_head ∷ key_tail)
      → IsEntryValue (quoted v)
      → At line off (b'"' ∷ escaped v ++ b'"' ∷ separated es (line_of es))
      → Sends line
          (parse expect_value ks (suc (length key_tail)) vs off sent)
          sent
          (record { key = key_head ∷ key_tail; value = v; quoted_value = true } ∷ pairs_of es)
  unfolding kvp_step
  quoted-Goes es ks vs off k kt v sent go kq key (text, plain) at =
      let behind = separated es (line_of es) in
      let kl = suc (length kt) in
      let first : Runs line (parse expect_value ks kl vs off sent)
          (parse read_quoted_value ks kl off (off + 1) sent) =
        one_round line _ _ b'"' _ at refl (unfold isspace in rw (At-byte line off b'"' _ at) refl)
          (omega arith) in
      let (over, at1) =
        run_quoted line ks kl off sent v behind (off + 1) text plain (At-next line off b'"' _ at) in
      let end = off + 1 + length (escaped v) in
      let p = span ks kl off (end - off + 1) in
      let close : Runs line (parse read_quoted_value ks kl off end sent)
          (parse expect_key ks kl off (end + 1) (sent ++ p ∷ [])) =
        one_round line _ _ b'"' behind at1 refl (rw (At-byte line end b'"' behind at1) refl)
          (omega arith) in
      Sends-more line _ _ sent p _ _ (Runs-append first (Runs-append over close))
        (sent_pair line ks kl off (end - off + 1) k kt (b'"' ∷ escaped v ++ b'"' ∷ []) v true kq key
          (quoted-Stands off v behind at) (dequoted_quoted v text) refl)
        (separator line es ks kl off (end + 1) (sent ++ p ∷ []) go
          (At-next line end b'"' behind at1))

  by_value :
      (k : ℕ) (kt : Bytes) (value : EntryValue) (es : List Entry) (ks vs off : ℕ) (sent : List Span)
      → IsEntry (record { key_head = k; key_tail = kt; value = value })
      → Goes line es
      → Stands line ks (suc (length kt)) (k ∷ kt)
      → At line off (value_text value (separated es (line_of es)))
      → Sends line
          (parse expect_value ks (suc (length kt)) vs off sent)
          sent
          (pair_of (record { key_head = k; key_tail = kt; value = value }) ∷ pairs_of es)
  by_value k kt (word c v) es ks vs off sent (_, q, _, h) go key at =
      word-Goes es ks vs off k c kt v sent go q key h at
  by_value k kt (quoted v) es ks vs off sent (_, q, _, h) go key at =
      quoted-Goes es ks vs off k kt v sent go q key h at

  entry-Goes :
      (e : Entry) (es : List Entry) (ks vs off : ℕ) (sent : List Span)
      → IsEntry e
      → Goes line es
      → Stands line ks (suc (length e.key_tail)) (e.key_head ∷ e.key_tail)
      → At line off (value_text e.value (separated es (line_of es)))
      → Sends line
          (parse expect_value ks (suc (length e.key_tail)) vs off sent)
          sent
          (pair_of e ∷ pairs_of es)
  entry-Goes e es ks vs off sent h go key at =
      by_value e.key_head e.key_tail e.value es ks vs off sent h go key at

  entries-Goes : (es : List Entry) → All IsEntry es → Goes line es
  entries-Goes [] h ks kl vs off sent at = nothing_left line ks kl vs off sent at
  entries-Goes (e ∷ es) h ks kl vs off sent at =
      let rest = separated es (line_of es) in
      let (over, at1, key) = run_to_value line ks kl vs off sent e rest h.0 at in
      let (t, r, stop, f) =
        entry-Goes e es off vs (off + suc (length e.key_tail) + 1) sent h.0 (entries-Goes es h.1)
          key at1 in
      (t, Runs-append over r, stop, f)

  -- The offset stays inside of the line, so there are rounds enough.
  while-Sound :
      (rounds : ℕ) (s : Parse)
      → Sound line s
      → Sound line (while rounds (has_char line) (kvp_step line) s)
  unfolding while
  while-Sound zero s h = h
  while-Sound (suc rounds) s h = elim (Bool-cases (has_char line s)) [
    | inr e ↦ rw (e, while) h
    | inl e ↦
        rw (e, while)
          (while-Sound rounds (kvp_step line s)
            (kvp_step-Sound line s.mode s.key_start s.key_length s.value_start s.off s.sent h e).0)
  ]

  kvp_loop-Runs :
      (t : Parse) → Runs line parse_start t → has_char line t ≡ false → kvp_loop line ≡ t
  unfolding kvp_loop
  kvp_loop-Runs t r stop =
      let sound : Sound line (while (r.count + 0) (has_char line) (kvp_step line) parse_start) =
        while-Sound (r.count + 0) parse_start (omega arith, omega arith, omega arith, tt, tt) in
      let inside : t.off ≤ length line =
        (subst (Sound line) (r.reach 0 ∙ while-stop (has_char line) (kvp_step line) 0 t stop)
          sound).0 in
      let more = 2 * length line + 1 - r.count in
      let e : 2 * length line + 1 ≡ r.count + more = omega (arith, r.bound, inside) in
      ap (λ n. while n (has_char line) (kvp_step line) parse_start) e
      ∙ r.reach more
      ∙ while-stop (has_char line) (kvp_step line) more t stop

-- For every list of pairs, written with a space between them, where a key is a word without an equals sign
-- and a value is a word or the escaped form of any string between quotation marks that does not end in a
-- backslash: `nl_parse_kvp` calls the callback once for each pair, in order, with its key, its value
-- unescaped, and whether it was quoted. No key and no unquoted value begins with a quotation mark, no
-- string holds a zero byte, and the allocations succeed.
pub nl_parse_kvp-pairs_of :
    (es : List Entry)
    → All IsEntry es
    → nl_parse_kvp (some (line_of es)) true (λ i. true) ≡ pairs_of es
unfolding nl_parse_kvp send_all
nl_parse_kvp-pairs_of es h =
    let line = line_of es in
    let (t, r, stop, f) = entries-Goes line es h 0 0 0 0 [] refl in
    rw (kvp_loop-Runs line t r stop) f
