-- ===== src/Kvp/Spans.antt =====
-- The parser ends, and the texts that it sends lie inside of the line.
use nlutils.Prelude.{
  ℕ, zero, suc, ◌+◌, ◌-◌, ◌*◌, ◌<◌, ◌≤◌, ◌≡◌, true, false, not, List, [], ◌∷◌, ◌++◌, ◌==◌, length,
  arith,
}
use nlutils.Prelude.Loop.{while_inv}
use nlutils.Ctype.{Bytes, byte_at}
use nlutils.Kvp.Parse.{
  Mode, expect_key, skip_key, read_key, read_quoted_key, expect_equals, expect_value, read_value,
  read_quoted_value, Span, Parse, kvp_step, kvp_loop, last_pair, has_char, parse_start,
}

-- Both texts of a span lie inside of a line of `n` characters.
abbrev pub Within : ℕ → List Span → Type 0
Within n [] = Unit
Within n (p ∷ ps) =
    (p.key_start + p.key_length ≤ n) × (p.value_start + p.value_length ≤ n) × Within n ps

Within-append :
    (n : ℕ) (ps : List Span) (p : Span)
    → Within n ps
    → p.key_start + p.key_length ≤ n
    → p.value_start + p.value_length ≤ n
    → Within n (ps ++ p ∷ [])
Within-append n [] p w k v = (k, v, tt)
Within-append n (q ∷ ps) p w k v = (w.0, w.1, Within-append n ps p w.2 k v)

-- A complete key is there in the states behind the equals sign.
abbrev KeyRead : Parse → Type 0
KeyRead s = elim s.mode [
  | expect_key ↦ Unit
  | skip_key ↦ Unit
  | read_key ↦ Unit
  | read_quoted_key ↦ Unit
  | expect_equals ↦ Unit
  | expect_value ↦ s.key_start + s.key_length ≤ s.off
  | read_value ↦ s.key_start + s.key_length ≤ s.off
  | read_quoted_value ↦ s.key_start + s.key_length ≤ s.off
]

abbrev rank : Mode → ℕ
rank skip_key = 1
rank _ = 0

abbrev pub Sound : Bytes → Parse → Type 0
Sound line s =
    (s.off ≤ length line)
    × (s.key_start ≤ s.off)
    × (s.value_start ≤ s.off)
    × KeyRead s
    × Within (length line) s.sent

abbrev pub rest : Bytes → Parse → ℕ
rest line s = 2 * (length line - s.off) + rank s.mode

pub byte_inside : (str : Bytes) (i : ℕ) → not (byte_at str i == 0) ≡ true → i < length str
byte_inside [] i h = ground arith
byte_inside (c ∷ str) zero h = omega arith
byte_inside (c ∷ str) (suc i) h = omega (arith, byte_inside str i h)

abbrev pub parse : Mode → (ks kl vs off : ℕ) → List Span → Parse
parse m ks kl vs off sent = record {
  mode = m;
  key_start = ks;
  key_length = kl;
  value_start = vs;
  off = off;
  sent = sent;
}

-- A round keeps it, and comes nearer to the end.
pub kvp_step-Sound :
    (line : Bytes) (m : Mode) (ks kl vs off : ℕ) (sent : List Span)
    → Sound line (parse m ks kl vs off sent)
    → has_char line (parse m ks kl vs off sent) ≡ true
    → Sound line (kvp_step line (parse m ks kl vs off sent))
      × (rest line (kvp_step line (parse m ks kl vs off sent))
          < rest line (parse m ks kl vs off sent))
unfolding kvp_step
kvp_step-Sound line expect_key ks kl vs off sent h go = ground (arith, byte_inside line off go)
kvp_step-Sound line skip_key ks kl vs off sent h go = ground (arith, byte_inside line off go)
kvp_step-Sound line read_key ks kl vs off sent h go = ground (arith, byte_inside line off go)
kvp_step-Sound line read_quoted_key ks kl vs off sent h go =
    ground (arith, byte_inside line off go, byte_inside line (off + 1))
kvp_step-Sound line expect_equals ks kl vs off sent h go = ground (arith, byte_inside line off go)
kvp_step-Sound line expect_value ks kl vs off sent h go = ground (arith, byte_inside line off go)
kvp_step-Sound line read_value ks kl vs off sent h go = ground (
  arith,
  byte_inside line off go,
  Within-append (length line) sent
      (record { key_start = ks; key_length = kl; value_start = vs; value_length = off - vs }) h.4,
)
kvp_step-Sound line read_quoted_value ks kl vs off sent h go = ground (
  arith,
  byte_inside line off go,
  byte_inside line (off + 1),
  Within-append (length line) sent
      (record { key_start = ks; key_length = kl; value_start = vs; value_length = off - vs + 1 })
      h.4,
)

last_pair-Within :
    (line : Bytes) (m : Mode) (ks kl vs off : ℕ) (sent : List Span)
    → Sound line (parse m ks kl vs off sent)
    → Within (length line) (last_pair (parse m ks kl vs off sent)).sent
unfolding last_pair
last_pair-Within line expect_key ks kl vs off sent h = h.4
last_pair-Within line skip_key ks kl vs off sent h = h.4
last_pair-Within line read_key ks kl vs off sent h = h.4
last_pair-Within line read_quoted_key ks kl vs off sent h = h.4
last_pair-Within line expect_equals ks kl vs off sent h = h.4
last_pair-Within line expect_value ks kl vs off sent h = h.4
last_pair-Within line read_value ks kl vs off sent h =
    Within-append (length line) sent
      (record { key_start = ks; key_length = kl; value_start = vs; value_length = off - vs }) h.4
      (omega arith) (omega arith)
last_pair-Within line read_quoted_value ks kl vs off sent h =
    Within-append (length line) sent
      (record { key_start = ks; key_length = kl; value_start = vs; value_length = off - vs }) h.4
      (omega arith) (omega arith)

-- The loop of `nl_parse_kvp` ends by its test, so at the end of the line or at a zero byte, and every key
-- and every value that is sent, the final pair included, lies inside of the line.
pub kvp_loop-Within :
    (line : Bytes)
    → (has_char line (kvp_loop line) ≡ false)
      × ((kvp_loop line).off ≤ length line)
      × Within (length line) (last_pair (kvp_loop line)).sent
unfolding kvp_loop
kvp_loop-Within line =
    let (sound, stop) =
      while_inv (has_char line) (kvp_step line) (Sound line) (rest line)
        (λ s h go.
          kvp_step-Sound line s.mode s.key_start s.key_length s.value_start s.off s.sent h go)
        (2 * length line + 1) parse_start (omega arith)
        (omega arith, omega arith, omega arith, tt, tt) in
    let s = kvp_loop line in
    (
      stop,
      sound.0,
      last_pair-Within line s.mode s.key_start s.key_length s.value_start s.off s.sent sound,
    )
