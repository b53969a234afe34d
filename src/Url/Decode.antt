-- ===== src/Url/Decode.antt =====
-- `nl_url_decode` of src/url.c. `unread` is the text from `str` on, `written` what stands before `pbuf`.
use Prim.Native.Nat.{bit_or}
use nlutils.Prelude.{
  ℕ, suc, ◌+◌, ◌-◌, ◌*◌, ◌%◌, ◌≤◌, ◌<◌, ◌≡◌, refl, ◌∙◌, Bool, true, false, ◌&&◌, ◌||◌, not, Option,
  none, some, [], ◌∷◌, ◌++◌, arith, ◌==◌, if◌then◌else◌, length, length-append, drop, length-drop,
  zero,
}
use nlutils.Prelude.Loop.{while, while_inv, while-step}
use nlutils.Ctype.{Bytes, byte_at, isdigit, isxdigit, tolower, IsCString}

unfoldable pub nl_url_from_hex : ℕ → ℕ
nl_url_from_hex ch = if isdigit ch then ch - b'0' else tolower ch - b'a' + 10

pub record Decode : Type 0 where
  pub unread : Bytes
  pub written : Bytes

abbrev pub decode_state : Bytes → Bytes → Decode
decode_state t w = record { unread = t; written = w }

-- `*pbuf++ = v; str += n;`
abbrev pub put : ℕ → ℕ → Decode → Decode
put v n s = record { unread = drop n s.unread; written = s.written ++ v ∷ [] }

-- Two hexadecimal digits behind the `%`, and not both zero.
unfoldable pub is_escape : Bytes → Bool
is_escape str =
    let c1 = byte_at str 1 in
    let c2 = byte_at str 2 in
    not (c1 == 0)
    && isxdigit c1
    && not (c2 == 0)
    && isxdigit c2
    && (not (c1 == b'0') || not (c2 == b'0'))

-- One round of the loop.
unfoldable pub decode_step : (ignore_plus : Bool) → Decode → Decode
decode_step ignore_plus s =
    let str = s.unread in
    let c = byte_at str 0 in
    if c == b'%'
    then if is_escape str
      then put
          (bit_or (nl_url_from_hex (byte_at str 1) * 16) (nl_url_from_hex (byte_at str 2)) % 256) 3
          s
      else put c 1 s
    else if c == b'+' && not ignore_plus
    then put b' ' 1 s
    else put c 1 s

abbrev pub more : Decode → Bool
more s = not (byte_at s.unread 0 == 0)

-- The whole loop, bounded by the length of the text.
unfoldable pub decode_loop : (ignore_plus : Bool) → Decode → Decode
decode_loop ignore_plus s = while (suc (length s.unread)) more (decode_step ignore_plus) s

-- `none` as an argument is a NULL string, and as a result NULL.
unfoldable pub nl_url_decode :
    (malloc_ok : Bool) → Option Bytes → (ignore_plus : Bool) → Option Bytes
nl_url_decode malloc_ok none ignore_plus = none
nl_url_decode malloc_ok (some str) ignore_plus =
    if malloc_ok then some (decode_loop ignore_plus (decode_state str [])).written else none

-- The escapes of a string, from the left: a `%` and two hexadecimal digits, not both zero.
unfoldable pub escapes : Bytes → ℕ
escapes [] = 0
escapes (c ∷ []) = 0
escapes (c ∷ a ∷ []) = 0
escapes (c ∷ a ∷ b ∷ rest) =
    let behind = escapes rest in
    let next = escapes (a ∷ b ∷ rest) in
    if c == b'%' && (isxdigit a && isxdigit b) && not (a == b'0' && b == b'0')
    then behind + 1
    else next

byte_pos : (str : Bytes) (i : ℕ) → not (byte_at str i == 0) ≡ true → i < length str
byte_pos [] i h = ground arith
byte_pos (c ∷ str) zero h = omega arith
byte_pos (c ∷ str) (suc i) h = omega (arith, byte_pos str i h)

module _ (ignore_plus : Bool) where
  length-snoc : (w : Bytes) (v : ℕ) → length (w ++ v ∷ []) ≡ length w + 1
  length-snoc w v = length-append w (v ∷ [])

  is_escape-pos : (str : Bytes) → is_escape str ≡ true → 2 < length str
  unfolding is_escape
  is_escape-pos str h = ground (arith, byte_pos str 2)

  -- Each round reads, and it writes no more than it reads.
  decode_step-length :
      (s : Decode)
      → more s ≡ true
      → (length (decode_step ignore_plus s).unread < length s.unread)
        × (length (decode_step ignore_plus s).written + length (decode_step ignore_plus s).unread
            ≤ length s.written + length s.unread)
  unfolding decode_step
  decode_step-length s h = grind (
    arith,
    byte_pos s.unread 0 h,
    is_escape-pos s.unread,
    length-snoc,
    length-drop 1 s.unread,
    length-drop 3 s.unread,
  )

  while_fuel :
      (f g : ℕ) (s : Decode)
      → length s.unread < f
      → length s.unread < g
      → while f more (decode_step ignore_plus) s ≡ while g more (decode_step ignore_plus) s
  unfolding while
  while_fuel zero g s hf hg = absurd (omega arith)
  while_fuel (suc f) zero s hf hg = absurd (omega arith)
  while_fuel (suc f) (suc g) s hf hg =
      ground (arith, decode_step-length s, while_fuel f g (decode_step ignore_plus s))

  -- The loop makes a round and goes on.
  pub decode_loop-step :
      (s : Decode)
      → more s ≡ true
      → decode_loop ignore_plus s ≡ decode_loop ignore_plus (decode_step ignore_plus s)
  unfolding decode_loop
  decode_loop-step s h =
      while-step more (decode_step ignore_plus) (length s.unread) s h
      ∙ while_fuel (length s.unread) _ (decode_step ignore_plus s) (decode_step-length s h).0
          (omega arith)

  drop-IsCString : (n : ℕ) (s : Bytes) → IsCString s → IsCString (drop n s)
  drop-IsCString zero s v = v
  drop-IsCString (suc n) [] v = v
  drop-IsCString (suc n) (c ∷ s) v = drop-IsCString n s v.1

  decode_step-IsCString :
      (s : Decode) → IsCString s.unread → IsCString (decode_step ignore_plus s).unread
  unfolding decode_step
  decode_step-IsCString s v =
      ground (arith, drop-IsCString 1 s.unread v, drop-IsCString 3 s.unread v)

  hex_digit-pos : (c : ℕ) → (isxdigit c && c == 0) ≡ false
  unfolding isxdigit isdigit
  hex_digit-pos c = ground arith

  decode_step-escapes :
      (w str : Bytes)
      → more (decode_state str w) ≡ true
      → length (decode_step ignore_plus (decode_state str w)).written
          + length (decode_step ignore_plus (decode_state str w)).unread
          + 2 * escapes str
        ≡ length w + length str + 2 * escapes (decode_step ignore_plus (decode_state str w)).unread
  unfolding decode_step escapes is_escape
  decode_step-escapes w [] h = ground arith
  decode_step-escapes w (c ∷ []) h = grind (arith, length-snoc)
  decode_step-escapes w (c ∷ a ∷ []) h = grind (arith, length-snoc)
  decode_step-escapes w (c ∷ a ∷ b ∷ rest) h =
      grind (arith, length-snoc, hex_digit-pos a, hex_digit-pos b)

  abbrev Kept : Decode → Decode → Type 0
  Kept s t =
      (length t.written + length t.unread + 2 * escapes s.unread
        ≡ length s.written + length s.unread + 2 * escapes t.unread)
      × IsCString t.unread

  decode_loop-inv :
      (s : Decode)
      → IsCString s.unread
      → Kept s (decode_loop ignore_plus s) × (more (decode_loop ignore_plus s) ≡ false)
  unfolding decode_loop
  decode_loop-inv s v =
      while_inv more (decode_step ignore_plus) (Kept s) (λ t. length t.unread)
        (λ t p go. (
          (omega (arith, decode_step-escapes t.written t.unread go), decode_step-IsCString t p.1),
          (decode_step-length t go).0,
        ))
        (suc (length s.unread)) s (omega arith) (omega arith, v)

  nil_of_stop : (str : Bytes) → IsCString str → not (byte_at str 0 == 0) ≡ false → str ≡ []
  nil_of_stop [] v h = refl
  nil_of_stop (c ∷ str) v h = ground arith

-- `nl_url_decode` of a string that is not NULL, when the allocation succeeds: the loop ends at the
-- string's terminator, and the result is shorter than the string by two bytes for each escape of the string, a
-- `%` with two hexadecimal digits that are not both zero; so it fits the buffer. The string holds no zero byte.
pub nl_url_decode-length :
    (str : Bytes) (ignore_plus : Bool)
    → IsCString str
    → ((decode_loop ignore_plus (decode_state str [])).unread ≡ [])
      × ((out : Bytes) × (nl_url_decode true (some str) ignore_plus ≡ some out)
          × (length out + 2 * escapes str ≡ length str))
unfolding nl_url_decode escapes
nl_url_decode-length str p v =
    let (kept, stop) = decode_loop-inv p (decode_state str []) v in
    let t = decode_loop p (decode_state str []) in
    let end : t.unread ≡ [] = nil_of_stop p t.unread kept.1 stop in
    let count : length t.written + 0 + 2 * escapes str ≡ 0 + length str + 2 * 0 =
      rw end at kept.0 in
    (end, (t.written, refl, omega (arith, count)))
