-- ===== src/Url/RoundTrip.antt =====
-- `nl_url_decode` undoes `nl_url_encode`, under options that agree.
use nlutils.Prelude.{
  ℕ, ◌*◌, ◌/◌, ◌%◌, ◌<◌, ◌≡◌, ◌≢◌, refl, ◌∙◌, Bool, true, false, ◌&&◌, not, some, [], ◌∷◌, ◌++◌,
  arith, ◌==◌, ==_iff, append-nil, append_assoc, Bool-cases, inl, inr, ◌⊎◌,
}
use Prim.Native.Nat.{bit_or}
use nlutils.Prelude.Loop.{while}
use nlutils.Ctype.{
  Bytes, hex_digit, hex_digit_lem, isdigit, tolower, IsCString, all_below, all_below_lem,
  isxdigit-hex_digit, isalnum,
}
use nlutils.Url.Encode.{
  nl_url_to_hex, nl_url_is_allowed, nl_url_is_reserved, encode_char, encoded, nl_url_encode,
  nl_url_encode-encoded,
}
use nlutils.Url.Decode.{
  nl_url_from_hex, decode_state, is_escape, decode_step, more, decode_loop, decode_loop-step,
  nl_url_decode,
}

abbrev pair : ℕ → ℕ
pair c =
    bit_or (nl_url_from_hex (hex_digit (c / 16)) * 16) (nl_url_from_hex (hex_digit (c % 16))) % 256

pair_table : all_below 256 (λ c. pair c == c) ≡ true
unfolding all_below nl_url_from_hex hex_digit isdigit tolower
pair_table = refl

pair_lem : (c : ℕ) → c < 256 → pair c ≡ c
pair_lem c h = (==_iff _ _).0 (all_below_lem 256 _ c pair_table h)

is_escape-hex :
    (c : ℕ) (rest : Bytes)
    → c < 256
    → c ≢ 0
    → is_escape (b'%' ∷ hex_digit (c / 16) ∷ hex_digit (c % 16) ∷ rest) ≡ true
unfolding is_escape
is_escape-hex c rest h h' =
    rw (isxdigit-hex_digit (c / 16) (omega arith), isxdigit-hex_digit (c % 16) (omega arith))
      (ground (arith, hex_digit_lem (c / 16), hex_digit_lem (c % 16)))

-- Options that agree: `+` is read as a space only if no `+` is left as it is, and spaces are written as
-- `+` only if it is read back.
abbrev pub Agree : (encode_space allow_reserved ignore_plus : Bool) → Type 0
Agree encode_space allow_reserved ignore_plus =
    ((ignore_plus ≡ false) × (allow_reserved ≡ false))
    ⊎ ((ignore_plus ≡ true) × (encode_space ≡ true))

percent_not_allowed : (r : Bool) → nl_url_is_allowed b'%' r ≡ false
unfolding nl_url_is_allowed nl_url_is_reserved isalnum
percent_not_allowed true = refl
percent_not_allowed false = refl

plus_not_allowed : nl_url_is_allowed b'+' false ≡ false
unfolding nl_url_is_allowed isalnum
plus_not_allowed = refl

allowed_cases :
    (c : ℕ) (r : Bool) → nl_url_is_allowed c r ≡ true → (c ≢ b'%') × ((r ≡ false) → c ≢ b'+')
allowed_cases c r h = (λ e. cc (percent_not_allowed r), λ e e'. cc plus_not_allowed)

module _ (s r p : Bool) (agree : Agree s r p) where
  step-escape :
      (c : ℕ) (rest w : Bytes)
      → c < 256
      → c ≢ 0
      → decode_step p (decode_state (b'%' ∷ hex_digit (c / 16) ∷ hex_digit (c % 16) ∷ rest) w)
        ≡ decode_state rest (w ++ c ∷ [])
  unfolding decode_step
  step-escape c rest w h h' = rw (is_escape-hex c rest h h', pair_lem c h)

  step-allowed :
      (c : ℕ) (rest w : Bytes)
      → c ≢ 0
      → nl_url_is_allowed c r ≡ true
      → (more (decode_state (c ∷ rest) w) ≡ true)
        × (decode_step p (decode_state (c ∷ rest) w) ≡ decode_state rest (w ++ c ∷ []))
  unfolding decode_step
  step-allowed c rest w h e =
      ground (arith, (allowed_cases c r e).0, (allowed_cases c r e).1, agree)

  step-space :
      (c : ℕ) (rest w : Bytes)
      → (c == b' ' && not s) ≡ true
      → (more (decode_state (b'+' ∷ rest) w) ≡ true)
        × (decode_step p (decode_state (b'+' ∷ rest) w) ≡ decode_state rest (w ++ c ∷ []))
  unfolding decode_step
  step-space c rest w e = ground (arith, agree)

  -- One encoded character is read in one round.
  step-encode_char :
      (c : ℕ) (rest w : Bytes)
      → c < 256
      → c ≢ 0
      → (more (decode_state (encode_char s r c ++ rest) w) ≡ true)
        × (decode_step p (decode_state (encode_char s r c ++ rest) w)
            ≡ decode_state rest (w ++ c ∷ []))
  unfolding encode_char nl_url_to_hex
  step-encode_char c rest w h h' = elim (Bool-cases (nl_url_is_allowed c r)) [
    | inl e ↦ rw e (step-allowed c rest w h' e)
    | inr e ↦ elim (Bool-cases (c == b' ' && not s)) [
      | inl e' ↦ rw (e, e') (step-space c rest w e')
      | inr e' ↦
          let high : c / 16 % 16 ≡ c / 16 = omega arith in
          rw (e, e', high) (refl, step-escape c rest w h h')
    ]
  ]

  decode_loop-encoded :
      (str rest w : Bytes)
      → IsCString str
      → decode_loop p (decode_state (encoded s r str ++ rest) w)
        ≡ decode_loop p (decode_state rest (w ++ str))
  unfolding encoded
  decode_loop-encoded [] rest w v = rw append-nil
  decode_loop-encoded (c ∷ str) rest w v =
      let (go, read) = step-encode_char c (encoded s r str ++ rest) w v.0.1 v.0.0 in
      rw append_assoc (
        decode_loop-step p _ go
        ∙ rw read (decode_loop-encoded str rest (w ++ c ∷ []) v.1 ∙ rw append_assoc))

decode_loop-nil : (p : Bool) (w : Bytes) → decode_loop p (decode_state [] w) ≡ decode_state [] w
unfolding decode_loop while
decode_loop-nil p w = refl

decode-loop :
    (str out : Bytes) (p : Bool)
    → decode_loop p (decode_state str []) ≡ decode_state [] out
    → nl_url_decode true (some str) p ≡ some out
unfolding nl_url_decode
decode-loop str out p e = rw e

-- `nl_url_decode` undoes `nl_url_encode` when the allocations succeed and the options agree: either `+`
-- is read as a space and reserved characters are encoded, or `+` is kept and spaces are encoded as
-- `%20`. The string holds no zero byte.
pub nl_url_decode-encode :
    (str : Bytes) (encode_space allow_reserved ignore_plus : Bool)
    → Agree encode_space allow_reserved ignore_plus
    → IsCString str
    → nl_url_decode true (nl_url_encode true (some str) encode_space allow_reserved) ignore_plus
      ≡ some str
nl_url_decode-encode str s r p agree v = rw (nl_url_encode-encoded s r str) (
    decode-loop (encoded s r str) str p
      (rw append-nil at (decode_loop-encoded s r p agree str [] [] v) ∙ decode_loop-nil p str))
