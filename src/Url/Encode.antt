-- ===== src/Url/Encode.antt =====
-- `nl_url_encode` of src/url.c and its tests on characters.
use nlutils.Prelude.{
  ℕ, ◌+◌, ◌*◌, ◌/◌, ◌%◌, ◌≤◌, ◌≡◌, Bool, true, false, ◌&&◌, ◌||◌, not, Option, none, some, [], ◌∷◌,
  ◌++◌, arith, sym, append-nil, append_assoc, ◌<◌, ltb, leb, ◌==◌, if◌then◌else◌, length,
  length-append,
}
use nlutils.Ctype.{Bytes, codes, isalnum, hex_digit, hex_digit_lem, All, All-append}

-- `hex[code & 15]`
unfoldable pub nl_url_to_hex : ℕ → ℕ
nl_url_to_hex code = hex_digit (code % 16)

member : ℕ → Bytes → Bool
member c [] = false
member c (d ∷ ds) = c == d || member c ds

-- The cases of the `switch`.
unfoldable pub nl_url_is_reserved : ℕ → Bool
unfolding member
nl_url_is_reserved c = member c (codes "!#$&'()*+,/:;=?@[]")

unfoldable pub nl_url_is_allowed : ℕ → (allow_reserved : Bool) → Bool
nl_url_is_allowed c allow_reserved =
    ltb c 128
    && (isalnum c
        || c == b'-'
        || c == b'_'
        || c == b'.'
        || c == b'~'
        || allow_reserved && nl_url_is_reserved c)

-- What one round of the loop writes.
unfoldable pub encode_char : (encode_space allow_reserved : Bool) → ℕ → Bytes
encode_char encode_space allow_reserved c =
    if nl_url_is_allowed c allow_reserved
    then c ∷ []
    else if c == b' ' && not encode_space
    then b'+' ∷ []
    else b'%' ∷ nl_url_to_hex (c / 16) ∷ nl_url_to_hex c ∷ []

-- `out` is what stands before `pbuf`.
unfoldable pub encode_loop : (encode_space allow_reserved : Bool) → Bytes → Bytes → Bytes
encode_loop encode_space allow_reserved [] out = out
encode_loop encode_space allow_reserved (c ∷ str) out =
    encode_loop encode_space allow_reserved str (out ++ encode_char encode_space allow_reserved c)

-- `none` as an argument is a NULL string, and as a result NULL.
unfoldable pub nl_url_encode :
    (malloc_ok : Bool) → Option Bytes → (encode_space allow_reserved : Bool) → Option Bytes
nl_url_encode malloc_ok none encode_space allow_reserved = none
nl_url_encode malloc_ok (some str) encode_space allow_reserved =
    if malloc_ok then some (encode_loop encode_space allow_reserved str []) else none

-- The unreserved characters of RFC 3986: letters, digits and four marks.
unfoldable pub is_unreserved : ℕ → Bool
is_unreserved c =
    leb 97 c && leb c 122
    || leb 65 c && leb c 90
    || leb 48 c && leb c 57
    || c == b'-'
    || c == b'.'
    || c == b'_'
    || c == b'~'

-- Its reserved characters: the delimiters between and in the components of a URL.
unfoldable pub is_reserved : ℕ → Bool
is_reserved c =
    (c == b':' || c == b'/' || c == b'?' || c == b'#' || c == b'[' || c == b']' || c == b'@')
    || (c == b'!' || c == b'$' || c == b'&' || c == 39 || c == b'(' || c == b')')
    || (c == b'*' || c == b'+' || c == b',' || c == b';' || c == b'=')

module _ (encode_space allow_reserved : Bool) where
  -- Character by character.
  unfoldable pub encoded : Bytes → Bytes
  encoded [] = []
  encoded (c ∷ str) = encode_char encode_space allow_reserved c ++ encoded str

  encode_loop-encoded :
      (str out : Bytes) → encode_loop encode_space allow_reserved str out ≡ out ++ encoded str
  unfolding encode_loop encoded
  encode_loop-encoded [] out = sym (append-nil out)
  encode_loop-encoded (c ∷ str) out = rw (encode_loop-encoded str, append_assoc)

  pub nl_url_encode-encoded :
      (str : Bytes) → nl_url_encode true (some str) encode_space allow_reserved ≡ some (encoded str)
  unfolding nl_url_encode
  nl_url_encode-encoded str = rw encode_loop-encoded

  length-encode_char : (c : ℕ) → length (encode_char encode_space allow_reserved c) ≤ 3
  unfolding encode_char
  length-encode_char c = ground arith

  length-encoded : (str : Bytes) → length (encoded str) ≤ 3 * length str
  unfolding encoded
  length-encoded [] = omega arith
  length-encoded (c ∷ str) = omega (
    arith,
    length-append (encode_char encode_space allow_reserved c) (encoded str),
    length-encode_char c,
    length-encoded str,
  )

  -- A character that an encoded string may hold.
  abbrev pub IsUrlChar : ℕ → Type 0
  IsUrlChar c =
      (is_unreserved c
        || c == b'%'
        || allow_reserved && is_reserved c
        || not encode_space && c == b'+')
      ≡ true

  hex_digit-IsUrlChar : (d : ℕ) → d < 16 → IsUrlChar (hex_digit d)
  unfolding is_unreserved
  hex_digit-IsUrlChar d h = rw (hex_digit_lem d h) (ground arith)

  allowed-IsUrlChar : (c : ℕ) → nl_url_is_allowed c allow_reserved ≡ true → IsUrlChar c
  unfolding nl_url_is_allowed nl_url_is_reserved member isalnum is_unreserved is_reserved
  allowed-IsUrlChar c h = ground arith

  encode_char-IsUrlChar : (c : ℕ) → All IsUrlChar (encode_char encode_space allow_reserved c)
  unfolding encode_char nl_url_to_hex
  encode_char-IsUrlChar c =
      ground (
        arith,
        allowed-IsUrlChar c,
        hex_digit-IsUrlChar (c / 16 % 16),
        hex_digit-IsUrlChar (c % 16),
      )

  encoded-IsUrlChar : (str : Bytes) → All IsUrlChar (encoded str)
  unfolding encoded
  encoded-IsUrlChar [] = tt
  encoded-IsUrlChar (c ∷ str) =
      All-append IsUrlChar (encode_char encode_space allow_reserved c) (encoded str)
        (encode_char-IsUrlChar c) (encoded-IsUrlChar str)

-- `nl_url_encode` of a string that is not NULL, when the allocation succeeds: the result and its
-- terminator fit the buffer of three bytes for each character and one more, and it holds only
-- letters, digits, `-`, `.`, `_`, `~` and `%`, the reserved characters of RFC 3986 if they are allowed, and `+`
-- unless spaces are encoded.
pub nl_url_encode-IsUrlChar :
    (str : Bytes) (encode_space allow_reserved : Bool)
    → (out : Bytes) × (nl_url_encode true (some str) encode_space allow_reserved ≡ some out)
      × (length out + 1 ≤ length str * 3 + 1)
      × All (IsUrlChar encode_space allow_reserved) out
nl_url_encode-IsUrlChar str s r = (
  encoded s r str,
  nl_url_encode-encoded s r str,
  omega (arith, length-encoded s r str),
  encoded-IsUrlChar s r str,
)
