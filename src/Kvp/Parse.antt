-- ===== src/Kvp/Parse.antt =====
-- `nl_parse_kvp` and `send_pair` of src/kvp.c. The line is a C string, read at the offset `off`.
use nlutils.Prelude.{
  ℕ, ◌+◌, ◌-◌, ◌*◌, Bool, false, ◌&&◌, not, Option, none, some, List, [], ◌∷◌, ◌++◌, ◌==◌,
  if◌then◌else◌, length, take, drop,
}
use nlutils.Prelude.Loop.{while}
use nlutils.Ctype.{Bytes, byte_at, isspace}
use nlutils.Escape.Unescape.{if_quoted, nl_unescape_string}

-- The states of `nl_parse_kvp`.
pub data Mode : Type 0 where
  expect_key : Mode
  skip_key : Mode
  read_key : Mode
  read_quoted_key : Mode
  expect_equals : Mode
  expect_value : Mode
  read_value : Mode
  read_quoted_value : Mode

-- The last four arguments of a call of `send_pair`.
pub record Span : Type 0 where
  pub key_start : ℕ
  pub key_length : ℕ
  pub value_start : ℕ
  pub value_length : ℕ

-- The local variables, and the calls of `send_pair` made.
pub record Parse : Type 0 where
  pub mode : Mode
  pub key_start : ℕ
  pub key_length : ℕ
  pub value_start : ℕ
  pub off : ℕ
  pub sent : List Span

abbrev pub goes : Mode → Parse → Parse
goes mode s = record s { mode = mode }

abbrev pub forward : Parse → Parse
forward s = record s { off = s.off + 1 }

abbrev pub sends : (value_length : ℕ) → Parse → Parse
sends n s = record s {
  sent =
      s.sent
      ++ record {
        key_start = s.key_start;
        key_length = s.key_length;
        value_start = s.value_start;
        value_length = n;
      }
        ∷ [];
}

-- `*ptr == '\\' && ptr[1] == '"'`
abbrev pub escaped_quote : Bytes → ℕ → Bool
escaped_quote line off = byte_at line off == b'\\' && byte_at line (off + 1) == b'"'

-- One round of the loops on the character at `off`. An inner loop goes on while the state stays the
-- same and there are characters left, as the outer loop then does with the same state.
unfoldable pub kvp_step : Bytes → Parse → Parse
kvp_step line s =
    let c = byte_at line s.off in
    elim s.mode [
      | expect_key ↦ forward (
          if c == b'='
          then goes skip_key s
          else if not (isspace c)
          then if c == b'"'
            then goes read_quoted_key (record s { key_start = s.off })
            else goes read_key (record s { key_start = s.off })
          else s)
      | skip_key ↦ if not (isspace c) then forward s else goes expect_key s
      | read_key ↦ forward (
          if isspace c
          then goes expect_key s
          else if c == b'='
          then goes expect_value (record s { key_length = s.off - s.key_start })
          else s)
      | read_quoted_key ↦ forward (
          if c == b'"'
          then goes expect_equals s
          else if escaped_quote line s.off
          then forward s
          else s)
      | expect_equals ↦ forward (
          if c == b'='
          then goes expect_value (record s { key_length = s.off - s.key_start })
          else goes expect_key s)
      | expect_value ↦ forward (
          if isspace c
          then goes expect_key s
          else if c == b'"'
          then goes read_quoted_value (record s { value_start = s.off })
          else goes read_value (record s { value_start = s.off }))
      | read_value ↦
          forward (if isspace c then goes expect_key (sends (s.off - s.value_start) s) else s)
      | read_quoted_value ↦ forward (
          if c == b'"'
          then goes expect_key (sends (s.off - s.value_start + 1) s)
          else if escaped_quote line s.off
          then forward s
          else s)
    ]

-- `while(*ptr)`: a round reads a character or leaves `skip_key`.
abbrev pub has_char : Bytes → Parse → Bool
has_char line s = not (byte_at line s.off == 0)

abbrev pub parse_start : Parse
parse_start = record {
  mode = expect_key;
  key_start = 0;
  key_length = 0;
  value_start = 0;
  off = 0;
  sent = [];
}

unfoldable pub kvp_loop : Bytes → Parse
kvp_loop line = while (2 * length line + 1) (has_char line) (kvp_step line) parse_start

-- The final pair.
unfoldable pub last_pair : Parse → Parse
last_pair s = elim s.mode [
  | expect_key ↦ s
  | skip_key ↦ s
  | read_key ↦ s
  | read_quoted_key ↦ s
  | expect_equals ↦ s
  | expect_value ↦ s
  | read_value ↦ sends (s.off - s.value_start) s
  | read_quoted_value ↦ sends (s.off - s.value_start) s
]

-- A call of the callback.
pub record Pair : Type 0 where
  pub key : Bytes
  pub value : Bytes
  pub quoted_value : Bool

abbrev pub or_empty : Option Bytes → Bytes
or_empty none = []
or_empty (some s) = s

abbrev pub dequoted : Bytes → Bytes
dequoted s =
    if byte_at s 0 == b'"' then or_empty (nl_unescape_string (some s) false if_quoted).1 else s

-- `dup_ok i` is whether the duplication of the text from the offset `i` succeeds.
unfoldable pub send_pair : Bytes → (dup_ok : ℕ → Bool) → Span → List Pair
send_pair line dup_ok p =
    let key = take p.key_length (drop p.key_start line) in
    let value = take p.value_length (drop p.value_start line) in
    if dup_ok p.key_start && dup_ok p.value_start
    then record {
      key = dequoted key;
      value = dequoted value;
      quoted_value = byte_at value 0 == b'"';
    }
      ∷ []
    else []

unfoldable pub send_all : Bytes → (dup_ok : ℕ → Bool) → List Span → List Pair
send_all line dup_ok [] = []
send_all line dup_ok (p ∷ ps) = send_pair line dup_ok p ++ send_all line dup_ok ps

-- The calls of the callback, in order. `none` is a NULL line; `has_callback` says that the callback is
-- not NULL.
unfoldable pub nl_parse_kvp : Option Bytes → (has_callback : Bool) → (dup_ok : ℕ → Bool) → List Pair
nl_parse_kvp none has_callback dup_ok = []
nl_parse_kvp (some line) has_callback dup_ok =
    if has_callback then send_all line dup_ok (last_pair (kvp_loop line)).sent else []
