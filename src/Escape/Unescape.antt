-- ===== src/Escape/Unescape.antt =====
-- `nl_unescape_string` of src/escape.c. The function works in place: `unread` is the text from `str`
-- on, `written` the text before `write`. Each round writes at most as many bytes as it reads, so no
-- byte is overwritten before it is read.
use nlutils.Prelude.{
  ℕ, suc, ◌+◌, Bool, true, false, not, ◌&&◌, ◌||◌, Option, none, some, [], ◌∷◌, ◌++◌, ◌==◌,
  if◌then◌else◌, length, drop,
}
use nlutils.Prelude.Int.{ℤ, pos, negsuc}
use nlutils.Prelude.Loop.{while}
use nlutils.Ctype.{Bytes, byte_at, isxdigit, strtoul16}
use nlutils.Escape.Table.{escape_char, get_original}

-- `enum nl_unescape_dequote`
pub data Dequote : Type 0 where
  no_dequote : Dequote
  dequote : Dequote
  if_quoted : Dequote

abbrev pub quote : ℕ
quote = b'"'

pub record Unescape : Type 0 where
  pub unread : Bytes
  pub written : Bytes
  pub count : ℕ

-- A hexadecimal escape `\x…` at `str`; `digits` is what the source copies into `buf`.
unfoldable pub hex_escape : Bool → Unescape → (digits : Bytes) → (advance removed : ℕ) → Unescape
hex_escape include_zero s digits advance removed =
    let hexval = strtoul16 digits 0 in
    if not (hexval == 0) || include_zero
    then record {
      unread = drop advance s.unread;
      written = s.written ++ hexval ∷ [];
      count = s.count + removed;
    }
    else record s { unread = drop advance s.unread; count = s.count + removed + 1 }

-- An escape character at `str`. A `break` leaves nothing unread.
unfoldable pub escape_step : Bool → Unescape → Unescape
unfolding hex_escape
escape_step include_zero s =
    let str = s.unread in
    let c1 = byte_at str 1 in
    if c1 == b'x'
    then if isxdigit (byte_at str 2)
      then if isxdigit (byte_at str 3)
        then hex_escape include_zero s (byte_at str 2 ∷ byte_at str 3 ∷ []) 4 3
        else hex_escape include_zero s (byte_at str 2 ∷ []) 3 2
      else record s { unread = drop 2 str; written = s.written ++ byte_at str 0 ∷ c1 ∷ [] }
    else let replace = get_original c1 in
      if replace == 0
      then if c1 == 0
        then record s { unread = []; written = s.written ++ byte_at str 0 ∷ [] }
        else record s { unread = drop 2 str; written = s.written ++ byte_at str 0 ∷ c1 ∷ [] }
      else record { unread = drop 2 str; written = s.written ++ replace ∷ []; count = s.count + 1 }

-- One round of the main loop, `while(*str != 0)`.
unfoldable pub unescape_step : (include_zero dequoting : Bool) → Unescape → Unescape
unfolding escape_step
unescape_step include_zero dequoting s =
    let c = byte_at s.unread 0 in
    if c == escape_char
    then escape_step include_zero s
    else if dequoting && c == quote && byte_at s.unread 1 == 0
    then record s { unread = drop 1 s.unread; count = s.count + 1 }
    else record s { unread = drop 1 s.unread; written = s.written ++ c ∷ [] }

-- The loops before the main loop: copy up to an escape character or, when dequoting, a quotation
-- mark.
unfoldable pub skip_step : Unescape → Unescape
skip_step s = record s { unread = drop 1 s.unread; written = s.written ++ byte_at s.unread 0 ∷ [] }

abbrev pub more : Unescape → Bool
more s = not (byte_at s.unread 0 == 0)

abbrev pub plain : Bool → Unescape → Bool
plain dequoting s =
    let c = byte_at s.unread 0 in
    not (c == escape_char) && not (c == 0) && not (dequoting && c == quote)

-- The three loops, each bounded by the length of the text.
unfoldable pub unescape_from : (include_zero dequoting : Bool) → Unescape → Unescape
unfolding skip_step unescape_step while
unescape_from include_zero dequoting s =
    let skipped = while (suc (length s.unread)) (plain dequoting) skip_step s in
    while (suc (length skipped.unread)) more (unescape_step include_zero dequoting) skipped

abbrev pub start_state : Bytes → ℕ → Unescape
start_state str count = record { unread = str; written = []; count = count }

abbrev pub finish : Unescape → ℤ × Option Bytes
finish s = (pos s.count, some s.written)

-- The return value, and the string afterwards. `none` is a NULL string.
unfoldable pub nl_unescape_string :
    Option Bytes → (include_zero : Bool) → Dequote → ℤ × Option Bytes
nl_unescape_string none include_zero mode = (negsuc 0, none)
nl_unescape_string (some str) include_zero no_dequote =
    finish (unescape_from include_zero false (start_state str 0))
nl_unescape_string (some str) include_zero dequote =
    if byte_at str 0 == quote
    then finish (unescape_from include_zero true (start_state (drop 1 str) 1))
    else finish (unescape_from include_zero false (start_state str 0))
nl_unescape_string (some str) include_zero if_quoted =
    if byte_at str 0 == quote
    then finish (unescape_from include_zero true (start_state (drop 1 str) 1))
    else (pos 0, some str)
