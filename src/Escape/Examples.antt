-- ===== src/Escape/Examples.antt =====
-- Runs of the functions of src/escape.c on concrete strings and data.
use nlutils.Prelude.{
  ℕ, ◌+◌, ◌≡◌, ◌≢◌, refl, Bool, true, false, Option, some, none, [], ◌∷◌, ◌++◌, length, arith,
  get_or,
}
use nlutils.Prelude.Int.{pos}
use nlutils.Ctype.{Bytes, codes, IsCString, IsByte, All}
use nlutils.Escape.String.{nl_count_escapes, nl_escape_string}
use nlutils.Escape.Unescape.{
  Unescape, no_dequote, dequote, if_quoted, quote, nl_unescape_string, unescape_from,
}
use nlutils.Escape.Count.{nl_unescape_string-length}
use nlutils.Escape.RoundTrip.{escaped, unescape-escape, unescape-quoted}
use nlutils.Escape.Data.{Mem, DataBuffer, DataArgs, args_of, nl_escape_data, nl_count_data_escapes}
use nlutils.Escape.Data.Spec.{prefix, escaped_data}
use nlutils.Escape.Data.InPlace.{nl_escape_data-escaped}
use nlutils.Escape.Data.RoundTrip.{unescape-escape_data}

-- A tab, a colon, a backslash and a quotation mark between letters.
abbrev text : Bytes
text = b'a' ∷ 9 ∷ b':' ∷ b'\\' ∷ b'"' ∷ b'z' ∷ []

text-IsCString : IsCString text
text-IsCString = ground arith

escape_test :
    nl_escape_string true true (some text) (some 3)
    ≡ (true, some (codes "a\\t\\:\\\\\\\"z"), some 11)
unfolding nl_escape_string nlutils.Escape.Table.get_escape
escape_test = refl

-- `\x41`, `\x00`, a wrong escape, and an escape character at the end.
unescape_test :
    nl_unescape_string (some (codes "\\x41\\x00\\q\\t\\")) false no_dequote
    ≡ (pos 8, some (b'A' ∷ b'\\' ∷ b'q' ∷ 9 ∷ b'\\' ∷ []))
unfolding nl_unescape_string unescape_from nlutils.Ctype.isxdigit nlutils.Ctype.strtoul16
    nlutils.Escape.Table.get_original
unescape_test = refl

dequote_test :
    nl_unescape_string (some (codes "\"a\"b\"")) false if_quoted ≡ (pos 2, some (codes "a\"b"))
unfolding nl_unescape_string unescape_from
dequote_test = refl

unescape-escape_example :
    nl_unescape_string (nl_escape_string true true (some text) (some 3)).1 false no_dequote
    ≡ (pos (nl_count_escapes text), some text)
unescape-escape_example = unescape-escape text 3 false text-IsCString

if_quoted_ne : if_quoted ≢ no_dequote
if_quoted_ne e = cc

unescape-quoted_example :
    nl_unescape_string (some (quote ∷ escaped text ++ quote ∷ [])) false if_quoted
    ≡ (pos (nl_count_escapes text + 2), some text)
unescape-quoted_example = unescape-quoted text false if_quoted text-IsCString if_quoted_ne

nl_unescape_string-length_example :
    (k : ℕ) × (out : Bytes) × (nl_unescape_string (some text) false dequote ≡ (pos k, some out))
    × (length out + k ≡ 6)
nl_unescape_string-length_example = nl_unescape_string-length text false dequote text-IsCString

abbrev at_start : Unescape
at_start = record { unread = text; written = []; count = 0 }

-- Four bytes of data, two of them unprintable, in a buffer of five.
abbrev mem : Mem
mem i = get_or (b'a' ∷ 0 ∷ 10 ∷ 200 ∷ []) i 0

abbrev buffer : DataBuffer
buffer = record { mem = mem; data_size = 4; buf_size = 5 }

data-IsByte : All IsByte (prefix mem 4)
unfolding prefix
data-IsByte = (omega arith, (omega arith, (omega arith, (omega arith, tt))))

nl_escape_data-escaped_example :
    (mem' : Mem) × (nl_escape_data true false true (args_of buffer)
      ≡ some (true, args_of (record { mem = mem'; data_size = 12; buf_size = 12 })))
    × (prefix mem' 12 ≡ escaped_data (prefix mem 4) ++ 0 ∷ [])
unfolding escaped_data prefix nlutils.Escape.Data.Spec.hide nlutils.Escape.Data.in_table
    nlutils.Escape.Table.get_escape nlutils.Escape.Data.unprintable
nl_escape_data-escaped_example = nl_escape_data-escaped true buffer (omega arith)

abbrev get_or_mem : Option Mem → Mem
get_or_mem (some m) = m
get_or_mem none = mem

abbrev memory : Option (Bool × DataArgs) → Mem
memory (some (_, a)) = get_or_mem a.data_at
memory none = mem

abbrev after : DataBuffer
after = record {
  mem = memory (nl_escape_data true false true (args_of buffer));
  data_size = 12;
  buf_size = 12;
}

escape_data_test : prefix after.mem 12 ≡ codes "a\\x00\\n\\xc8" ++ 0 ∷ []
unfolding prefix nl_escape_data nlutils.Escape.Data.escape_buffer nl_count_data_escapes
    nlutils.Escape.Data.in_table nlutils.Escape.Table.get_escape nlutils.Escape.Data.unprintable
    nlutils.Escape.Data.fill nlutils.Escape.Data.poke nlutils.Escape.Data.escape_data_loop
    nlutils.Escape.Data.emit nlutils.Ctype.hex_digit
escape_data_test = refl

after-run : nl_escape_data true false true (args_of buffer) ≡ some (true, args_of after)
unfolding nl_escape_data nlutils.Escape.Data.escape_buffer nl_count_data_escapes
    nlutils.Escape.Data.in_table nlutils.Escape.Table.get_escape nlutils.Escape.Data.unprintable
    nlutils.Escape.Data.fill nlutils.Escape.Data.poke nlutils.Escape.Data.escape_data_loop
    nlutils.Escape.Data.emit
after-run = refl

unescape-escape_data_example :
    nl_unescape_string (some (prefix after.mem 11)) true no_dequote
    ≡ (pos (nl_count_data_escapes mem 4), some (prefix mem 4))
unescape-escape_data_example = unescape-escape_data buffer after (omega arith) data-IsByte after-run
