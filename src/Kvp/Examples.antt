-- ===== src/Kvp/Examples.antt =====
-- Runs of `nl_parse_kvp` of src/kvp.c.
use nlutils.Prelude.{ℕ, ◌+◌, ◌≤◌, ◌≡◌, refl, Bool, true, false, some, List, [], ◌∷◌, length}
use nlutils.Ctype.{Bytes, codes}
use nlutils.Kvp.Parse.{Pair, nl_parse_kvp, kvp_loop, last_pair, has_char}
use nlutils.Prelude.{◌↔◌, arith}
use nlutils.Kvp.Typed.{send_int, send_float, send_string, send_hex, kind_of, nl_kvp_wrapper}
use nlutils.Kvp.Decimal.{IsDecimal, kind_of-IsDecimal}
use nlutils.Ctype.{All}
use nlutils.Kvp.Entry.{Entry, word, quoted, IsEntry, line_of, pairs_of}
use nlutils.Kvp.Pairs.{nl_parse_kvp-pairs_of}
use nlutils.Kvp.Spans.{Within, kvp_loop-Within}

abbrev line : Bytes
line = codes "a=b =x \"c\"=\"d\\\" e\" f=g=h"

abbrev pair : Bytes → Bytes → Bool → Pair
pair key value is_quoted = record { key = key; value = value; quoted_value = is_quoted }

parse_test :
    nl_parse_kvp (some line) true (λ i. true)
    ≡ pair (codes "a") (codes "b") false
      ∷ pair (codes "c") (codes "d\" e") true
      ∷ pair (codes "f") (codes "g=h") false
      ∷ []
unfolding nl_parse_kvp nlutils.Kvp.Parse.kvp_loop nlutils.Kvp.Parse.kvp_step
    nlutils.Kvp.Parse.last_pair nlutils.Kvp.Parse.send_all nlutils.Kvp.Parse.send_pair
    nlutils.Prelude.Loop.while nlutils.Ctype.isspace nlutils.Escape.Unescape.nl_unescape_string
    nlutils.Escape.Unescape.unescape_from nlutils.Escape.Unescape.unescape_step
    nlutils.Escape.Unescape.skip_step nlutils.Escape.Unescape.escape_step
    nlutils.Escape.Table.get_original
parse_test = refl

kvp_loop-Within_example :
    (has_char line (kvp_loop line) ≡ false)
    × ((kvp_loop line).off ≤ length line)
    × Within (length line) (last_pair (kvp_loop line)).sent
kvp_loop-Within_example = kvp_loop-Within line

kind_of-IsDecimal_example : (kind_of (codes "-12") ≡ send_int) ↔ IsDecimal (codes "-12")
kind_of-IsDecimal_example = kind_of-IsDecimal (codes "-12")

float_test : kind_of (codes "-1.5e+3") ≡ send_float
unfolding kind_of nlutils.Str.Compare.strcmp nlutils.Ctype.isdigit nlutils.Kvp.Typed.scan_number
float_test = refl

-- A sign and a period without a digit are sent as a number.
no_digit_test : kind_of (codes "+.") ≡ send_float
unfolding kind_of nlutils.Str.Compare.strcmp nlutils.Ctype.isdigit nlutils.Kvp.Typed.scan_number
no_digit_test = refl

two_periods_test : kind_of (codes "1.2.3") ≡ send_string
unfolding kind_of nlutils.Str.Compare.strcmp nlutils.Ctype.isdigit nlutils.Kvp.Typed.scan_number
two_periods_test = refl

hex_test : kind_of (codes "0x1f") ≡ send_hex
unfolding kind_of nlutils.Str.Compare.strcmp nlutils.Ctype.isdigit nlutils.Kvp.Typed.all_hex
    nlutils.Ctype.isxdigit
hex_test = refl

abbrev entries : List Entry
entries =
    record { key_head = b'a'; key_tail = codes "b"; value = word b'1' (codes "=2") }
    ∷ record { key_head = b'c'; key_tail = []; value = quoted (codes "d\"\\ e") }
    ∷ record { key_head = b'f'; key_tail = []; value = word b'g' [] }
    ∷ []

entries-IsEntry : All IsEntry entries
unfolding nlutils.Ctype.isspace
entries-IsEntry = ground arith

nl_parse_kvp-pairs_of_example :
    nl_parse_kvp (some (line_of entries)) true (λ i. true) ≡ pairs_of entries
nl_parse_kvp-pairs_of_example = nl_parse_kvp-pairs_of entries entries-IsEntry

-- An escaped backslash hides the end of a value that another pair follows.
backslash_test :
    nl_parse_kvp (some (codes "a=\"b\\\\\" c=\"d\"")) true (λ i. true)
    ≡ pair (codes "a") (codes "b\\\" c=") true ∷ []
unfolding nl_parse_kvp nlutils.Kvp.Parse.kvp_loop nlutils.Kvp.Parse.kvp_step
    nlutils.Kvp.Parse.last_pair nlutils.Kvp.Parse.send_all nlutils.Kvp.Parse.send_pair
    nlutils.Prelude.Loop.while nlutils.Ctype.isspace nlutils.Escape.Unescape.nl_unescape_string
    nlutils.Escape.Unescape.unescape_from nlutils.Escape.Unescape.unescape_step
    nlutils.Escape.Unescape.skip_step nlutils.Escape.Unescape.escape_step
    nlutils.Escape.Table.get_original
backslash_test = refl
