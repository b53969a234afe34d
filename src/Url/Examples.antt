-- ===== src/Url/Examples.antt =====
-- Runs of the functions of src/url.c on concrete strings.
use nlutils.Prelude.{◌+◌, ◌*◌, ◌≤◌, ◌≡◌, refl, true, false, some, [], inl, length, arith}
use nlutils.Ctype.{Bytes, codes, IsCString, All}
use nlutils.Url.Encode.{nl_url_encode, IsUrlChar, nl_url_encode-IsUrlChar}
use nlutils.Url.Decode.{nl_url_decode, decode_loop, decode_state, escapes, nl_url_decode-length}
use nlutils.Url.RoundTrip.{nl_url_decode-encode}

abbrev text : Bytes
text = codes "a b+c/100%"

text-IsCString : IsCString text
text-IsCString = ground arith

encode_test : nl_url_encode true (some text) false false ≡ some (codes "a+b%2bc%2f100%25")
unfolding nl_url_encode nlutils.Url.Encode.encode_loop nlutils.Url.Encode.encode_char
    nlutils.Url.Encode.nl_url_is_allowed nlutils.Ctype.isalnum nlutils.Url.Encode.nl_url_to_hex
    nlutils.Ctype.hex_digit
encode_test = refl

decode_test : nl_url_decode true (some (codes "%41%4g+%00%")) false ≡ some (codes "A%4g %00%")
unfolding nl_url_decode decode_loop nlutils.Prelude.Loop.while nlutils.Url.Decode.decode_step
    nlutils.Url.Decode.is_escape nlutils.Ctype.isxdigit nlutils.Url.Decode.nl_url_from_hex
decode_test = refl

nl_url_encode-IsUrlChar_example :
    (out : Bytes) × (nl_url_encode true (some text) false true ≡ some out)
    × (length out + 1 ≤ length text * 3 + 1)
    × All (IsUrlChar false true) out
nl_url_encode-IsUrlChar_example = nl_url_encode-IsUrlChar text false true

abbrev escaped_text : Bytes
escaped_text = codes "a%2Fb%00%4"

escaped_text-IsCString : IsCString escaped_text
escaped_text-IsCString = ground arith

-- Of the three percent signs only the first begins an escape.
nl_url_decode-length_example :
    ((decode_loop false (decode_state escaped_text [])).unread ≡ [])
    × ((out : Bytes) × (nl_url_decode true (some escaped_text) false ≡ some out)
        × (length out + 2 * 1 ≡ length escaped_text))
unfolding escapes nlutils.Ctype.isxdigit nlutils.Ctype.isdigit
nl_url_decode-length_example = nl_url_decode-length escaped_text false escaped_text-IsCString

nl_url_decode-encode_example :
    nl_url_decode true (nl_url_encode true (some text) false false) false ≡ some text
nl_url_decode-encode_example =
    nl_url_decode-encode text false false false (inl (refl, refl)) text-IsCString
