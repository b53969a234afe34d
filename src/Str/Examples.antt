-- ===== src/Str/Examples.antt =====
-- Runs of the functions of src/str.c on concrete strings.
use nlutils.Prelude.{none, ◌≡◌, refl, true, false, some, List, [], ◌∷◌, ◌++◌, arith}
use nlutils.Prelude.Int.{pos}
use nlutils.Ctype.{Bytes, codes, IsCString, IsByte, All}
use nlutils.Str.Copy.{nl_strdup, nl_strndup_term}
use nlutils.Str.Search.{nl_strnpbrk, nl_strcount}
use nlutils.Str.Hex.{
  nl_to_hex, nl_from_hex, nl_keep_only_hex, IsLowerHex, from_hex-to_hex,
  nl_keep_only_hex-IsLowerHex, nl_keep_only_hex-to_hex,
}
use nlutils.Str.Lines.{Callback, nl_split_lines, lines_from, feed}
use nlutils.Str.Lines.Reference.{nl_split_lines-feed}

abbrev text : Bytes
text = codes "abcabc"

abbrev end : Bytes
end = codes "abc"

text-IsCString : IsCString text
text-IsCString = ground arith

end-IsCString : IsCString end
end-IsCString = ground arith

abbrev bytes : Bytes
bytes = 0 ∷ 255 ∷ 16 ∷ []

bytes-IsByte : All IsByte bytes
bytes-IsByte = ground arith

strnpbrk_test : nl_strnpbrk text (codes "xc") 6 ≡ some 2
unfolding nl_strnpbrk
strnpbrk_test = refl

strcount_test : nl_strcount text b'b' ≡ 2
unfolding nl_strcount
strcount_test = refl

to_hex_test : nl_to_hex bytes ≡ codes "00ff10"
unfolding nl_to_hex nlutils.Str.Hex.to_hex_loop nlutils.Ctype.hex_digit
to_hex_test = refl

from_hex-to_hex_example : nl_from_hex (some (nl_to_hex bytes)) true ≡ (pos 3, bytes)
from_hex-to_hex_example = from_hex-to_hex bytes bytes-IsByte

-- The callback collects the lines, and stops at an empty one.
abbrev collect : Callback (List Bytes)
collect [] s = (true, s)
collect (c ∷ l) s = (false, s ++ (c ∷ l) ∷ [])

abbrev lines : Bytes
lines = codes "a" ++ 13 ∷ 10 ∷ codes "bc" ++ 10 ∷ 10 ∷ codes "d"

split_test : nl_split_lines (some lines) (some collect) [] ≡ (pos 3, codes "a" ∷ codes "bc" ∷ [])
unfolding nl_split_lines nlutils.Str.Lines.last_line nlutils.Str.Lines.split_loop
split_test = refl

nl_split_lines-feed_example :
    nl_split_lines (some lines) (some collect) [] ≡ feed collect (lines_from [] lines) 0 []
nl_split_lines-feed_example = nl_split_lines-feed lines collect []

copy_test :
    nl_strndup_term (some (7 ∷ 7 ∷ 7 ∷ [])) (codes "abc") 2 ≡ some (some (codes "ab" ++ 0 ∷ []))
unfolding nl_strndup_term nlutils.Str.Copy.nl_strncpy_term nlutils.Str.Copy.memcpy
    nlutils.Str.Copy.terminate
copy_test = refl

null_copy_test : nl_strdup (some (7 ∷ [])) none ≡ some (some (0 ∷ []))
unfolding nl_strdup nlutils.Str.Copy.terminate
null_copy_test = refl
