-- ===== src/Variant/Examples.antt =====
-- Runs of the functions of src/variant.c on concrete values. A float is a whole number here.
use nlutils.Prelude.{
  if◌then◌else◌, length, ltb, ◌≡◌, ◌⊎◌, refl, true, false, not, ◌||◌, none, some, [], ◌∷◌, ◌++◌,
  arith, length,
}
use nlutils.Prelude.Int.{ℤ, pos, negsuc, ltb_ℤ}
use nlutils.Ctype.{Bytes, codes, All, IsCString, isdigit}
use nlutils.Ctype.Signed.{int_max, print_int, IsInt}
use nlutils.Variant.Value.{integer, string, raw_data, FloatOps, Variant, variant, invalid_variant}
use nlutils.Variant.Compare.{nl_clamp_varvalue}
use nlutils.Variant.Memory.{Heap, nl_duplicate_variant, nl_destroy_variant}
use nlutils.Variant.Ownership.{IsDuplicate, nl_duplicate_variant-IsDuplicate}
use nlutils.Variant.Order.{less_value, nl_clamp_varvalue-bounds}
use nlutils.Variant.Text.{nl_display_variant, nl_fprint_variant, nl_variant_to_string}
use nlutils.Variant.Display.{nl_variant_to_string-display}
use nlutils.Variant.Read.{nl_string_to_varvalue, read_integer}
use nlutils.Variant.RoundTrip.{
  moved_to, nl_string_to_varvalue-string, nl_string_to_varvalue-integer,
}

abbrev whole : FloatOps ℤ
whole = record {
  less = ltb_ℤ;
  same = λ a b. not (ltb_ℤ a b || ltb_ℤ b a);
  zero_float = pos 0;
  infinity = pos 1000000;
  minus_infinity = negsuc 1000000;
  thousandth = pos 0;
  minus_thousandth = pos 0;
  thousand = pos 1000;
  minus_thousand = negsuc 999;
  print_e12 = λ a. print_int a;
  print_f15 = λ a. print_int a;
  print_f = λ a. print_int a;
  strtof = λ s. (pos (length s), false);
}

abbrev data_variant : Variant ℤ
data_variant = variant ℤ raw_data (some (64, record { size = 2; contents = some (80, codes "ab") }))

nl_duplicate_variant-IsDuplicate_example :
    let h : Heap = record { answers = some 96 ∷ some 112 ∷ []; live = 64 ∷ 80 ∷ [] } in
    (w : Variant ℤ) × (k m : Heap) × (nl_duplicate_variant ℤ data_variant h ≡ some (w, k))
    × (nl_destroy_variant ℤ w k ≡ some m)
    × (m.live ≡ h.live)
    × (((w ≡ invalid_variant ℤ) × (k.live ≡ h.live)) ⊎ IsDuplicate ℤ data_variant w)
nl_duplicate_variant-IsDuplicate_example =
    nl_duplicate_variant-IsDuplicate ℤ data_variant
      (record { answers = some 96 ∷ some 112 ∷ []; live = 64 ∷ 80 ∷ [] })

abbrev text_of : Bytes → Variant ℤ
text_of s = variant ℤ string (some (64, s))

less_irreflexive : (a : ℤ) → ltb_ℤ a a ≡ false
less_irreflexive a = ground arith

nl_clamp_varvalue-bounds_example :
    let r = nl_clamp_varvalue whole integer (pos 12) (negsuc 3) (pos 10) in
    (less_value whole integer r (negsuc 3) ≡ false)
    × (less_value whole integer (pos 10) r ≡ false)
    × (((less_value whole integer (pos 12) (negsuc 3) ≡ true) × (r ≡ negsuc 3))
        ⊎ ((less_value whole integer (pos 10) (pos 12) ≡ true) × (r ≡ pos 10))
        ⊎ (r ≡ pos 12))
nl_clamp_varvalue-bounds_example =
    nl_clamp_varvalue-bounds whole integer (pos 12) (negsuc 3) (pos 10) refl less_irreflexive

nl_variant_to_string-display_example : nl_variant_to_string whole true true true data_variant ≡ (
    if ltb (length (nl_display_variant whole data_variant)) int_max
    then some (nl_display_variant whole data_variant)
    else none)
nl_variant_to_string-display_example =
    nl_variant_to_string-display whole data_variant true true true

abbrev text : Bytes
text = b'a' ∷ 10 ∷ b':' ∷ b'\\' ∷ b'0' ∷ []

text-IsCString : IsCString text
text-IsCString = ground arith

nl_string_to_varvalue-string_example :
    nl_string_to_varvalue whole string
      (some 96)
      (some (
        (nl_fprint_variant whole true true true (variant ℤ string (some (64, text)))).1
        ++ codes "\nb"))
      (some none)
    ≡ (true, some (moved_to 96 (some (64, text))))
nl_string_to_varvalue-string_example =
    nl_string_to_varvalue-string whole (some (64, text)) none 96 (codes "\nb") text-IsCString refl

nl_string_to_varvalue-integer_example :
    nl_string_to_varvalue whole integer none
      (some (nl_fprint_variant whole true true true (variant ℤ integer (negsuc 1233))).1)
      (some (pos 0))
    ≡ (true, some (negsuc 1233))
nl_string_to_varvalue-integer_example =
    nl_string_to_varvalue-integer whole (negsuc 1233) (pos 0) none true true true (omega arith)

-- The bits above the lowest 32 are lost without an error, and a text without digits is 0.
overflow_test : read_integer (codes "4294967297") ≡ some (pos 1)
unfolding read_integer nlutils.Variant.Read.parse_integer isdigit nlutils.Variant.Read.strspn
    nlutils.Variant.Read.to_int nlutils.Ctype.Signed.strtol10 nlutils.Ctype.isspace
overflow_test = refl

sign_test : read_integer (codes " -") ≡ some (pos 0)
unfolding read_integer nlutils.Variant.Read.parse_integer isdigit nlutils.Variant.Read.strspn
    nlutils.Variant.Read.to_int nlutils.Ctype.Signed.strtol10 nlutils.Ctype.isspace
sign_test = refl

hex_test : read_integer (codes "0x1fz") ≡ some (pos 31)
unfolding read_integer nlutils.Variant.Read.parse_integer isdigit nlutils.Variant.Read.strspn
    nlutils.Variant.Read.to_int nlutils.Ctype.Signed.strtol16 nlutils.Ctype.isspace
hex_test = refl
