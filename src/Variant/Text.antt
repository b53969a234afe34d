-- ===== src/Variant/Text.antt =====
-- `nl_fprint_variant`, `nl_display_variant`, `nl_store_variant` and `nl_variant_to_string`. What is
-- printed is written whole.
use nlutils.Prelude.{
  ℕ, ◌+◌, ◌-◌, Bool, true, not, leb, ◌&&◌, ◌||◌, Option, none, some, [], ◌++◌, if◌then◌else◌,
  length, take,
}
use nlutils.Prelude.Int.{ℤ, pos, negsuc}
use nlutils.Ctype.{Bytes, codes}
use nlutils.Ctype.Signed.{decimal, hexadecimal8, print_int, int_max, int_of_long}
use nlutils.Escape.String.{nl_escape_string}
use nlutils.Variant.Value.{
  VarType, invalid, any, integer, float, string, raw_data, type_number, Pointer, RawData, FloatOps,
  VarValue, Variant,
}

-- The return value and what is printed.
abbrev pub printed : Bytes → ℤ × Bytes
printed s = (pos (length s), s)

unfoldable pub print_address : ℕ → Bytes
unfolding hexadecimal8
print_address a = codes "0x" ++ hexadecimal8 a

unfoldable pub print_data : Pointer RawData → Bytes
unfolding decimal
print_data none = codes "[NULL raw data]"
print_data (some (_, d)) = elim d.contents [
  | none ↦ codes "[NULL raw data of length " ++ decimal d.size ++ codes "]"
  | some _ ↦ codes "[Raw data of length " ++ decimal d.size ++ codes "]"
]

unfoldable pub print_unknown : VarType → Bytes
unfolding print_int
print_unknown t = codes "Unknown type " ++ print_int (type_number t)

-- `tmp` is printed if it is escaped.
abbrev pub print_escaped : Bool × Option Bytes × Option ℕ → ℤ × Bytes
print_escaped (true, some tmp, len) = printed tmp
print_escaped _ = (negsuc 0, [])

-- The answers of the allocator to `nl_strdup`, and in `nl_escape_string` to `realloc` and `nl_strdup`.
unfoldable pub print_string : (strdup_ok realloc_ok copy_ok : Bool) → Pointer Bytes → ℤ × Bytes
unfolding nl_escape_string
print_string strdup_ok realloc_ok copy_ok none = printed (codes "\\0")
print_string strdup_ok realloc_ok copy_ok (some (_, s)) =
    if strdup_ok
    then print_escaped (nl_escape_string realloc_ok copy_ok (some s) (some (length s)))
    else (negsuc 0, [])

-- `snprintf` into a buffer of a size: what is stored before the terminator, and the return value. It is negative if
-- printing fails, or if the length of the text is not an `int`.
abbrev pub snprintf : (ok : Bool) (size : ℕ) → Bytes → Bytes × ℤ
snprintf ok size text =
    if ok && leb (length text) int_max
    then (take (size - 1) text, pos (length text))
    else ([], negsuc 0)

-- The terminator is counted in the return value, an `int`, unless that is an error.
unfoldable pub with_terminator : Bytes × ℤ → Bytes × ℤ
with_terminator (s, pos n) = (s, int_of_long (pos (n + 1)))
with_terminator (s, negsuc n) = (s, negsuc n)

module _ {F : Type 0} (ops : FloatOps F) where
  abbrev pub in_exponent_form : F → Bool
  in_exponent_form x =
      (ops.less x ops.thousandth && ops.less ops.minus_thousandth x)
      || (ops.less x ops.minus_thousand || ops.same x ops.minus_thousand)
      || (ops.less ops.thousand x || ops.same x ops.thousand)

  unfoldable pub fprint_value :
      (strdup_ok realloc_ok copy_ok : Bool) (t : VarType) → VarValue F t → ℤ × Bytes
  unfolding print_address print_data print_string print_unknown print_int
  fprint_value a b c any x = printed (print_address x)
  fprint_value a b c integer x = printed (print_int x)
  fprint_value a b c float x =
      if in_exponent_form x then printed (ops.print_e12 x) else printed (ops.print_f15 x)
  fprint_value a b c string x = print_string a b c x
  fprint_value a b c raw_data x = printed (print_data x)
  fprint_value a b c invalid x = printed (print_unknown invalid)

  unfoldable pub nl_fprint_variant : (strdup_ok realloc_ok copy_ok : Bool) → Variant F → ℤ × Bytes
  unfolding fprint_value
  nl_fprint_variant a b c v = fprint_value a b c v.type v.value

  unfoldable pub display_value : (t : VarType) → VarValue F t → Bytes
  unfolding print_address print_data print_unknown print_int
  display_value any x = print_address x
  display_value integer x = print_int x
  display_value float x = ops.print_f x
  display_value string none = codes "(null)"
  display_value string (some (_, s)) = s
  display_value raw_data x = print_data x
  display_value invalid x = print_unknown invalid

  -- What is printed.
  unfoldable pub nl_display_variant : Variant F → Bytes
  unfolding display_value
  nl_display_variant v = display_value v.type v.value

  unfoldable pub store_value : (ok : Bool) (length : ℕ) (t : VarType) → VarValue F t → Bytes × ℤ
  unfolding print_address print_data print_unknown print_int
  store_value ok length any x = snprintf ok length (print_address x)
  store_value ok length integer x = snprintf ok length (print_int x)
  store_value ok length float x = snprintf ok length (ops.print_f x)
  store_value ok length string none = snprintf ok length (codes "(null)")
  store_value ok length string (some (_, s)) = snprintf ok length s
  store_value ok length raw_data x = snprintf ok length (print_data x)
  store_value ok length invalid x = snprintf ok length (print_unknown invalid)

  -- What is stored in a buffer of `length` bytes, and the return value.
  unfoldable pub nl_store_variant : (ok : Bool) (length : ℕ) → Variant F → Bytes × ℤ
  unfolding store_value
  nl_store_variant ok length v = with_terminator (store_value ok length v.type v.value)

  -- The answers of the allocator and of the two calls of `snprintf`.
  unfoldable pub nl_variant_to_string :
      (malloc_ok first_ok second_ok : Bool) → Variant F → Option Bytes
  nl_variant_to_string malloc_ok first_ok second_ok v = elim (nl_store_variant first_ok 0 v).1 [
    | negsuc n ↦ none
    | pos length ↦ if not malloc_ok then none else elim (nl_store_variant second_ok length v).1 [
      | negsuc n ↦ none
      | pos n ↦ some (nl_store_variant second_ok length v).0
    ]
  ]
