-- ===== src/Variant/RoundTrip.antt =====
-- What `nl_fprint_variant` prints is read back by `nl_string_to_varvalue`.
use Prim.Native.Nat.{max}
use nlutils.Prelude.{
  if_same, ℕ, suc, ◌-◌, ◌≡◌, refl, sym, ap, ◌∙◌, Bool, true, false, not, ◌&&◌, ◌||◌, Option, none,
  some, [], ◌∷◌, ◌++◌, ◌==◌, length, take-append, arith, Bool-cases, inl, inr,
}
use nlutils.Prelude.Int.{ℤ, pos, negsuc, sub_ℕ}
use nlutils.Ctype.{Bytes, byte_at, isdigit, IsCString}
use nlutils.Ctype.Signed.{
  IsInt, IsDigits, print_int, decimal, decimal_head, decimal_lem, strtol10, strtol10-print_int,
  int_of_long-IsInt,
}
use nlutils.Str.Compare.{strncmp}
use nlutils.Escape.Table.{escape_char, get_escape, escape_char-get_escape}
use nlutils.Escape.String.{nl_count_escapes}
use nlutils.Escape.Unescape.{no_dequote, nl_unescape_string}
use nlutils.Escape.RoundTrip.{escaped, nl_escape_string-escaped, unescape-escape}
use nlutils.Variant.Value.{integer, string, Pointer, FloatOps, variant}
use nlutils.Variant.Text.{nl_fprint_variant, print_string}
use nlutils.Variant.Read.{
  line_ends, member, null_text, blanks, strspn, strcspn, is_zero, unescaped, new_string,
  read_string, parse_integer, read_integer, to_int, checked, read_value, nl_string_to_varvalue,
}

-- What may stand behind the text.
abbrev pub IsLineEnd : Bytes → Type 0
IsLineEnd [] = Unit
IsLineEnd (c ∷ s) = member line_ends c ≡ true

strcspn_end : (rest : Bytes) → IsLineEnd rest → strcspn rest line_ends ≡ 0
unfolding strcspn
strcspn_end [] h = refl
strcspn_end (c ∷ s) h = rw h refl

-- Line ends are escaped, and no replacement is one.
no_line_end : (c : ℕ) → get_escape c ≡ 0 → member line_ends c ≡ false
unfolding get_escape
no_line_end c h = ground arith

replacement_lem :
    (c : ℕ) → (member line_ends (get_escape c) ≡ false) × ((get_escape c == b'0') ≡ false)
unfolding get_escape
replacement_lem c = ground arith

strcspn-escaped :
    (s rest : Bytes) → IsLineEnd rest → strcspn (escaped s ++ rest) line_ends ≡ length (escaped s)
unfolding strcspn escaped
strcspn-escaped [] rest h = strcspn_end rest h
strcspn-escaped (c ∷ s) rest h = elim (Bool-cases (get_escape c == 0)) [
  | inl e ↦
      let f = no_line_end c (ground (arith, e)) in
      rw (e, escaped) (rw f (ap suc (strcspn-escaped s rest h)))
  | inr e ↦
      let (f, _) = replacement_lem c in
      rw (e, escaped) (rw f (ap (λ n. suc (suc n)) (strcspn-escaped s rest h)))
]

zero_sub : (a b : ℕ) → (a == b) ≡ false → is_zero (sub_ℕ a b) ≡ false
zero_sub a b h = ground arith

two_more : (n : ℕ) → max 2 n ≡ suc (suc (n - 2))
two_more n = omega arith

-- An escaped string is not the text that stands for NULL.
escaped-null_text :
    (s rest : Bytes) (n : ℕ)
    → IsLineEnd rest
    → is_zero (strncmp (escaped s ++ rest) null_text (suc (suc n))) ≡ false
unfolding strncmp escaped
escaped-null_text [] [] n h = refl
escaped-null_text [] (c ∷ rest) n h = ground arith
escaped-null_text (c ∷ s) rest n h = elim (Bool-cases (get_escape c == 0)) [
  | inl e ↦
      let f : (c == escape_char) ≡ false = ground (arith, escape_char-get_escape c, e) in
      rw (e, escaped) (rw f (zero_sub c escape_char f))
  | inr e ↦
      let (_, f) = replacement_lem c in rw (e, escaped) (rw f (zero_sub (get_escape c) b'0' f))
]

unescape-escaped :
    (s : Bytes)
    → IsCString s
    → nl_unescape_string (some (escaped s)) false no_dequote ≡ (pos (nl_count_escapes s), some s)
unescape-escaped s v =
    ap (λ r. nl_unescape_string (r.1) false no_dequote) (sym (nl_escape_string-escaped s 0))
    ∙ unescape-escape s 0 false v

new_string-escaped :
    (a : ℕ) (s : Bytes) → IsCString s → new_string (some a) (escaped s) ≡ some (some (a, s))
unfolding new_string
new_string-escaped a s v = ap (unescaped a) (unescape-escaped s v)

read_string-escaped :
    (a : ℕ) (s rest : Bytes)
    → IsCString s
    → IsLineEnd rest
    → read_string (some a) (escaped s ++ rest) ≡ some (some (a, s))
unfolding read_string
read_string-escaped a s rest v h =
    rw
      (
        strcspn-escaped s rest h,
        two_more,
        escaped-null_text s rest,
        take-append,
        new_string-escaped a s v,
      )
      refl

null-read_string :
    (answer : Option ℕ) (rest : Bytes)
    → IsLineEnd rest
    → read_string answer (null_text ++ rest) ≡ some none
unfolding read_string strcspn strncmp
null-read_string answer rest h = rw (strcspn_end rest h) refl

signed : (a b c : Bool) → (a || b) ≡ true → (not a && not b && not c) ≡ false
signed a b c h = ground arith

digit-member : (c : ℕ) → isdigit c ≡ true → member blanks c ≡ false
unfolding isdigit
digit-member c h = ground arith

-- A text with a digit or a minus in front, and no prefix.
parse_integer-decimal :
    (s : Bytes)
    → (isdigit (byte_at s 0) || byte_at s 0 == b'-') ≡ true
    → (byte_at s 1 == b'x') ≡ false
    → parse_integer s ≡ to_int (checked (strtol10 s))
unfolding parse_integer
parse_integer-decimal s first second =
    let c = byte_at s 0 in
    let e : (not (isdigit c) && not (c == b'-') && not (c == b'+')) ≡ false =
      signed (isdigit c) (c == b'-') (c == b'+') first in
    rw (e, second) (if_same (c == b'0') _ _)

digit_x : (d : ℕ) → isdigit d ≡ true → (d == b'x') ≡ false
unfolding isdigit
digit_x d h = ground arith

second_digit : (s : Bytes) → IsDigits s → (byte_at s 1 == b'x') ≡ false
second_digit [] h = refl
second_digit (c ∷ []) h = refl
second_digit (c ∷ d ∷ s) h = digit_x d h.1.0

first_digit : (n : ℕ) → (byte_at (decimal n) 0 == b'x') ≡ false
first_digit n = let (c, t, e, d) = decimal_head n in rw e (digit_x c d)

parse_integer-print_int :
    (n : ℤ) → parse_integer (print_int n) ≡ to_int (checked (strtol10 (print_int n)))
unfolding print_int isdigit
parse_integer-print_int (pos n) =
    let (c, t, e, d) = decimal_head n in
    parse_integer-decimal (decimal n) (rw (e, d) refl) (second_digit (decimal n) (decimal_lem n).0)
parse_integer-print_int (negsuc n) =
    parse_integer-decimal (b'-' ∷ decimal (suc n)) refl (first_digit (suc n))

no_blanks : (n : ℤ) → strspn (print_int n) blanks ≡ 0
unfolding strspn print_int
no_blanks (pos n) = let (c, t, e, d) = decimal_head n in rw (e, digit-member c d) refl
no_blanks (negsuc n) = refl

read_integer-print_int : (n : ℤ) → IsInt n → read_integer (print_int n) ≡ some n
unfolding read_integer to_int
read_integer-print_int n h =
    rw (no_blanks n, parse_integer-print_int n, strtol10-print_int n h)
      (ap some (int_of_long-IsInt n h))

-- What is there when the text has been read, with an address for the new string.
abbrev pub IsText : Pointer Bytes → Type 0
IsText none = Unit
IsText (some (_, s)) = IsCString s

abbrev pub moved_to : ℕ → Pointer Bytes → Pointer Bytes
moved_to a none = none
moved_to a (some (_, s)) = some (a, s)

module _ {F : Type 0} (ops : FloatOps F) where
  string-read :
      (p : Pointer Bytes) (a : ℕ) (rest : Bytes)
      → IsText p
      → IsLineEnd rest
      → read_string (some a) ((print_string true true true p).1 ++ rest) ≡ some (moved_to a p)
  unfolding print_string
  string-read none a rest v h = null-read_string (some a) rest h
  string-read (some (b, s)) a rest v h =
      rw (nl_escape_string-escaped s (length s)) (read_string-escaped a s rest v h)

  -- For every string, or NULL: what `nl_fprint_variant` prints, at the end of a text or before the end of a
  -- line, is read by `nl_string_to_varvalue` as a new string with the same contents, or as NULL. The
  -- string holds no zero byte, and no allocation fails.
  pub nl_string_to_varvalue-string :
      (p old : Pointer Bytes) (a : ℕ) (rest : Bytes)
      → IsText p
      → IsLineEnd rest
      → nl_string_to_varvalue ops string
          (some a)
          (some ((nl_fprint_variant ops true true true (variant F string p)).1 ++ rest))
          (some old)
        ≡ (true, some (moved_to a p))
  unfolding nl_string_to_varvalue read_value nl_fprint_variant nlutils.Variant.Text.fprint_value
  nl_string_to_varvalue-string p old a rest v h = rw (string-read p a rest v h) refl

  -- What `nl_fprint_variant` prints for an `int` is read back by `nl_string_to_varvalue`.
  pub nl_string_to_varvalue-integer :
      (n old : ℤ) (answer : Option ℕ) (b c d : Bool)
      → IsInt n
      → nl_string_to_varvalue ops integer answer
          (some (nl_fprint_variant ops b c d (variant F integer n)).1)
          (some old)
        ≡ (true, some n)
  unfolding nl_string_to_varvalue read_value nl_fprint_variant nlutils.Variant.Text.fprint_value
  nl_string_to_varvalue-integer n old answer b c d h = rw (read_integer-print_int n h) refl
