-- ===== src/Variant/Read.antt =====
-- `nl_string_to_varvalue`.
use Prim.Native.Nat.{max}
use nlutils.Prelude.{
  ℕ, suc, ◌+◌, Bool, true, false, not, ◌&&◌, ◌||◌, Option, none, some, [], ◌∷◌, ◌==◌, if◌then◌else◌,
  take, drop, map,
}
use nlutils.Prelude.Int.{ℤ, pos, pos_part, neg_part}
use nlutils.Ctype.{Bytes, codes, byte_at, isdigit, tolower}
use nlutils.Ctype.Signed.{strtol10, strtol16, int_of_long}
use nlutils.Str.Compare.{strcmp, strncmp}
use nlutils.Escape.Unescape.{no_dequote, nl_unescape_string}
use nlutils.Variant.Value.{VarType, integer, float, string, Pointer, FloatOps, VarValue}

abbrev pub member : Bytes → ℕ → Bool
member [] c = false
member (d ∷ s) c = d == c || member s c

-- How many characters in front are of the set, and how many are not.
unfoldable pub strspn : Bytes → (accept : Bytes) → ℕ
strspn [] accept = 0
strspn (c ∷ s) accept = if member accept c then suc (strspn s accept) else 0

unfoldable pub strcspn : Bytes → (reject : Bytes) → ℕ
strcspn [] reject = 0
strcspn (c ∷ s) reject = if member reject c then 0 else suc (strcspn s reject)

unfoldable pub strcasecmp : Bytes → Bytes → ℤ
unfolding strcmp tolower
strcasecmp s t = strcmp (map tolower s) (map tolower t)

abbrev pub is_zero : ℤ → Bool
is_zero a = pos_part a + neg_part a == 0

-- `" \t\v\f"`
abbrev pub blanks : Bytes
blanks = 32 ∷ 9 ∷ 11 ∷ 12 ∷ []

abbrev pub line_ends : Bytes
line_ends = 13 ∷ 10 ∷ []

abbrev pub null_text : Bytes
null_text = codes "\\0"

-- `none` is an error.
abbrev pub checked {ℓ} : {A : Type ℓ} → A × Bool → Option A
checked (x, true) = none
checked (x, false) = some x

unfoldable pub to_int : Option ℤ → Option ℤ
unfolding int_of_long
to_int none = none
to_int (some a) = some (int_of_long a)

-- Behind the blanks.
unfoldable pub parse_integer : Bytes → Option ℤ
parse_integer str =
    let c = byte_at str 0 in
    if not (isdigit c) && not (c == b'-') && not (c == b'+')
    then if is_zero (strcasecmp str (codes "true"))
      then some (pos 1)
      else if is_zero (strcasecmp str (codes "false"))
      then some (pos 0)
      else none
    else if c == b'0' && byte_at str 1 == b'x'
    then to_int (checked (strtol16 (drop 2 str)))
    else to_int (checked (strtol10 str))

unfoldable pub read_integer : Bytes → Option ℤ
read_integer s = parse_integer (drop (strspn s blanks) s)

abbrev pub unescaped : ℕ → ℤ × Option Bytes → Option (Pointer Bytes)
unescaped a (pos n, some s) = some (some (a, s))
unescaped a _ = none

-- The address of the new string, or the failure of the allocation.
unfoldable pub new_string : Option ℕ → Bytes → Option (Pointer Bytes)
unfolding nl_unescape_string
new_string none s = none
new_string (some a) s = unescaped a (nl_unescape_string (some s) false no_dequote)

unfoldable pub read_string : Option ℕ → Bytes → Option (Pointer Bytes)
unfolding strcspn strncmp new_string
read_string answer str =
    let len = strcspn str line_ends in
    if is_zero (strncmp str null_text (max 2 len))
    then some none
    else new_string answer (take len str)

module _ {F : Type 0} (ops : FloatOps F) where
  -- `tmp`, or an error.
  unfoldable pub read_value : (t : VarType) → Option ℕ → Bytes → Option (VarValue F t)
  unfolding read_integer read_string strspn
  read_value integer answer s = read_integer s
  read_value float answer s = checked (ops.strtof (drop (strspn s blanks) s))
  read_value string answer s = read_string answer s
  read_value t answer s = none

  abbrev pub stored {ℓ} : {A : Type ℓ} → (result : A) → Option A → Bool × Option A
  stored result none = (false, some result)
  stored result (some x) = (true, some x)

  -- Whether 0 is returned, and `*result`. `none` is NULL.
  unfoldable pub nl_string_to_varvalue :
      (t : VarType)
      → (answer : Option ℕ) → (str : Option Bytes) → (result : Option (VarValue F t))
      → Bool × Option (VarValue F t)
  unfolding read_value
  nl_string_to_varvalue t answer none result = (false, result)
  nl_string_to_varvalue t answer (some str) none = (false, none)
  nl_string_to_varvalue t answer (some str) (some result) = stored result (read_value t answer str)
