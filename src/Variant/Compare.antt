-- ===== src/Variant/Compare.antt =====
-- `nl_vartype_range`, `nl_clamp_varvalue`, `nl_compare_varvalues` and `nl_compare_variants`.
use nlutils.Prelude.{
  ℕ, ◌+◌, ◌-◌, ◌%◌, Bool, true, false, ◌&&◌, Option, none, some, ◌==◌, if◌then◌else◌,
}
use nlutils.Prelude.Int.{ℤ, pos, negsuc, ◌-ℤ◌, ltb_ℤ}
use nlutils.Ctype.{Bytes}
use nlutils.Ctype.Signed.{int_max, int_of_long}
use nlutils.Str.Compare.{strcmp}
use nlutils.Variant.Value.{
  VarType, invalid, any, integer, float, string, raw_data, type_number, Pointer, RawData, FloatOps,
  VarValue, Variant,
}

-- `*p = x` if the pointer is not NULL.
abbrev pub store {ℓ} : {A : Type ℓ} → A → Option A → Option A
store x none = none
store x (some _) = some x

abbrev pub from_bool : Bool → ℤ
from_bool true = pos 1
from_bool false = pos 0

abbrev pub same_pointer : {A : Type 0} → Pointer A → Pointer A → Bool
same_pointer none none = true
same_pointer (some (a, _)) (some (b, _)) = a == b
same_pointer _ _ = false

abbrev pub size_mod : ℕ
size_mod = 18446744073709551616

-- A difference of two `size_t`, returned as an `int`.
unfoldable pub size_difference : ℕ → ℕ → ℤ
size_difference m n = int_of_long (pos ((m + (size_mod - n)) % size_mod))

unfoldable pub compare_contents : (d e : RawData) → Pointer Bytes → Pointer Bytes → ℤ
unfolding size_difference
compare_contents d e none q = negsuc 0
compare_contents d e (some x) none = pos 1
compare_contents d e (some x) (some y) = size_difference d.size e.size

unfoldable pub compare_data : Pointer RawData → Pointer RawData → ℤ
unfolding compare_contents
compare_data none none = pos 0
compare_data none (some _) = negsuc 0
compare_data (some _) none = pos 1
compare_data (some (a, d)) (some (b, e)) =
    if a == b
    then pos 0
    else if same_pointer d.contents e.contents && d.size == e.size
    then pos 0
    else compare_contents d e d.contents e.contents

unfoldable pub compare_strings : Pointer Bytes → Pointer Bytes → ℤ
compare_strings none none = pos 0
compare_strings none (some _) = negsuc 0
compare_strings (some _) none = pos 1
compare_strings (some (a, s)) (some (b, t)) = if a == b then pos 0 else strcmp s t

module _ {F : Type 0} (ops : FloatOps F) where
  -- The pointers to the three values may be NULL.
  unfoldable pub nl_vartype_range :
      (t : VarType)
      → (min max def : Option (VarValue F t))
      → Option (VarValue F t) × Option (VarValue F t) × Option (VarValue F t)
  nl_vartype_range integer min max def =
      (store (negsuc int_max) min, store (pos int_max) max, store (pos 0) def)
  nl_vartype_range float min max def =
      (store ops.minus_infinity min, store ops.infinity max, store ops.zero_float def)
  nl_vartype_range t min max def = (min, max, def)

  unfoldable pub nl_clamp_varvalue : (t : VarType) → (value min max : VarValue F t) → VarValue F t
  nl_clamp_varvalue integer value min max =
      if ltb_ℤ value min then min else if ltb_ℤ max value then max else value
  nl_clamp_varvalue float value min max =
      if ops.less value min then min else if ops.less max value then max else value
  nl_clamp_varvalue t value min max = value

  unfoldable pub nl_compare_varvalues : (t : VarType) → (val1 val2 : VarValue F t) → ℤ
  unfolding compare_data compare_strings
  nl_compare_varvalues integer val1 val2 =
      from_bool (ltb_ℤ val2 val1) -ℤ from_bool (ltb_ℤ val1 val2)
  nl_compare_varvalues float val1 val2 =
      if ops.less val2 val1 then pos 1 else if ops.same val1 val2 then pos 0 else negsuc 0
  nl_compare_varvalues raw_data val1 val2 = compare_data val1 val2
  nl_compare_varvalues string val1 val2 = compare_strings val1 val2
  nl_compare_varvalues t val1 val2 = pos 1

  -- The values are compared if the types are the same.
  unfoldable pub compare_values : (t u : VarType) → VarValue F t → VarValue F u → ℤ
  unfolding nl_compare_varvalues
  compare_values invalid invalid x y = nl_compare_varvalues invalid x y
  compare_values any any x y = nl_compare_varvalues any x y
  compare_values integer integer x y = nl_compare_varvalues integer x y
  compare_values float float x y = nl_compare_varvalues float x y
  compare_values string string x y = nl_compare_varvalues string x y
  compare_values raw_data raw_data x y = nl_compare_varvalues raw_data x y
  compare_values t u x y =
      from_bool (ltb_ℤ (type_number u) (type_number t))
      -ℤ from_bool (ltb_ℤ (type_number t) (type_number u))

  unfoldable pub nl_compare_variants : Variant F → Variant F → ℤ
  unfolding compare_values
  nl_compare_variants val1 val2 = compare_values val1.type val2.type val1.value val2.value
