-- ===== src/Variant/Order.antt =====
-- The order of values and variants, and the bounds of a clamped value.
use nlutils.Prelude.{
  ℕ, zero, suc, ◌≤◌, ◌≡◌, ◌⊎◌, inl, inr, refl, ap, ◌∙◌, Bool, true, false, ◌&&◌, none, some, [],
  ◌∷◌, ◌==◌, arith, Bool-cases,
}
use nlutils.Prelude.Int.{ℤ, pos, negsuc, ◌-ℤ◌, ltb_ℤ, sub_ℕ}
use nlutils.Ctype.{Bytes}
use nlutils.Ctype.Signed.{int_max, int_of_long}
use nlutils.Str.Compare.{strcmp}
use nlutils.Variant.Value.{
  VarType, invalid, any, integer, float, string, raw_data, type_number, Pointer, RawData, FloatOps,
  VarValue, Variant,
}
use nlutils.Variant.Compare.{
  from_bool, same_pointer, size_difference, compare_contents, compare_data, compare_strings,
  nl_clamp_varvalue, nl_compare_varvalues, compare_values, nl_compare_variants,
}

abbrev pub sign : ℤ → ℤ
sign (pos zero) = pos 0
sign (pos (suc n)) = pos 1
sign (negsuc n) = negsuc 0

abbrev pub opposite : ℤ → ℤ
opposite (pos zero) = pos 0
opposite (pos (suc n)) = negsuc n
opposite (negsuc n) = pos (suc n)

-- The two results of a comparison in both directions.
abbrev pub IsOpposite : ℤ → ℤ → Type 0
IsOpposite x y = sign y ≡ opposite (sign x)

pub opposite-IsOpposite : (x : ℤ) → IsOpposite x (opposite x)
opposite-IsOpposite (pos zero) = refl
opposite-IsOpposite (pos (suc n)) = refl
opposite-IsOpposite (negsuc n) = refl

sub_ℕ-opposite : (a b : ℕ) → sub_ℕ b a ≡ opposite (sub_ℕ a b)
sub_ℕ-opposite a b = ground arith

strcmp-opposite : (s t : Bytes) → strcmp t s ≡ opposite (strcmp s t)
unfolding strcmp
strcmp-opposite [] [] = refl
strcmp-opposite [] (d ∷ t) = ground arith
strcmp-opposite (c ∷ s) [] = ground arith
strcmp-opposite (c ∷ s) (d ∷ t) = ground (arith, strcmp-opposite s t, sub_ℕ-opposite c d)

compare_strings-opposite :
    (p q : Pointer Bytes) → compare_strings q p ≡ opposite (compare_strings p q)
unfolding compare_strings
compare_strings-opposite none none = refl
compare_strings-opposite none (some q) = refl
compare_strings-opposite (some p) none = refl
compare_strings-opposite (some (a, s)) (some (b, t)) = ground (arith, strcmp-opposite s t)

less-opposite :
    (x y : ℤ)
    → from_bool (ltb_ℤ x y) -ℤ from_bool (ltb_ℤ y x)
      ≡ opposite (from_bool (ltb_ℤ y x) -ℤ from_bool (ltb_ℤ x y))
unfolding ◌-ℤ◌
less-opposite x y = ground arith

size_difference_lem : (m n : ℕ) → m ≤ int_max → n ≤ int_max → size_difference m n ≡ sub_ℕ m n
unfolding size_difference int_of_long
size_difference_lem m n h k = ground arith

abbrev pub IsEmptyIfNull : ℕ → Pointer Bytes → Type 0
IsEmptyIfNull n none = n ≡ 0
IsEmptyIfNull n (some _) = Unit

-- Data that `nl_copy_data` can make: without contents the size is 0. The size fits an `int`.
abbrev pub IsSmallData : RawData → Type 0
IsSmallData d = (d.size ≤ int_max) × IsEmptyIfNull d.size d.contents

abbrev pub IsSmall : Pointer RawData → Type 0
IsSmall none = Unit
IsSmall (some (_, d)) = IsSmallData d

same_pointer_sym : {A : Type 0} (p q : Pointer A) → same_pointer q p ≡ same_pointer p q
same_pointer_sym none none = refl
same_pointer_sym none (some y) = refl
same_pointer_sym (some x) none = refl
same_pointer_sym (some (a, x)) (some (b, y)) = ground arith

contents-opposite :
    (d e : RawData) (p q : Pointer Bytes)
    → d.size ≤ int_max
    → e.size ≤ int_max
    → IsEmptyIfNull d.size p
    → IsEmptyIfNull e.size q
    → (same_pointer p q && d.size == e.size) ≡ false
    → compare_contents e d q p ≡ opposite (compare_contents d e p q)
unfolding compare_contents
contents-opposite d e none none h k f g ne = ground arith
contents-opposite d e none (some y) h k f g ne = refl
contents-opposite d e (some x) none h k f g ne = refl
contents-opposite d e (some x) (some y) h k f g ne =
    rw (size_difference_lem d.size e.size h k, size_difference_lem e.size d.size k h)
      (sub_ℕ-opposite d.size e.size)

sym_test :
    (d e : RawData)
    → (same_pointer e.contents d.contents && e.size == d.size)
      ≡ (same_pointer d.contents e.contents && d.size == e.size)
sym_test d e =
    let f : (e.size == d.size) ≡ (d.size == e.size) = ground arith in
    rw (same_pointer_sym d.contents e.contents, f) refl

compare_data-opposite :
    (p q : Pointer RawData) → IsSmall p → IsSmall q → compare_data q p ≡ opposite (compare_data p q)
unfolding compare_data
compare_data-opposite none none h k = refl
compare_data-opposite none (some y) h k = refl
compare_data-opposite (some x) none h k = refl
compare_data-opposite (some (a, d)) (some (b, e)) h k = elim (Bool-cases (a == b)) [
  | inl f ↦ let g : (b == a) ≡ true = ground arith in rw (f, g) refl
  | inr f ↦
      let g : (b == a) ≡ false = ground arith in
      rw (f, g, sym_test d e)
        (elim (Bool-cases (same_pointer d.contents e.contents && d.size == e.size)) [
          | inl same ↦ rw same refl
          | inr ne ↦ rw ne (contents-opposite d e d.contents e.contents h.0 k.0 h.1 k.1 ne)
        ])
]

module _ {F : Type 0} (ops : FloatOps F) where
  -- One of the three tests of two numbers holds, which are no NaN.
  abbrev pub IsOrdered : F → F → Type 0
  IsOrdered x y =
      ((ops.less x y ≡ true)
        × (ops.less y x ≡ false)
        × (ops.same x y ≡ false)
        × (ops.same y x ≡ false))
      ⊎ ((ops.less x y ≡ false)
          × (ops.less y x ≡ true)
          × (ops.same x y ≡ false)
          × (ops.same y x ≡ false))
      ⊎ ((ops.less x y ≡ false)
          × (ops.less y x ≡ false)
          × (ops.same x y ≡ true)
          × (ops.same y x ≡ true))

  abbrev pub IsComparable : (t u : VarType) → VarValue F t → VarValue F u → Type 0
  IsComparable invalid invalid x y = ⊥
  IsComparable any any x y = ⊥
  IsComparable float float x y = IsOrdered x y
  IsComparable raw_data raw_data x y = IsSmall x × IsSmall y
  IsComparable t u x y = Unit

  float-opposite :
      (x y : F)
      → IsOrdered x y
      → nl_compare_varvalues ops float y x ≡ opposite (nl_compare_varvalues ops float x y)
  unfolding nl_compare_varvalues
  float-opposite x y (inl (a, b, c, d)) = rw (a, b, c) refl
  float-opposite x y (inr (inl (a, b, c, d))) = rw (a, b, d) refl
  float-opposite x y (inr (inr (a, b, c, d))) = rw (a, b, c, d) refl

  compare_values-opposite :
      (t u : VarType) (x : VarValue F t) (y : VarValue F u)
      → IsComparable t u x y
      → compare_values ops u t y x ≡ opposite (compare_values ops t u x y)
  unfolding compare_values nl_compare_varvalues
  compare_values-opposite invalid invalid x y h = absurd h
  compare_values-opposite any any x y h = absurd h
  compare_values-opposite integer integer x y h = less-opposite x y
  compare_values-opposite float float x y h = float-opposite x y h
  compare_values-opposite string string x y h = compare_strings-opposite x y
  compare_values-opposite raw_data raw_data x y h = compare_data-opposite x y h.0 h.1
  compare_values-opposite t u x y h = less-opposite (type_number t) (type_number u)

  -- `nl_compare_variants` of two variants in the other order has the opposite sign. Two variants of the same
  -- type that is neither a number, a string nor data are excluded, for which the result is always 1; so is
  -- a NaN, data of more than INT_MAX bytes, and data of a size other than 0 whose pointer is NULL.
  pub nl_compare_variants-IsOpposite :
      (v w : Variant F)
      → IsComparable v.type w.type v.value w.value
      → IsOpposite (nl_compare_variants ops v w) (nl_compare_variants ops w v)
  unfolding nl_compare_variants
  nl_compare_variants-IsOpposite v w h =
      ap sign (compare_values-opposite v.type w.type v.value w.value h)
      ∙ opposite-IsOpposite (compare_values ops v.type w.type v.value w.value)

  -- The order that clamping uses.
  abbrev pub less_value : (t : VarType) → VarValue F t → VarValue F t → Bool
  less_value integer x y = ltb_ℤ x y
  less_value float x y = ops.less x y
  less_value t x y = false

  -- The result of `nl_clamp_varvalue` is neither below `min` nor above `max`, if `max` is not below `min` and
  -- no number is below itself. It is `min` for a value below it, `max` for a value above it, and otherwise
  -- the value.
  pub nl_clamp_varvalue-bounds :
      (t : VarType) (value min max : VarValue F t)
      → less_value t max min ≡ false
      → ((x : F) → ops.less x x ≡ false)
      → (less_value t (nl_clamp_varvalue ops t value min max) min ≡ false)
        × (less_value t max (nl_clamp_varvalue ops t value min max) ≡ false)
        × (((less_value t value min ≡ true) × (nl_clamp_varvalue ops t value min max ≡ min))
            ⊎ ((less_value t max value ≡ true) × (nl_clamp_varvalue ops t value min max ≡ max))
            ⊎ (nl_clamp_varvalue ops t value min max ≡ value))
  unfolding nl_clamp_varvalue
  nl_clamp_varvalue-bounds integer v l u h irr = ground arith
  nl_clamp_varvalue-bounds float v l u h irr = ground (arith, irr l, irr u)
  nl_clamp_varvalue-bounds invalid v l u h irr = (refl, refl, inr (inr refl))
  nl_clamp_varvalue-bounds any v l u h irr = (refl, refl, inr (inr refl))
  nl_clamp_varvalue-bounds string v l u h irr = (refl, refl, inr (inr refl))
  nl_clamp_varvalue-bounds raw_data v l u h irr = (refl, refl, inr (inr refl))
