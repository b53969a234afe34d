-- ===== src/Variant/Value.antt =====
-- The types of include/variant.h. A pointer is NULL or an address with what stands there. The member
-- of the union that is read is the one of the type, so a value is indexed by its type. `float` and the
-- library's functions on it are parameters.
use nlutils.Prelude.{ℕ, Bool, Option}
use nlutils.Prelude.Int.{ℤ, pos, negsuc}
use nlutils.Ctype.{Bytes}

-- `enum nl_vartype`
pub data VarType : Type 0 where
  invalid any integer float string raw_data : VarType

-- The number of the enumeration.
abbrev pub type_number : VarType → ℤ
type_number invalid = negsuc 0
type_number any = pos 0
type_number integer = pos 1
type_number float = pos 2
type_number string = pos 3
type_number raw_data = pos 4

abbrev pub Pointer : Type 0 → Type 0
Pointer A = Option (ℕ × A)

-- `struct nl_raw_data`; `contents` is its member `data`.
pub record RawData : Type 0 where
  pub size : ℕ
  pub contents : Pointer Bytes

-- What the code uses of `float`: its order, constants, `printf` of "%.12e", "%.15f" and "%f", and
-- `strtof`, which says whether it sets `errno`.
pub record FloatOps (F : Type 0) : Type 0 where
  pub less : F → F → Bool
  pub same : F → F → Bool
  pub zero_float : F
  pub infinity : F
  pub minus_infinity : F
  pub thousandth : F
  pub minus_thousandth : F
  pub thousand : F
  pub minus_thousand : F
  pub print_e12 : F → Bytes
  pub print_f15 : F → Bytes
  pub print_f : F → Bytes
  pub strtof : Bytes → F × Bool

module _ (F : Type 0) where
  -- `union nl_varvalue`; `intptr_t` is given by its bits.
  abbrev pub VarValue : VarType → Type 0
  VarValue invalid = Unit
  VarValue any = ℕ
  VarValue integer = ℤ
  VarValue float = F
  VarValue string = Pointer Bytes
  VarValue raw_data = Pointer RawData

  pub record Variant : Type 0 where
    pub type : VarType
    pub value : VarValue type

  abbrev pub variant : (t : VarType) → VarValue t → Variant
  variant t v = record { type = t; value = v }

  -- `(struct nl_variant){.type = INVALID}`
  abbrev pub invalid_variant : Variant
  invalid_variant = variant invalid tt
