-- ===== src/Variant/Memory.antt =====
-- `nl_copy_data`, `nl_duplicate_data`, `nl_duplicate_variant` and the functions that free, with the
-- addresses that are allocated. The answers of the allocator are given in advance.
use nlutils.Prelude.{
  ℕ, Bool, true, false, not, ◌&&◌, Option, none, some, List, [], ◌∷◌, ◌==◌, if◌then◌else◌, take,
}
use nlutils.Prelude.Chain.{◌>>=◌}
use nlutils.Ctype.{Bytes}
use nlutils.Variant.Value.{
  VarType, string, raw_data, Pointer, RawData, VarValue, Variant, variant, invalid_variant,
}

pub record Heap : Type 0 where
  pub answers : List (Option ℕ)
  pub live : List ℕ

abbrev pub take_out : ℕ → List ℕ → Option (List ℕ)
take_out a [] = none
take_out a (b ∷ bs) = if a == b then some bs else (take_out a bs >>= λ cs. some (b ∷ cs))

abbrev pub with_live : Heap → Option (List ℕ) → Option Heap
with_live h none = none
with_live h (some l) = some (record h { live = l })

-- `none` is NULL.
abbrev pub answer : List (Option ℕ) → List ℕ → Option ℕ × Heap
answer [] l = (none, record { answers = []; live = l })
answer (none ∷ rest) l = (none, record { answers = rest; live = l })
answer (some a ∷ rest) l = (some a, record { answers = rest; live = a ∷ l })

abbrev pub malloc : Heap → Option ℕ × Heap
malloc h = answer h.answers h.live

-- `none` is a call with an address that is not allocated.
abbrev pub free : ℕ → Heap → Option Heap
free a h = with_live h (take_out a h.live)

abbrev pub free_pointer : {A : Type 0} → Pointer A → Heap → Option Heap
free_pointer none h = some h
free_pointer (some (a, _)) h = free a h

abbrev pub size_max : ℕ
size_max = 18446744073709551615

abbrev pub is_null : {A : Type 0} → Option A → Bool
is_null none = true
is_null (some _) = false

abbrev pub error_data : RawData
error_data = record { size = size_max; contents = none }

-- A new buffer with a copy.
abbrev pub copy_to : {A : Type 0} → Option ℕ × Heap → A → Pointer A × Heap
copy_to (none, h) x = (none, h)
copy_to (some a, h) x = (some (a, x), h)

unfoldable pub nl_copy_data : RawData → Heap → RawData × Heap
nl_copy_data d h = elim d.contents [
  | none ↦ if d.size == 0 then (record { size = 0; contents = none }, h) else (error_data, h)
  | some (_, s) ↦
      if d.size == 0
      then (record { size = 0; contents = none }, h)
      else (let (p, h) = copy_to (malloc h) (take d.size s) in
          if is_null p then (error_data, h) else (record { size = d.size; contents = p }, h))
]

abbrev pub is_error : RawData → Bool
is_error d = d.size == size_max && is_null d.contents

abbrev pub release_null : {A : Type 0} → ℕ → Heap → Option (Pointer A × Heap)
release_null a h = free a h >>= λ h. some (none, h)

-- Behind the allocation of the structure. `none` is a wrong call of `free`.
abbrev pub keep_copy : ℕ → RawData × Heap → Option (Pointer RawData × Heap)
keep_copy a (d, h) = if is_error d then release_null a h else some (some (a, d), h)

unfoldable pub with_struct : RawData → Option ℕ × Heap → Option (Pointer RawData × Heap)
unfolding nl_copy_data
with_struct d (none, h) = some (none, h)
with_struct d (some a, h) = keep_copy a (nl_copy_data d h)

unfoldable pub nl_duplicate_data : Pointer RawData → Heap → Option (Pointer RawData × Heap)
unfolding with_struct
nl_duplicate_data none h = some (none, h)
nl_duplicate_data (some (_, d)) h =
    if not (d.size == 0) && is_null d.contents then some (none, h) else with_struct d (malloc h)

unfoldable pub nl_destroy_data : Pointer RawData → Heap → Option Heap
nl_destroy_data none h = some h
nl_destroy_data (some (a, d)) h = do h ← free_pointer d.contents h; free a h

-- `strdup`
abbrev pub duplicate_string : Pointer Bytes → Heap → Pointer Bytes × Heap
duplicate_string none h = (none, h)
duplicate_string (some (_, s)) h = copy_to (malloc h) s

module _ (F : Type 0) where
  abbrev pub duplicated_data : Option (Pointer RawData × Heap) → Option (Variant F × Heap)
  duplicated_data none = none
  duplicated_data (some (none, h)) = some (invalid_variant F, h)
  duplicated_data (some (some d, h)) = some (variant F raw_data (some d), h)

  -- `goto error` if the original is not NULL and the duplicate is.
  abbrev pub duplicate_value : (t : VarType) → VarValue F t → Heap → Option (Variant F × Heap)
  duplicate_value string none h = some (variant F string none, h)
  duplicate_value string (some s) h =
      let (p, h) = duplicate_string (some s) h in
      some (if is_null p then invalid_variant F else variant F string p, h)
  duplicate_value raw_data none h = some (variant F raw_data none, h)
  duplicate_value raw_data (some d) h = duplicated_data (nl_duplicate_data (some d) h)
  duplicate_value t x h = some (variant F t x, h)

  unfoldable pub nl_duplicate_variant : Variant F → Heap → Option (Variant F × Heap)
  nl_duplicate_variant v h = duplicate_value v.type v.value h

  abbrev pub destroy_value : (t : VarType) → VarValue F t → Heap → Option Heap
  destroy_value string p h = free_pointer p h
  destroy_value raw_data p h = nl_destroy_data p h
  destroy_value t x h = some h

  unfoldable pub nl_destroy_variant : Variant F → Heap → Option Heap
  nl_destroy_variant v h = destroy_value v.type v.value h
