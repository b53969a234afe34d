-- ===== src/Kvp/Typed.antt =====
-- `nl_kvp_wrapper` and `nl_parse_kvp_variant` of src/kvp.c.
use nlutils.Prelude.{
  ℕ, suc, Bool, true, false, not, ◌&&◌, ◌||◌, Option, none, some, List, [], ◌∷◌, ◌==◌,
  if◌then◌else◌, drop,
}
use nlutils.Prelude.Int.{pos}
use nlutils.Ctype.{Bytes, codes, byte_at, isdigit, isxdigit}
use nlutils.Ctype.Signed.{strtol10, strtol16, int_of_long}
use nlutils.Str.Compare.{strcmp}
use nlutils.Variant.Value.{integer, float, string, Variant, variant}
use nlutils.Variant.Read.{is_zero}
use nlutils.Kvp.Parse.{Pair, nl_parse_kvp}

-- The function that sends a value.
pub data Kind : Type 0 where
  send_string send_hex send_int send_float send_true send_false : Kind

-- `period` and `exponent`; NULL stands for a return with a string.
abbrev pub Flags : Type 0
Flags = Option (Bool × Bool)

-- The loop at `ptr`, behind the character `prev`. With `skip` the character is the sign of an exponent,
-- which `ptr++` passes over.
unfoldable pub scan_number : (skip : Bool) → (prev : ℕ) → Bytes → (exponent period : Bool) → Flags
scan_number skip prev [] exponent period = some (exponent, period)
scan_number true prev (c ∷ s) exponent period = scan_number false c s exponent period
scan_number false prev (c ∷ s) exponent period =
    let next = byte_at s 0 in
    let after_period = scan_number false c s exponent true in
    let after_sign = scan_number true c s true period in
    let after_exponent = scan_number false c s true period in
    let after_digit = scan_number false c s exponent period in
    if c == b'.'
    then if exponent || period || (not (isdigit next) && not (next == 0))
      then none
      else after_period
    else if isdigit prev && (c == b'e' || c == b'E')
    then if exponent
      then none
      else if next == b'+' || next == b'-'
      then if not (isdigit (byte_at s 1)) then none else after_sign
      else if not (isdigit next)
      then none
      else after_exponent
    else if not (isdigit c)
    then none
    else after_digit

unfoldable pub all_hex : Bytes → Bool
all_hex [] = true
all_hex (c ∷ s) = isxdigit c && all_hex s

abbrev pub number_kind : Flags → Kind
number_kind none = send_string
number_kind (some (exponent, period)) = if exponent || period then send_float else send_int

-- `!strcmp(a, b)`
abbrev pub equals : Bytes → Bytes → Bool
equals a b = is_zero (strcmp a b)

-- What an unquoted value is sent as.
unfoldable pub kind_of : Bytes → Kind
kind_of value =
    let c = byte_at value 0 in
    if equals value (codes "true")
    then send_true
    else if equals value (codes "false")
    then send_false
    else if not (isdigit c)
        && (byte_at value 1 == 0 || (not (c == b'+') && not (c == b'-') && not (c == b'.')))
    then send_string
    else if c == b'0' && byte_at value 1 == b'x'
    then if all_hex (drop 2 value) then send_hex else send_string
    else number_kind (scan_number false c (drop 1 value) false (c == b'.'))

-- `atof`, stored in a `float`, is a parameter.
module _ {F : Type 0} (atof : Bytes → F) where
  -- The variant that the callback gets. The string stands at an address.
  unfoldable pub send_as : Kind → (address : ℕ) → Bytes → Variant F
  send_as send_string address value = variant F string (some (address, value))
  send_as send_hex address value = variant F integer (int_of_long (strtol16 (drop 2 value)).0)
  send_as send_int address value = variant F integer (int_of_long (strtol10 value).0)
  send_as send_float address value = variant F float (atof value)
  send_as send_true address value = variant F integer (pos 1)
  send_as send_false address value = variant F integer (pos 0)

  unfoldable pub nl_kvp_wrapper :
      (address : ℕ) → (value : Bytes) → (quoted_value : Bool) → Variant F
  nl_kvp_wrapper address value quoted_value =
      if quoted_value
      then send_as send_string address value
      else send_as (kind_of value) address value

  -- A call of the callback of `nl_parse_kvp_variant`.
  pub record TypedPair : Type 0 where
    pub key : Bytes
    pub strvalue : Bytes
    pub value : Variant F

  abbrev pub wrap_pairs : (address : ℕ → ℕ) → (index : ℕ) → List Pair → List TypedPair
  wrap_pairs address index [] = []
  wrap_pairs address index (p ∷ ps) =
      record {
        key = p.key;
        strvalue = p.value;
        value = nl_kvp_wrapper (address index) p.value p.quoted_value;
      }
      ∷ wrap_pairs address (suc index) ps

  -- `address i` is where the i-th value is duplicated.
  unfoldable pub nl_parse_kvp_variant :
      Option Bytes → (dup_ok : ℕ → Bool) → (address : ℕ → ℕ) → List TypedPair
  nl_parse_kvp_variant line dup_ok address = wrap_pairs address 0 (nl_parse_kvp line true dup_ok)
