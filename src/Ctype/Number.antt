-- ===== src/Ctype/Number.antt =====
-- `strtoul` of <stdlib.h> in base 10, for a 64-bit `unsigned long`: blanks, a sign, then digits. A
-- number that does not fit gives the largest one.
use nlutils.Prelude.{
  ℕ, suc, ◌+◌, ◌-◌, ◌*◌, ◌%◌, ◌<◌, ◌≤◌, ◌≡◌, ◌∙◌, Bool, true, false, ◌||◌, [], ◌∷◌, ◌++◌, arith,
  ltb, ◌==◌, if◌then◌else◌, length, drop, length-drop,
}
use native.Mathlib.Nat.{add-zero, zero-add}
use nlutils.Ctype.{Bytes, byte_at, isdigit, isspace, All}

abbrev pub ulong_mod : ℕ
ulong_mod = 18446744073709551616

unfoldable pub spaces : Bytes → ℕ
spaces [] = 0
spaces (c ∷ s) = if isspace c then suc (spaces s) else 0

-- The value of the digits in front, and how many there are.
unfoldable pub read_digits : Bytes → (value count : ℕ) → ℕ × ℕ
read_digits [] value count = (value, count)
read_digits (c ∷ s) value count =
    let rest = read_digits s (value * 10 + (c - b'0')) (count + 1) in
    if isdigit c then rest else (value, count)

unfoldable pub to_ulong : (negative : Bool) → ℕ → ℕ
to_ulong negative v =
    if ltb v ulong_mod then if negative then (ulong_mod - v) % ulong_mod else v else ulong_mod - 1

abbrev pub is_sign : ℕ → Bool
is_sign c = c == b'+' || c == b'-'

-- The value, and the number of characters read: `endptr - s`, which is 0 if there is no digit.
unfoldable pub strtoul10 : Bytes → ℕ × ℕ
unfolding spaces read_digits to_ulong
strtoul10 s =
    let blank = spaces s in
    let t = drop blank s in
    let sign = if is_sign (byte_at t 0) then 1 else 0 in
    let (v, count) = read_digits (drop sign t) 0 0 in
    if count == 0 then (0, 0) else (to_ulong (byte_at t 0 == b'-') v, blank + sign + count)

spaces-le : (s : Bytes) → spaces s ≤ length s
unfolding spaces
spaces-le [] = omega arith
spaces-le (c ∷ s) = ground (arith, spaces-le s)

read_digits-le :
    (s : Bytes) (v k : ℕ) → ((read_digits s v k).1 ≤ k + length s) × (k ≤ (read_digits s v k).1)
unfolding read_digits
read_digits-le [] v k = omega arith
read_digits-le (c ∷ s) v k = ground (arith, read_digits-le s (v * 10 + (c - b'0')) (k + 1))

-- No more is read than there is, and what is read ends behind a digit.
pub strtoul10-le : (s : Bytes) → (strtoul10 s).1 ≤ length s
unfolding strtoul10
strtoul10-le s =
    let t = drop (spaces s) s in
    let sign : ℕ = if is_sign (byte_at t 0) then 1 else 0 in
    grind (
      arith,
      spaces-le s,
      length-drop (spaces s) s,
      length-drop sign t,
      read_digits-le (drop sign t) 0 0,
    )

-- The value of a text of digits.
unfoldable pub number_from : (value : ℕ) → Bytes → ℕ
number_from value [] = value
number_from value (c ∷ s) = number_from (value * 10 + (c - b'0')) s

-- Digits only, at least one, of a number that fits.
abbrev pub IsNumeral : Bytes → Type 0
IsNumeral [] = ⊥
IsNumeral (c ∷ s) = All (λ d. isdigit d ≡ true) (c ∷ s) × (number_from 0 (c ∷ s) < ulong_mod)

read_digits-append :
    (t : Bytes) (c : ℕ) (s : Bytes) (v k : ℕ)
    → All (λ d. isdigit d ≡ true) t
    → isdigit c ≡ false
    → read_digits (t ++ c ∷ s) v k ≡ (number_from v t, k + length t)
unfolding read_digits number_from
read_digits-append [] c s v k h e = rw e (cc (add-zero k))
read_digits-append (d ∷ t) c s v k h e =
    ground (arith, h.0, read_digits-append t c s (v * 10 + (d - b'0')) (k + 1) h.1 e)

pub digit-isspace : (d : ℕ) → isdigit d ≡ true → isspace d ≡ false
unfolding isdigit isspace
digit-isspace d h = ground arith

pub digit-is_sign : (d : ℕ) → isdigit d ≡ true → is_sign d ≡ false
unfolding isdigit
digit-is_sign d h = ground arith

to_ulong_small : (n : ℕ) → n < ulong_mod → to_ulong false n ≡ n
unfolding to_ulong
to_ulong_small n h = ground arith

-- A numeral before another character is read whole.
pub strtoul10-append :
    (t : Bytes) (c : ℕ) (s : Bytes)
    → IsNumeral t
    → isdigit c ≡ false
    → strtoul10 (t ++ c ∷ s) ≡ (number_from 0 t, length t)
unfolding strtoul10
strtoul10-append [] c s h e = absurd h
strtoul10-append (d ∷ t) c s h e =
    let blank : isspace d ≡ false = digit-isspace d h.0.0 in
    let sign : is_sign d ≡ false = digit-is_sign d h.0.0 in
    let minus : (d == b'-') ≡ false = ground (arith, sign) in
    let read : read_digits (d ∷ t ++ c ∷ s) 0 0 ≡ (number_from 0 (d ∷ t), suc (length t)) =
      read_digits-append (d ∷ t) c s 0 0 h.0 e ∙ cc (zero-add (length (d ∷ t))) in
    rw (blank, sign, minus, read)
      (rw (to_ulong_small (number_from 0 (d ∷ t)) h.1, to_ulong) (ground (arith, h.1)))
