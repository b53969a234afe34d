-- ===== src/Ctype/Signed.antt =====
-- `strtol` of <stdlib.h> for a 64-bit `long`, the conversion of a `long` to a 32-bit `int`, and the
-- decimal and hexadecimal texts that `printf` writes.
use mathlib.Core.Path.{subst}
use nlutils.Prelude.{
  ℕ, zero, suc, ◌+◌, ◌-◌, ◌*◌, ◌/◌, ◌%◌, ◌<◌, ◌≤◌, ◌≡◌, refl, sym, ap, ◌∙◌, Bool, true, false, ◌||◌,
  ◌&&◌, [], ◌∷◌, ◌++◌, arith, ltb, leb, ◌==◌, if◌then◌else◌, length, drop, replicate, Bool-cases,
  inl, inr,
}
use nlutils.Prelude.Int.{ℤ, pos, negsuc}
use native.Mathlib.Nat.{zero-add}
use nlutils.Ctype.{
  Bytes, byte_at, isdigit, isxdigit, isspace, digit_value, hex_digit, hex_digit_lem, All,
  All-append,
}
use nlutils.Ctype.Number.{spaces, is_sign, read_digits, number_from, digit-isspace, digit-is_sign}

abbrev pub long_max : ℕ
long_max = 9223372036854775807

-- The value and whether `errno` is set to ERANGE.
unfoldable pub to_long : (negative : Bool) → ℕ → ℤ × Bool
to_long true zero = (pos 0, false)
to_long true (suc n) = if leb n long_max then (negsuc n, false) else (negsuc long_max, true)
to_long false n = if leb n long_max then (pos n, false) else (pos long_max, true)

unfoldable pub strtol10 : Bytes → ℤ × Bool
unfolding spaces read_digits to_long
strtol10 s =
    let t = drop (spaces s) s in
    let sign = if is_sign (byte_at t 0) then 1 else 0 in
    to_long (byte_at t 0 == b'-') (read_digits (drop sign t) 0 0).0

unfoldable pub read_hex : Bytes → ℕ → ℕ
unfolding isxdigit digit_value
read_hex [] n = n
read_hex (c ∷ s) n =
    let rest = read_hex s (n * 16 + digit_value c) in if isxdigit c then rest else n

-- A second prefix `0x` is skipped, as the standard says for base 16.
unfoldable pub strtol16 : Bytes → ℤ × Bool
unfolding spaces read_hex to_long
strtol16 s =
    let t = drop (spaces s) s in
    let sign = if is_sign (byte_at t 0) then 1 else 0 in
    let u = drop sign t in
    let prefix =
      if byte_at u 0 == b'0' && (byte_at u 1 == b'x' || byte_at u 1 == b'X') then 2 else 0 in
    to_long (byte_at t 0 == b'-') (read_hex (drop prefix u) 0)

abbrev pub int_mod : ℕ
int_mod = 4294967296

abbrev pub int_max : ℕ
int_max = 2147483647

abbrev wrap : ℕ → ℤ
wrap n = if leb n int_max then pos n else negsuc (int_mod - n - 1)

-- The lowest 32 bits, with the sign of the highest of them.
unfoldable pub int_of_long : ℤ → ℤ
int_of_long (pos n) = wrap (n % int_mod)
int_of_long (negsuc n) = wrap (int_mod - 1 - n % int_mod)

-- The values of an `int`.
abbrev pub IsInt : ℤ → Type 0
IsInt (pos n) = n ≤ int_max
IsInt (negsuc n) = n ≤ int_max

pub int_of_long-IsInt : (a : ℤ) → IsInt a → int_of_long a ≡ a
unfolding int_of_long
int_of_long-IsInt (pos n) h = ground arith
int_of_long-IsInt (negsuc n) h = ground arith

pub IsInt-int_of_long : (a : ℤ) → IsInt (int_of_long a)
unfolding int_of_long
IsInt-int_of_long (pos n) = ground arith
IsInt-int_of_long (negsuc n) = ground arith

-- The digits of a number; `fuel` bounds how many there are.
unfoldable pub digits : (base fuel n : ℕ) → Bytes
unfolding hex_digit
digits base zero n = []
digits base (suc fuel) n =
    let front = digits base fuel (n / base) in
    if ltb n base then hex_digit n ∷ [] else front ++ hex_digit (n % base) ∷ []

-- `%zu`, and `%d` of a number that is not negative.
unfoldable pub decimal : ℕ → Bytes
unfolding digits
decimal n = digits 10 (suc n) n

-- `%08lx`
unfoldable pub hexadecimal8 : ℕ → Bytes
unfolding digits
hexadecimal8 n = let s = digits 16 (suc n) n in replicate (8 - length s) b'0' ++ s

-- `%d`
unfoldable pub print_int : ℤ → Bytes
print_int (pos n) = decimal n
print_int (negsuc n) = b'-' ∷ decimal (suc n)

abbrev pub IsDigits : Bytes → Type 0
IsDigits = All (λ d. isdigit d ≡ true)

read_digits-all : (t : Bytes) (v k : ℕ) → IsDigits t → (read_digits t v k).0 ≡ number_from v t
unfolding read_digits number_from
read_digits-all [] v k h = refl
read_digits-all (d ∷ t) v k h = rw h.0 (read_digits-all t (v * 10 + (d - b'0')) (k + 1) h.1)

number_from-append :
    (s : Bytes) (v d : ℕ) → number_from v (s ++ d ∷ []) ≡ number_from v s * 10 + (d - b'0')
unfolding number_from
number_from-append [] v d = refl
number_from-append (c ∷ s) v d = number_from-append s (v * 10 + (c - b'0')) d

hex_digit-decimal : (d : ℕ) → d < 10 → (isdigit (hex_digit d) ≡ true) × (hex_digit d - b'0' ≡ d)
unfolding isdigit
hex_digit-decimal d h = rw (hex_digit_lem d (omega arith)) (ground arith)

digits_lem :
    (fuel n : ℕ) → n < fuel → IsDigits (digits 10 fuel n) × (number_from 0 (digits 10 fuel n) ≡ n)
unfolding digits
digits_lem zero n h = absurd (omega arith)
digits_lem (suc fuel) n h = elim (Bool-cases (ltb n 10)) [
  | inl e ↦
      let (d, v) = hex_digit-decimal n (ground arith) in
      rw e ((d, tt), unfold number_from in rw zero-add v)
  | inr e ↦
      let (d, v) = hex_digit-decimal (n % 10) (omega arith) in
      let (front, value) = digits_lem fuel (n / 10) (ground (arith, e)) in
      rw e (
        All-append (λ d. isdigit d ≡ true) (digits 10 fuel (n / 10)) _ front (d, tt),
        number_from-append (digits 10 fuel (n / 10)) 0 (hex_digit (n % 10))
            ∙ rw (value, v) (omega arith),
      )
]

pub decimal_lem : (n : ℕ) → IsDigits (decimal n) × (number_from 0 (decimal n) ≡ n)
unfolding decimal
decimal_lem n = digits_lem (suc n) n (omega arith)

snoc_head : (s : Bytes) (d : ℕ) → (c : ℕ) × (t : Bytes) × (s ++ d ∷ [] ≡ c ∷ t)
snoc_head [] d = (d, [], refl)
snoc_head (c ∷ s) d = (c, s ++ d ∷ [], refl)

pub decimal_head : (n : ℕ) → (c : ℕ) × (t : Bytes) × (decimal n ≡ c ∷ t) × (isdigit c ≡ true)
unfolding decimal digits
decimal_head n =
    let (c, t, e) : (c : ℕ) × (t : Bytes) × (decimal n ≡ c ∷ t) = elim (Bool-cases (ltb n 10)) [
      | inl e ↦ (hex_digit n, [], rw e refl)
      | inr e ↦ rw e (snoc_head (digits 10 n (n / 10)) (hex_digit (n % 10)))
    ] in
    (c, t, e, (subst IsDigits e (decimal_lem n).0).0)

-- Blanks and a sign in front are absent.
strtol10-digit :
    (c : ℕ) (t : Bytes)
    → IsDigits (c ∷ t)
    → strtol10 (c ∷ t) ≡ to_long false (number_from 0 (c ∷ t))
unfolding strtol10 spaces
strtol10-digit c t h =
    let blank = digit-isspace c h.0 in
    let sign = digit-is_sign c h.0 in
    let minus : (c == b'-') ≡ false = ground (arith, sign) in
    rw (blank, sign, minus, read_digits-all (c ∷ t) 0 0 h) refl

strtol10-minus : (t : Bytes) → IsDigits t → strtol10 (b'-' ∷ t) ≡ to_long true (number_from 0 t)
unfolding strtol10 spaces isspace
strtol10-minus t h = rw (read_digits-all t 0 0 h) refl

strtol10-decimal : (n : ℕ) → strtol10 (decimal n) ≡ to_long false n
strtol10-decimal n =
    let (c, t, e, d) = decimal_head n in
    let (all, v) = decimal_lem n in
    ap strtol10 e
    ∙ strtol10-digit c t (subst IsDigits e all)
    ∙ ap (λ s. to_long false (number_from 0 s)) (sym e)
    ∙ ap (to_long false) v

-- `strtol` reads back the text of an `int`.
pub strtol10-print_int : (a : ℤ) → IsInt a → strtol10 (print_int a) ≡ (a, false)
unfolding print_int to_long
strtol10-print_int (pos n) h =
    let small : leb n long_max ≡ true = ground (arith, h) in strtol10-decimal n ∙ rw small refl
strtol10-print_int (negsuc n) h =
    let (all, v) = decimal_lem (suc n) in
    let small : leb n long_max ≡ true = ground (arith, h) in
    strtol10-minus (decimal (suc n)) all ∙ rw (v, small) refl
