-- ===== src/Kvp/Decimal.antt =====
-- Which values are sent as decimal integers.
use mathlib.Core.Path.{subst}
use nlutils.Prelude.{
  if_same, ℕ, suc, ◌≡◌, ◌≢◌, ◌↔◌, inl, inr, refl, ap, ◌∙◌, Bool, true, false, ◌||◌, some, [], ◌∷◌,
  ◌==◌, drop, arith, Bool-cases,
}
use nlutils.Prelude.Int.{ℤ, pos, negsuc}
use nlutils.Ctype.{Bytes, byte_at, isdigit}
use nlutils.Ctype.Signed.{
  IsDigits, IsInt, print_int, decimal, decimal_lem, decimal_head, strtol10-print_int,
  int_of_long-IsInt,
}
use nlutils.Str.Compare.{strcmp}
use nlutils.Variant.Value.{integer, variant}
use nlutils.Kvp.Typed.{send_int, scan_number, number_kind, equals, kind_of, send_as, nl_kvp_wrapper}

-- A sign or none, and at least one digit.
abbrev pub IsDecimal : Bytes → Type 0
IsDecimal [] = ⊥
IsDecimal (c ∷ []) = isdigit c ≡ true
IsDecimal (c ∷ d ∷ s) = ((isdigit c || c == b'+' || c == b'-') ≡ true) × IsDigits (d ∷ s)

-- A flag is never taken back.
flagged :
    (skip : Bool) (prev : ℕ) (s : Bytes) (exponent period : Bool)
    → (exponent || period) ≡ true
    → number_kind (scan_number skip prev s exponent period) ≢ send_int
unfolding scan_number
flagged skip prev [] exponent period h k = ground (arith, h, k)
flagged true prev (c ∷ s) exponent period h k = flagged false c s exponent period h k
flagged false prev (c ∷ s) exponent period h k = ground (
  arith,
  h,
  k,
  flagged false c s exponent true,
  flagged true c s true period,
  flagged false c s true period,
  flagged false c s exponent period,
)

IsDigits-scan :
    (prev : ℕ) (s : Bytes) → IsDigits s → scan_number false prev s false false ≡ some (false, false)
unfolding scan_number isdigit
IsDigits-scan prev [] h = refl
IsDigits-scan prev (c ∷ s) h = ground (arith, h.0, IsDigits-scan c s h.1)

scan-IsDigits :
    (prev : ℕ) (s : Bytes)
    → number_kind (scan_number false prev s false false) ≡ send_int
    → IsDigits s
unfolding scan_number
scan-IsDigits prev [] h = tt
scan-IsDigits prev (c ∷ s) h = ground (
  arith,
  h,
  flagged false c s false true,
  flagged true c s true false,
  flagged false c s true false,
  scan-IsDigits c s,
)

head-equals : (c d : ℕ) (s t : Bytes) → (c == d) ≡ false → equals (c ∷ s) (d ∷ t) ≡ false
unfolding strcmp
head-equals c d s t h = rw h (ground (arith, h))

-- The tests that do not depend on the scan.
kind_of-scan :
    (c d : ℕ) (s : Bytes)
    → (isdigit c || c == b'+' || c == b'-') ≡ true
    → isdigit d ≡ true
    → kind_of (c ∷ d ∷ s) ≡ number_kind (scan_number false c (d ∷ s) false false)
unfolding kind_of
kind_of-scan c d s h k =
    let t : (c == b't') ≡ false = unfold isdigit in ground (arith, h) in
    let f : (c == b'f') ≡ false = unfold isdigit in ground (arith, h) in
    let p : (c == b'.') ≡ false = unfold isdigit in ground (arith, h) in
    let x : (d == b'x') ≡ false = unfold isdigit in ground (arith, k) in
    let z : (d == 0) ≡ false = unfold isdigit in ground (arith, k) in
    rw (head-equals c b't' (d ∷ s) _ t, head-equals c b'f' (d ∷ s) _ f, p, x, z) (ground (arith, h))

-- An integer is sent behind all other tests.
int-scan :
    (value : Bytes)
    → kind_of value ≡ send_int
    → number_kind
        (scan_number false (byte_at value 0) (drop 1 value) false (byte_at value 0 == b'.'))
      ≡ send_int
unfolding kind_of
int-scan value e = ground (arith, e)

int-head :
    (c d : ℕ) (s : Bytes)
    → kind_of (c ∷ d ∷ s) ≡ send_int
    → (isdigit c || c == b'+' || c == b'-' || c == b'.') ≡ true
unfolding kind_of
int-head c d s e = ground (arith, e)

int-single : (c : ℕ) → kind_of (c ∷ []) ≡ send_int → isdigit c ≡ true
unfolding kind_of
int-single c e = ground (arith, e)

int-empty : kind_of [] ≢ send_int
unfolding kind_of strcmp isdigit
int-empty e = ground (arith, e)

int-IsDecimal : (value : Bytes) → kind_of value ≡ send_int → IsDecimal value
int-IsDecimal [] e = int-empty e
int-IsDecimal (c ∷ []) e = int-single c e
int-IsDecimal (c ∷ d ∷ s) e = elim (Bool-cases (c == b'.')) [
  | inl f ↦ absurd (
      flagged false c (d ∷ s) false true refl (
        subst (λ b. number_kind (scan_number false c (d ∷ s) false b) ≡ send_int) f
          (int-scan (c ∷ d ∷ s) e)))
  | inr f ↦ (
    ground (arith, f, int-head c d s e),
    scan-IsDigits c (d ∷ s) (
        subst (λ b. number_kind (scan_number false c (d ∷ s) false b) ≡ send_int) f
          (int-scan (c ∷ d ∷ s) e)),
  )
]

digit_alone : (c : ℕ) → isdigit c ≡ true → kind_of (c ∷ []) ≡ send_int
unfolding kind_of scan_number
digit_alone c h =
    let t : (c == b't') ≡ false = unfold isdigit in ground (arith, h) in
    let f : (c == b'f') ≡ false = unfold isdigit in ground (arith, h) in
    let p : (c == b'.') ≡ false = unfold isdigit in ground (arith, h) in
    rw (head-equals c b't' [] _ t, head-equals c b'f' [] _ f, p, h) (if_same (c == b'0') _ _)

IsDecimal-int : (value : Bytes) → IsDecimal value → kind_of value ≡ send_int
IsDecimal-int [] h = absurd h
IsDecimal-int (c ∷ []) h = digit_alone c h
IsDecimal-int (c ∷ d ∷ s) h =
    kind_of-scan c d s h.0 h.1.0 ∙ ap number_kind (IsDigits-scan c (d ∷ s) h.1)

-- An unquoted value is sent by `nl_kvp_send_int` exactly when it is a sign or none and at least one
-- decimal digit, with nothing else.
pub kind_of-IsDecimal : (value : Bytes) → (kind_of value ≡ send_int) ↔ IsDecimal value
kind_of-IsDecimal value = (int-IsDecimal value, IsDecimal-int value)

digits-IsDecimal : (c : ℕ) (s : Bytes) → IsDigits (c ∷ s) → IsDecimal (c ∷ s)
digits-IsDecimal c [] h = h.0
digits-IsDecimal c (d ∷ s) h = (rw h.0 refl, h.1)

minus-IsDecimal : (s : Bytes) (c : ℕ) (t : Bytes) → s ≡ c ∷ t → IsDigits s → IsDecimal (b'-' ∷ s)
unfolding isdigit
minus-IsDecimal s c t e h = rw e (refl, subst IsDigits e h)

print_int-IsDecimal : (n : ℤ) → IsDecimal (print_int n)
unfolding print_int
print_int-IsDecimal (pos n) =
    let (c, t, e, d) = decimal_head n in
    rw e (digits-IsDecimal c t (subst IsDigits e (decimal_lem n).0))
print_int-IsDecimal (negsuc n) =
    let (c, t, e, d) = decimal_head (suc n) in
    minus-IsDecimal (decimal (suc n)) c t e (decimal_lem (suc n)).0

-- The text of an `int` in decimal digits, unquoted, reaches the callback of `nl_parse_kvp_variant` as that
-- integer.
pub nl_kvp_wrapper-print_int :
    {F : Type 0} (atof : Bytes → F) (n : ℤ) (address : ℕ)
    → IsInt n
    → nl_kvp_wrapper atof address (print_int n) false ≡ variant F integer n
unfolding nl_kvp_wrapper send_as
nl_kvp_wrapper-print_int {F = F} atof n address h =
    rw (IsDecimal-int (print_int n) (print_int-IsDecimal n), strtol10-print_int n h)
      (ap (variant F integer) (int_of_long-IsInt n h))
