-- ===== src/Str/Hex.antt =====
-- `nl_to_hex`, `nl_from_hex` and `nl_keep_only_hex` of src/str.c.
use nlutils.Prelude.{
  ℕ, suc, ◌+◌, ◌*◌, ◌/◌, ◌%◌, ◌≤◌, ◌<◌, ◌≡◌, refl, sym, ◌∙◌, Bool, true, false, ◌&&◌, Option, none,
  some, [], ◌∷◌, ◌++◌, arith, ◌==◌, if◌then◌else◌, append-nil, append_assoc, length, Bool-cases,
  inl, inr,
}
use native.Mathlib.Nat.{add-zero, zero-add}
use nlutils.Prelude.Int.{ℤ, pos, negsuc}
use nlutils.Ctype.{
  Bytes, isxdigit, tolower, strtoul16, hex_digit, hex_digit_lem, isxdigit-hex_digit,
  strtoul16-hex_digit, All, IsByte,
}

-- `for(i = 0; i < len; i++)` over the data; `out` is what has been written.
unfoldable pub to_hex_loop : Bytes → Bytes → Bytes
to_hex_loop [] out = out
to_hex_loop (c ∷ rest) out = to_hex_loop rest (out ++ hex_digit (c / 16) ∷ hex_digit (c % 16) ∷ [])

-- The text in the output buffer before the terminator.
unfoldable pub nl_to_hex : Bytes → Bytes
nl_to_hex d = to_hex_loop d []

-- `while(isxdigit(hex[0]) && isxdigit(hex[1]))`: what is written to `data`, and `count`. A second
-- digit is there whenever the first is not the terminator.
unfoldable pub from_hex_loop : Bytes → Bytes → ℕ → Bytes × ℕ
from_hex_loop [] out count = (out, count)
from_hex_loop (a ∷ []) out count = (out, count)
from_hex_loop (a ∷ b ∷ hex) out count =
    let rest = from_hex_loop hex (out ++ strtoul16 (a ∷ b ∷ []) 0 % 256 ∷ []) (count + 1) in
    if isxdigit a && isxdigit b then rest else (out, count)

-- `none` is a NULL pointer; `data` stands for its output buffer. The result is the return value and
-- what was written.
unfoldable pub nl_from_hex : Option Bytes → (has_data : Bool) → ℤ × Bytes
nl_from_hex none has_data = (negsuc 0, [])
nl_from_hex (some hex) false = (negsuc 0, [])
nl_from_hex (some hex) true = let (out, count) = from_hex_loop hex [] 0 in (pos count, out)

-- The loop works in place: `dest` never passes `str`. `out` is what stands before `dest`.
unfoldable pub keep_loop : Bytes → Bytes → Bytes
keep_loop [] out = out
keep_loop (c ∷ str) out = keep_loop str (if isxdigit c then out ++ tolower c ∷ [] else out)

unfoldable pub nl_keep_only_hex : Bytes → Bytes
nl_keep_only_hex str = keep_loop str []

-- Two digits for each byte.
unfoldable pub hex_text : Bytes → Bytes
hex_text [] = []
hex_text (c ∷ d) = hex_digit (c / 16) ∷ hex_digit (c % 16) ∷ hex_text d

to_hex_loop-hex_text : (d out : Bytes) → to_hex_loop d out ≡ out ++ hex_text d
unfolding to_hex_loop hex_text
to_hex_loop-hex_text [] out = sym (append-nil out)
to_hex_loop-hex_text (c ∷ d) out = rw (to_hex_loop-hex_text d, append_assoc)

nl_to_hex-hex_text : (d : Bytes) → nl_to_hex d ≡ hex_text d
unfolding nl_to_hex
nl_to_hex-hex_text d = to_hex_loop-hex_text d []

from_hex_loop-hex_text :
    (d rest out : Bytes) (count : ℕ)
    → All IsByte d
    → from_hex_loop (hex_text d ++ rest) out count
      ≡ from_hex_loop rest (out ++ d) (count + length d)
unfolding from_hex_loop hex_text
from_hex_loop-hex_text [] rest out count v = rw (append-nil, add-zero)
from_hex_loop-hex_text (c ∷ d) rest out count v =
    let small : c % 256 ≡ c = omega (arith, v.0) in
    let counts : count + 1 + length d ≡ count + suc (length d) = omega arith in
    rw (
      isxdigit-hex_digit (c / 16) (omega (arith, v.0)),
      isxdigit-hex_digit (c % 16) (omega arith),
      strtoul16-hex_digit c v.0,
      small,
      from_hex_loop-hex_text d rest (out ++ c ∷ []) (count + 1) v.1,
      append_assoc,
      counts,
    )

-- `nl_from_hex` undoes `nl_to_hex` on every sequence of bytes, and returns their number.
pub from_hex-to_hex :
    (d : Bytes) → All IsByte d → nl_from_hex (some (nl_to_hex d)) true ≡ (pos (length d), d)
unfolding nl_from_hex
from_hex-to_hex d v = rw (nl_to_hex-hex_text d, whole, zero-add)
  where
    whole : from_hex_loop (hex_text d) [] 0 ≡ (d, 0 + length d)
    whole = rw append-nil at (from_hex_loop-hex_text d [] [] 0 v) ∙ unfold from_hex_loop in refl

-- A lower-case hexadecimal digit.
abbrev pub IsLowerHex : ℕ → Type 0
IsLowerHex c = (isxdigit c && (tolower c == c)) ≡ true

kept : Bytes → Bytes
kept [] = []
kept (c ∷ str) = if isxdigit c then tolower c ∷ kept str else kept str

keep_loop-kept : (str out : Bytes) → keep_loop str out ≡ out ++ kept str
unfolding keep_loop kept
keep_loop-kept [] out = sym (append-nil out)
keep_loop-kept (c ∷ str) out = elim (Bool-cases (isxdigit c)) [
  | inl e ↦ rw (e, keep_loop-kept str, append_assoc)
  | inr e ↦ rw (e, keep_loop-kept str)
]

tolower-IsLowerHex : (c : ℕ) → isxdigit c ≡ true → IsLowerHex (tolower c)
unfolding isxdigit tolower
tolower-IsLowerHex c h = ground arith

kept-IsLowerHex : (str : Bytes) → All IsLowerHex (kept str) × (length (kept str) ≤ length str)
unfolding kept
kept-IsLowerHex [] = (tt, omega arith)
kept-IsLowerHex (c ∷ str) =
    ground (arith, tolower-IsLowerHex c, (kept-IsLowerHex str).0, (kept-IsLowerHex str).1)

kept_same : (str : Bytes) → All IsLowerHex str → kept str ≡ str
unfolding kept
kept_same [] v = refl
kept_same (c ∷ str) v = ground (arith, v.0, kept_same str v.1)

-- `nl_keep_only_hex` leaves lower-case hexadecimal digits only, no more than there were characters, and
-- changes nothing the second time.
pub nl_keep_only_hex-IsLowerHex :
    (str : Bytes)
    → All IsLowerHex (nl_keep_only_hex str)
      × (length (nl_keep_only_hex str) ≤ length str)
      × (nl_keep_only_hex (nl_keep_only_hex str) ≡ nl_keep_only_hex str)
unfolding nl_keep_only_hex
nl_keep_only_hex-IsLowerHex str =
    let (lower, shorter) = kept-IsLowerHex str in
    rw (keep_loop-kept str [], keep_loop-kept (kept str) [])
      (lower, shorter, kept_same (kept str) lower)

hex_digit-IsLowerHex : (n : ℕ) → n < 16 → IsLowerHex (hex_digit n)
unfolding isxdigit tolower
hex_digit-IsLowerHex n h = rw (hex_digit_lem n h) (ground arith)

hex_text-IsLowerHex : (d : Bytes) → All IsByte d → All IsLowerHex (hex_text d)
unfolding hex_text
hex_text-IsLowerHex [] v = tt
hex_text-IsLowerHex (c ∷ d) v = (
  hex_digit-IsLowerHex (c / 16) (omega (arith, v.0)),
  (hex_digit-IsLowerHex (c % 16) (omega arith), hex_text-IsLowerHex d v.1),
)

length-hex_text : (d : Bytes) → length (hex_text d) ≡ 2 * length d
unfolding hex_text
length-hex_text [] = omega arith
length-hex_text (c ∷ d) = omega (arith, length-hex_text d)

-- What `nl_to_hex` writes is kept as it is: two lower-case digits for each byte.
pub nl_keep_only_hex-to_hex :
    (d : Bytes)
    → All IsByte d
    → (nl_keep_only_hex (nl_to_hex d) ≡ nl_to_hex d) × (length (nl_to_hex d) ≡ 2 * length d)
unfolding nl_keep_only_hex
nl_keep_only_hex-to_hex d v =
    rw (nl_to_hex-hex_text d, keep_loop-kept (hex_text d) [])
      (kept_same (hex_text d) (hex_text-IsLowerHex d v), length-hex_text d)
