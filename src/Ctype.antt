-- ===== src/Ctype.antt =====
-- Bytes, C strings, and what the program uses of <ctype.h> and <stdlib.h> in the "C" locale. A `char` is the byte
-- that it holds, below 256. A C string is the list of its bytes before the terminator.
pub mod Number
pub mod Signed
use Prim.Native.Char.{code}
use Prim.Native.String.{String}
use nlutils.Prelude.{
  ℕ, zero, suc, ◌+◌, ◌-◌, ◌*◌, ◌/◌, ◌%◌, ◌≡◌, ◌≢◌, ◌<◌, refl, Bool, true, ◌&&◌, ◌||◌, List, [], ◌∷◌,
  arith, ltb, leb, ◌==◌, if◌then◌else◌, get_or, ◌++◌, ==_iff,
}

abbrev pub Bytes : Type 0
Bytes = List ℕ

-- The code points of a literal: its bytes, if it is ASCII.
abbrev pub codes : String → Bytes
codes String.[] = []
codes (String.◌∷◌ c s) = code c ∷ codes s

-- `s[i]` for an index up to the length of `s`: the terminator reads as 0.
abbrev pub byte_at : Bytes → ℕ → ℕ
byte_at s i = get_or s i 0

unfoldable pub isdigit : ℕ → Bool
isdigit c = leb b'0' c && leb c b'9'

unfoldable pub isxdigit : ℕ → Bool
unfolding isdigit
isxdigit c = isdigit c || leb b'a' c && leb c b'f' || leb b'A' c && leb c b'F'

unfoldable pub isalnum : ℕ → Bool
unfolding isdigit
isalnum c = isdigit c || leb b'a' c && leb c b'z' || leb b'A' c && leb c b'Z'

unfoldable pub isspace : ℕ → Bool
isspace c = c == b' ' || leb 9 c && leb c 13

unfoldable pub tolower : ℕ → ℕ
tolower c = if leb b'A' c && leb c b'Z' then c + 32 else c

-- The value of one hexadecimal digit.
unfoldable pub digit_value : ℕ → ℕ
digit_value c = if leb c b'9' then c - b'0' else if leb c b'F' then c - b'A' + 10 else c - b'a' + 10

-- `strtoul(s, NULL, 16)` of a text of hexadecimal digits.
unfoldable pub strtoul16 : Bytes → ℕ → ℕ
unfolding digit_value
strtoul16 [] n = n
strtoul16 (c ∷ s) n = strtoul16 s (n * 16 + digit_value c)

-- `hex_digits[d]` of "0123456789abcdef".
unfoldable pub hex_digit : ℕ → ℕ
hex_digit d = byte_at (codes "0123456789abcdef") d

module _ {ℓ κ} {A : Type ℓ} (P : A → Type κ) where
  abbrev pub All : List A → Type κ
  All [] = Unit
  All (x ∷ xs) = P x × All xs

  pub All-append : (xs ys : List A) → All xs → All ys → All (xs ++ ys)
  All-append [] ys _ hy = hy
  All-append (x ∷ xs) ys (px, hx) hy = (px, All-append xs ys hx hy)

abbrev pub IsByte : ℕ → Type 0
IsByte c = c < 256

-- The bytes of a C string: none is the terminator.
abbrev pub IsCString : Bytes → Type 0
IsCString = All (λ c. (c ≢ 0) × (c < 256))

unfoldable pub all_below : ℕ → (ℕ → Bool) → Bool
all_below zero p = true
all_below (suc n) p = p n && all_below n p

pub all_below_lem : (n : ℕ) (p : ℕ → Bool) (x : ℕ) → all_below n p ≡ true → x < n → p x ≡ true
unfolding all_below
all_below_lem zero p x h lt = absurd (omega arith)
all_below_lem (suc n) p x h lt = ground (arith, all_below_lem n p x)

abbrev digit_form : ℕ → ℕ
digit_form d = if ltb d 10 then b'0' + d else b'a' + d - 10

hex_digit_table : all_below 16 (λ d. hex_digit d == digit_form d) ≡ true
unfolding all_below hex_digit
hex_digit_table = refl

-- The table of digits in closed form.
pub hex_digit_lem : (d : ℕ) → d < 16 → hex_digit d ≡ (if ltb d 10 then b'0' + d else b'a' + d - 10)
hex_digit_lem d h = (==_iff _ _).0 (all_below_lem 16 _ d hex_digit_table h)

pub isxdigit-hex_digit : (d : ℕ) → d < 16 → isxdigit (hex_digit d) ≡ true
unfolding isxdigit
isxdigit-hex_digit d h = rw (hex_digit_lem d h) (ground arith)

-- A byte is read back from its two digits.
pub strtoul16-hex_digit :
    (c : ℕ) → c < 256 → strtoul16 (hex_digit (c / 16) ∷ hex_digit (c % 16) ∷ []) 0 ≡ c
unfolding strtoul16
strtoul16-hex_digit c h =
    rw (hex_digit_lem (c / 16) (omega arith), hex_digit_lem (c % 16) (omega arith)) (ground arith)
