-- ===== src/Escape/Table.antt =====
-- The table of src/escape.c and its two look-ups.
use nlutils.Prelude.{ℕ, ◌≡◌, ◌≢◌, [], ◌∷◌, arith, ◌==◌, if◌then◌else◌}
use nlutils.Ctype.{Bytes}

abbrev pub escape_char : ℕ
escape_char = b'\\'

-- Even places hold the character to escape, odd places its replacement.
abbrev pub esc_chars : Bytes
esc_chars =
    9 ∷ b't' ∷ 10 ∷ b'n' ∷ 13 ∷ b'r' ∷ 11 ∷ b'v' ∷ 12 ∷ b'f' ∷ b':' ∷ b':' ∷ b'"' ∷ b'"'
    ∷ escape_char ∷ escape_char ∷ []

-- `for(i = 0; i < ARRAY_SIZE(esc_chars); i += 2)`
get_escape_loop : Bytes → ℕ → ℕ
get_escape_loop (e ∷ r ∷ rest) c = if e == c then r else get_escape_loop rest c
get_escape_loop _ c = 0

unfoldable pub get_escape : ℕ → ℕ
unfolding get_escape_loop
get_escape c = get_escape_loop esc_chars c

-- `for(i = 1; i < ARRAY_SIZE(esc_chars); i += 2)`
get_original_loop : Bytes → ℕ → ℕ
get_original_loop (e ∷ r ∷ rest) c = if r == c then e else get_original_loop rest c
get_original_loop _ c = 0

unfoldable pub get_original : ℕ → ℕ
unfolding get_original_loop
get_original c = get_original_loop esc_chars c

-- The replacement of a character leads back to it, and is neither `x` nor the terminator.
pub get_original-get_escape :
    (c : ℕ) → get_escape c ≢ 0 → (get_original (get_escape c) ≡ c) × (get_escape c ≢ b'x') × (c ≢ 0)
unfolding get_escape get_original
get_original-get_escape c h = ground arith

-- A character outside the table is not the escape character.
pub escape_char-get_escape : (c : ℕ) → get_escape c ≡ 0 → c ≢ escape_char
unfolding get_escape
escape_char-get_escape c h = ground arith

-- Nor is it a quotation mark.
pub quote-get_escape : (c : ℕ) → get_escape c ≡ 0 → c ≢ b'"'
unfolding get_escape
quote-get_escape c h = ground arith
