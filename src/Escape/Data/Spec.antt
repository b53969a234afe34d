-- ===== src/Escape/Data/Spec.antt =====
-- What `nl_escape_data` should leave: the escaped form of a sequence of bytes.
use nlutils.Prelude.{
  ℕ, zero, suc, ◌/◌, ◌%◌, ◌<◌, ◌≤◌, ◌≡◌, refl, [], ◌∷◌, if◌then◌else◌, ◌++◌, append_assoc,
  append-nil, arith, length, length-append,
}
use nlutils.Ctype.{Bytes, hex_digit}
use nlutils.Escape.Table.{escape_char, get_escape}
use nlutils.Escape.Data.{in_table, unprintable, Mem}

-- The first bytes of a buffer.
unfoldable pub prefix : Mem → ℕ → Bytes
prefix mem zero = []
prefix mem (suc n) = prefix mem n ++ mem n ∷ []

-- The escaped form of one byte, and of a sequence of bytes.
unfoldable pub hide : ℕ → Bytes
hide c =
    if in_table c
    then escape_char ∷ get_escape c ∷ []
    else if unprintable c
    then escape_char ∷ b'x' ∷ hex_digit (c / 16) ∷ hex_digit (c % 16) ∷ []
    else c ∷ []

unfoldable pub escaped_data : Bytes → Bytes
escaped_data [] = []
escaped_data (c ∷ d) = hide c ++ escaped_data d

pub escaped_data-append : (d e : Bytes) → escaped_data (d ++ e) ≡ escaped_data d ++ escaped_data e
unfolding escaped_data
escaped_data-append [] e = refl
escaped_data-append (c ∷ d) e = rw (escaped_data-append d e, append_assoc)

pub escaped_data-snoc : (d : Bytes) (c : ℕ) → escaped_data (d ++ c ∷ []) ≡ escaped_data d ++ hide c
unfolding escaped_data
escaped_data-snoc d c = rw (escaped_data-append d (c ∷ []), append-nil)

pub escaped_data-prefix :
    (mem : Mem) (n : ℕ)
    → escaped_data (prefix mem (suc n)) ≡ escaped_data (prefix mem n) ++ hide (mem n)
unfolding prefix
escaped_data-prefix mem n = escaped_data-snoc (prefix mem n) (mem n)

pub prefix-suc : (mem : Mem) (n : ℕ) → prefix mem (suc n) ≡ prefix mem n ++ mem n ∷ []
unfolding prefix
prefix-suc mem n = refl

pub length-prefix : (mem : Mem) (n : ℕ) → length (prefix mem n) ≡ n
unfolding prefix
length-prefix mem zero = refl
length-prefix mem (suc n) =
    omega (arith, length-prefix mem n, length-append (prefix mem n) (mem n ∷ []))

pub prefix-same :
    (mem mem' : Mem) (n : ℕ) → ((j : ℕ) → j < n → mem' j ≡ mem j) → prefix mem' n ≡ prefix mem n
unfolding prefix
prefix-same mem mem' zero h = refl
prefix-same mem mem' (suc n) h =
    rw (prefix-same mem mem' n (λ j l. h j (omega arith)), h n (omega arith))

pub length-hide : (c : ℕ) → 0 < length (hide c)
unfolding hide
length-hide c = ground arith

pub length-escaped_data : (d : Bytes) → length d ≤ length (escaped_data d)
unfolding escaped_data
length-escaped_data [] = omega arith
length-escaped_data (c ∷ d) =
    omega (arith, length-hide c, length-escaped_data d, length-append (hide c) (escaped_data d))
