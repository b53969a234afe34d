-- ===== src/Escape/Encodes.antt =====
-- Escaped text as a relation: what a text written with the escapes of src/escape.c stands for.
-- `nl_unescape_string` reads every such text back.
use nlutils.Prelude.{
  ℕ, ◌+◌, ◌/◌, ◌%◌, ◌<◌, ◌≡◌, ◌≢◌, refl, ◌∙◌, Bool, true, not, ◌||◌, [], ◌∷◌, ◌++◌, append_assoc,
  append-nil, ◌==◌, arith,
}
use native.Mathlib.Nat.{add-zero, zero-add}
use nlutils.Ctype.{Bytes, hex_digit, strtoul16-hex_digit, isxdigit-hex_digit}
use nlutils.Escape.Table.{escape_char, get_escape, get_original-get_escape}
use nlutils.Escape.Unescape.{Unescape, quote, more, unescape_step, escape_step, hex_escape}
use nlutils.Escape.Main.{main_loop, main_loop-step}

-- `Encodes z text plain saved`: the escaped `text` stands for `plain` and is `saved` bytes longer.
-- Zero bytes may be written in hexadecimal if `z` (include_zero) holds.
pub data Encodes (z : Bool) : Bytes → Bytes → ℕ → Type 0 where
  nil : Encodes z [] [] 0
  ordinary :
      {c n : ℕ} {t d : Bytes}
      → c ≢ escape_char
      → c ≢ 0
      → c ≢ quote
      → Encodes z t d n
      → Encodes z (c ∷ t) (c ∷ d) n
  standard :
      {c n : ℕ} {t d : Bytes}
      → get_escape c ≢ 0
      → Encodes z t d n
      → Encodes z (escape_char ∷ get_escape c ∷ t) (c ∷ d) (1 + n)
  hex :
      {c n : ℕ} {t d : Bytes}
      → c < 256
      → (not (c == 0) || z) ≡ true
      → Encodes z t d n
      → Encodes z (escape_char ∷ b'x' ∷ hex_digit (c / 16) ∷ hex_digit (c % 16) ∷ t) (c ∷ d) (3 + n)

abbrev state : Bytes → Bytes → ℕ → Unescape
state t w k = record { unread = t; written = w; count = k }

module _ (z q : Bool) where
  step-ordinary :
      (c k : ℕ) (t w : Bytes)
      → c ≢ escape_char
      → c ≢ quote
      → unescape_step z q (state (c ∷ t) w k) ≡ state t (w ++ c ∷ []) k
  unfolding unescape_step
  step-ordinary c k t w h h' = ground arith

  step-standard :
      (c k : ℕ) (t w : Bytes)
      → get_escape c ≢ 0
      → unescape_step z q (state (escape_char ∷ get_escape c ∷ t) w k)
        ≡ state t (w ++ c ∷ []) (k + 1)
  unfolding unescape_step escape_step
  step-standard c k t w h = ground (arith, get_original-get_escape c h)

  step-hex :
      (c k : ℕ) (t w : Bytes)
      → c < 256
      → (not (c == 0) || z) ≡ true
      → unescape_step z q
          (state (escape_char ∷ b'x' ∷ hex_digit (c / 16) ∷ hex_digit (c % 16) ∷ t) w k)
        ≡ state t (w ++ c ∷ []) (k + 3)
  unfolding unescape_step escape_step hex_escape
  step-hex c k t w h h' = rw (
    isxdigit-hex_digit (c / 16) (omega arith),
    isxdigit-hex_digit (c % 16) (omega arith),
    strtoul16-hex_digit c h,
    h',
  )

  -- One token: the round that reads it, then the rest.
  token :
      {t : Bytes} (s : Unescape) (d rest : Bytes) (c k n m : ℕ) (w : Bytes)
      → more s ≡ true
      → unescape_step z q s ≡ state t (w ++ c ∷ []) (k + m)
      → main_loop z q (state t (w ++ c ∷ []) (k + m))
        ≡ main_loop z q (state rest ((w ++ c ∷ []) ++ d) (k + m + n))
      → main_loop z q s ≡ main_loop z q (state rest (w ++ c ∷ d) (k + (m + n)))
  token s d rest c k n m w go read tail =
      main_loop-step z q s go
      ∙ rw (read, tail, append_assoc) (let e : k + m + n ≡ k + (m + n) = omega arith in rw e)

  -- The main loop reads an escaped text and goes on with what follows it.
  pub main_loop-Encodes :
      {t d : Bytes} {n : ℕ} (w rest : Bytes) (k : ℕ)
      → Encodes z t d n
      → main_loop z q (state (t ++ rest) w k) ≡ main_loop z q (state rest (w ++ d) (k + n))
  main_loop-Encodes w rest k nil = rw (append-nil, add-zero)
  main_loop-Encodes w rest k (ordinary {c} {n} {t} {d} h₁ h₂ h₃ e) =
      token _ d rest c k n 0 w (ground arith) (rw (step-ordinary c k (t ++ rest) w h₁ h₃, add-zero))
        (main_loop-Encodes (w ++ c ∷ []) rest (k + 0) e)
      ∙ rw zero-add
  main_loop-Encodes w rest k (standard {c} {n} {t} {d} h e) =
      token _ d rest c k n 1 w refl (step-standard c k (t ++ rest) w h)
        (main_loop-Encodes (w ++ c ∷ []) rest (k + 1) e)
  main_loop-Encodes w rest k (hex {c} {n} {t} {d} h h' e) =
      token _ d rest c k n 3 w refl (step-hex c k (t ++ rest) w h h')
        (main_loop-Encodes (w ++ c ∷ []) rest (k + 3) e)
