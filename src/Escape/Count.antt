-- ===== src/Escape/Count.antt =====
-- What `nl_unescape_string` returns is the number of bytes that it took out.
use nlutils.Prelude.{
  ℕ, zero, suc, ◌+◌, ◌<◌, ◌≡◌, refl, ◌∙◌, Bool, true, false, not, inl, inr, [], ◌∷◌, ◌++◌, ◌==◌,
  arith, Bool-cases, length, length-append, ap, drop, length-drop, some,
}
use nlutils.Prelude.Int.{pos}
use nlutils.Prelude.Loop.{while_inv}
use nlutils.Ctype.{Bytes, byte_at, isxdigit, IsCString}
use nlutils.Escape.Table.{escape_char, get_original}
use nlutils.Escape.Unescape.{
  Unescape, Dequote, no_dequote, dequote, if_quoted, quote, more, unescape_step, escape_step,
  hex_escape, start_state, finish, unescape_from, nl_unescape_string,
}
use nlutils.Escape.Main.{unescape_from-main_loop, main_loop, length-unescape_step}

-- Bytes written, bytes taken out and bytes still to read.
abbrev total : Unescape → ℕ
total s = length s.written + s.count + length s.unread

length-snoc : (w : Bytes) (c : ℕ) → length (w ++ c ∷ []) ≡ length w + 1
length-snoc w c = length-append w (c ∷ [])

length-snoc₂ : (w : Bytes) (c d : ℕ) → length (w ++ c ∷ d ∷ []) ≡ length w + 2
length-snoc₂ w c d = length-append w (c ∷ d ∷ [])

hex_escape-total :
    (include_zero : Bool) (s : Unescape) (digits : Bytes) (advance removed : ℕ)
    → advance ≡ suc removed
    → length (drop advance s.unread) + advance ≡ length s.unread
    → total (hex_escape include_zero s digits advance removed) ≡ total s
unfolding hex_escape
hex_escape-total z s digits advance removed e h = grind (arith, length-snoc)

escape_step-total :
    (include_zero : Bool) (str w : Bytes) (k : ℕ)
    → IsCString str
    → byte_at str 0 ≡ escape_char
    → total (escape_step include_zero (record { unread = str; written = w; count = k }))
      ≡ length w + k + length str
unfolding escape_step isxdigit get_original
escape_step-total z [] w k v h = ground arith
escape_step-total z (a ∷ []) w k v h = grind (arith, length-snoc, length-snoc₂, hex_escape-total)
escape_step-total z (a ∷ b ∷ []) w k v h =
    grind (arith, length-snoc, length-snoc₂, hex_escape-total)
escape_step-total z (a ∷ b ∷ c ∷ []) w k v h =
    grind (arith, length-snoc, length-snoc₂, hex_escape-total)
escape_step-total z (a ∷ b ∷ c ∷ d ∷ str) w k v h =
    grind (arith, length-snoc, length-snoc₂, hex_escape-total)

unescape_step-total :
    (include_zero dequoting : Bool) (s : Unescape)
    → IsCString s.unread
    → more s ≡ true
    → total (unescape_step include_zero dequoting s) ≡ total s
unfolding unescape_step
unescape_step-total z q s v h = go s.unread s.written s.count v h
  where
    go :
        (str w : Bytes) (k : ℕ)
        → IsCString str
        → not (byte_at str 0 == 0) ≡ true
        → total (unescape_step z q (record { unread = str; written = w; count = k }))
          ≡ length w + k + length str
    go [] w k v h = ground arith
    go (c ∷ str) w k v h = ground (arith, escape_step-total z (c ∷ str) w k v, length-snoc w c)

drop-IsCString : (n : ℕ) (s : Bytes) → IsCString s → IsCString (drop n s)
drop-IsCString zero s v = v
drop-IsCString (suc n) [] v = v
drop-IsCString (suc n) (c ∷ s) v = drop-IsCString n s v.1

unescape_step-IsCString :
    (include_zero dequoting : Bool) (s : Unescape)
    → IsCString s.unread
    → IsCString (unescape_step include_zero dequoting s).unread
unfolding unescape_step
unescape_step-IsCString z q s v = ground (
  arith,
  drop-IsCString 1 s.unread v,
  drop-IsCString 2 s.unread v,
  drop-IsCString 3 s.unread v,
  drop-IsCString 4 s.unread v,
)

nil_of_stop : (str : Bytes) → IsCString str → not (byte_at str 0 == 0) ≡ false → str ≡ []
nil_of_stop [] v h = refl
nil_of_stop (c ∷ str) v h = ground arith

quote_pos : (str : Bytes) → (byte_at str 0 == quote) ≡ true → 0 < length str
quote_pos [] h = ground arith
quote_pos (c ∷ str) h = omega arith

module _ (z q : Bool) where
  main_loop-inv :
      (s : Unescape)
      → IsCString s.unread
      → ((total (main_loop z q s) ≡ total s) × IsCString (main_loop z q s).unread)
        × (more (main_loop z q s) ≡ false)
  main_loop-inv s v =
      while_inv more (unescape_step z q)
        (λ (t : Unescape). (total t ≡ total s) × IsCString t.unread) (λ t. length t.unread)
        (λ t p go. (
          (unescape_step-total z q t p.1 go ∙ p.0, unescape_step-IsCString z q t p.1),
          length-unescape_step z q t go,
        ))
        (suc (length s.unread)) s (omega arith) (refl, v)

  main_loop-total :
      (s : Unescape)
      → IsCString s.unread
      → (main_loop z q s).unread ≡ []
      → length (main_loop z q s).written + (main_loop z q s).count ≡ total s
  main_loop-total s v e = let (kept, _) = main_loop-inv s v in omega (arith, kept.0, ap length e)

  -- The function reads its text to the end and accounts for every byte.
  unescape_from-total :
      (s : Unescape)
      → IsCString s.unread
      → length (unescape_from z q s).written + (unescape_from z q s).count ≡ total s
  unescape_from-total s v =
      let (kept, stop) = main_loop-inv s v in
      rw (unescape_from-main_loop z q s)
        (main_loop-total s v (nil_of_stop (main_loop z q s).unread kept.1 stop))

module _ (str : Bytes) (z : Bool) (v : IsCString str) where
  -- What the function says and leaves, with the sum that is to be shown.
  abbrev Accounted : Dequote → Type 0
  Accounted mode =
      (k : ℕ) × (out : Bytes) × (nl_unescape_string (some str) z mode ≡ (pos k, some out))
      × (length out + k ≡ length str)

  unquoted :
      (mode : Dequote)
      → nl_unescape_string (some str) z mode ≡ finish (unescape_from z false (start_state str 0))
      → Accounted mode
  unquoted mode e =
      let s = unescape_from z false (start_state str 0) in
      (s.count, s.written, e, omega (arith, unescape_from-total z false (start_state str 0) v))

  quoted :
      (mode : Dequote)
      → 0 < length str
      → nl_unescape_string (some str) z mode
        ≡ finish (unescape_from z true (start_state (drop 1 str) 1))
      → Accounted mode
  quoted mode h e =
      let s = unescape_from z true (start_state (drop 1 str) 1) in
      (
        s.count,
        s.written,
        e,
        omega (
          arith,
          unescape_from-total z true (start_state (drop 1 str) 1) (drop-IsCString 1 str v),
          length-drop 1 str,
        ),
      )

-- Whatever the text and the mode, `nl_unescape_string` ends, and its return value is the length of
-- the text less the length of the result. The text holds no zero byte.
pub nl_unescape_string-length :
    (str : Bytes) (include_zero : Bool) (mode : Dequote)
    → IsCString str
    → (k : ℕ) × (out : Bytes) × (nl_unescape_string (some str) include_zero mode
        ≡ (pos k, some out))
      × (length out + k ≡ length str)
unfolding nl_unescape_string
nl_unescape_string-length str z no_dequote v = unquoted str z v no_dequote refl
nl_unescape_string-length str z dequote v = elim (Bool-cases (byte_at str 0 == quote)) [
  | inl e ↦ quoted str z v dequote (quote_pos str e) (rw e)
  | inr e ↦ unquoted str z v dequote (rw e)
]
nl_unescape_string-length str z if_quoted v = elim (Bool-cases (byte_at str 0 == quote)) [
  | inl e ↦ quoted str z v if_quoted (quote_pos str e) (rw e)
  | inr e ↦ (0, str, rw e, omega arith)
]
