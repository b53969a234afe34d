-- ===== src/Escape/Data/RoundTrip.antt =====
-- `nl_unescape_string` undoes `nl_escape_data`, on every sequence of bytes.
use native.Mathlib.Nat.{zero-add}
use nlutils.Prelude.{
  ℕ, suc, ◌+◌, ◌-◌, ◌≤◌, ◌≡◌, ◌≢◌, refl, sym, ap, ◌∙◌, true, false, some, [], ◌∷◌, ◌++◌, arith,
  length, length-append, Bool-cases, inl, inr, ap,
}
use nlutils.Prelude.Int.{pos}
use nlutils.Ctype.{Bytes, All, IsByte}
use nlutils.Escape.Table.{escape_char, get_escape}
use nlutils.Escape.Unescape.{no_dequote, nl_unescape_string, quote}
use nlutils.Escape.Encodes.{Encodes, nil, ordinary, standard, hex}
use nlutils.Escape.RoundTrip.{unescape-Encodes}
use nlutils.Escape.Data.{
  in_table, unprintable, Mem, DataBuffer, args_of, nl_escape_data, nl_count_data_escapes,
}
use nlutils.Escape.Data.Spec.{prefix, hide, escaped_data, length-prefix, prefix-suc}
use nlutils.Escape.Data.InPlace.{
  weight, nl_escape_data-escaped, length-escaped_data-count, length-hide-weight,
}

in_table-get_escape : (c : ℕ) → in_table c ≡ true → get_escape c ≢ 0
unfolding in_table
in_table-get_escape c h = ground arith

plain_byte :
    (c : ℕ) → in_table c ≡ false → unprintable c ≡ false → (c ≢ escape_char) × (c ≢ 0) × (c ≢ quote)
unfolding in_table unprintable get_escape
plain_byte c h h' = ground arith

weights : Bytes → ℕ
unfolding weight
weights [] = 0
weights (c ∷ d) = weight c + weights d

escaped_data-Encodes : (d : Bytes) → All IsByte d → Encodes true (escaped_data d) d (weights d)
unfolding escaped_data weights hide
escaped_data-Encodes [] v = nil
escaped_data-Encodes (c ∷ d) v = elim (Bool-cases (in_table c)) [
  | inl e ↦ rw e (standard (in_table-get_escape c e) (escaped_data-Encodes d v.1))
  | inr e ↦ elim (Bool-cases (unprintable c)) [
    | inl e' ↦ rw (e, e') (hex v.0 (ground arith) (escaped_data-Encodes d v.1))
    | inr e' ↦
        let (a, b, q) = plain_byte c e e' in
        rw (e, e', zero-add) (ordinary a b q (escaped_data-Encodes d v.1))
  ]
]

length-escaped_data-weights : (d : Bytes) → length (escaped_data d) ≡ length d + weights d
unfolding escaped_data weights
length-escaped_data-weights [] = refl
length-escaped_data-weights (c ∷ d) = omega (
  arith,
  length-append (hide c) (escaped_data d),
  length-hide-weight c,
  length-escaped_data-weights d,
)

init_of_snoc : (xs ys : Bytes) (a b : ℕ) → xs ++ a ∷ [] ≡ ys ++ b ∷ [] → xs ≡ ys
init_of_snoc [] [] a b e = refl
init_of_snoc [] (y ∷ ys) a b e = absurd (omega (arith, ap length e, length-append ys (b ∷ [])))
init_of_snoc (x ∷ xs) [] a b e = absurd (omega (arith, ap length e, length-append xs (a ∷ [])))
init_of_snoc (x ∷ xs) (y ∷ ys) a b e =
    let tails : xs ++ a ∷ [] ≡ ys ++ b ∷ [] = cc in cc (init_of_snoc xs ys a b tails)

-- Taking the final zero byte away.
prefix-terminated :
    (mem : Mem) (t : Bytes)
    → prefix mem (length (t ++ 0 ∷ [])) ≡ t ++ 0 ∷ []
    → prefix mem (length (t ++ 0 ∷ []) - 1) ≡ t
prefix-terminated mem t e =
    let size : length (t ++ 0 ∷ []) ≡ suc (length t) = omega (arith, length-append t (0 ∷ [])) in
    let back : suc (length t) - 1 ≡ length t = omega arith in
    rw (size, back)
      (init_of_snoc (prefix mem (length t)) t (mem (length t)) 0
        (sym (prefix-suc mem (length t)) ∙ rw size at e))

-- The escaped data, without its final zero byte, is read back by `nl_unescape_string` when zero bytes
-- are let through: the data comes back byte for byte, and the return value is what
-- `nl_count_data_escapes` says of the data. The data fits its buffer.
pub unescape-escape_data :
    (b b' : DataBuffer)
    → b.data_size ≤ b.buf_size
    → All IsByte (prefix b.mem b.data_size)
    → nl_escape_data true false true (args_of b) ≡ some (true, args_of b')
    → nl_unescape_string (some (prefix b'.mem (b'.data_size - 1))) true no_dequote
      ≡ (pos (nl_count_data_escapes b.mem b.data_size), some (prefix b.mem b.data_size))
unescape-escape_data b b' h v e =
    let d = prefix b.mem b.data_size in
    let (mem', run, p) = nl_escape_data-escaped true b h in
    let same_mem : b'.mem ≡ mem' = cc in
    let same_size : b'.data_size ≡ length (escaped_data d ++ 0 ∷ []) = cc in
    let saved : weights d ≡ nl_count_data_escapes b.mem b.data_size = omega (
      arith,
      length-escaped_data-weights d,
      length-escaped_data-count b.mem b.data_size,
      length-prefix b.mem b.data_size,
    ) in
    rw (same_mem, same_size, prefix-terminated mem' (escaped_data d) p, ← saved)
      (unescape-Encodes true (escaped_data-Encodes d v))
