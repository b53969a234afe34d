-- ===== src/Escape/RoundTrip.antt =====
-- `nl_escape_string` against a description of the escaped text, and its undoing by
-- `nl_unescape_string`.
use Prim.Native.Nat.{max}
use nlutils.Prelude.{
  ℕ, ◌+◌, ◌≡◌, ◌≢◌, refl, sym, ap, ◌∙◌, Bool, true, false, [], ◌∷◌, some, Option, ◌++◌,
  append_assoc, append-nil, ◌==◌, arith, length, if◌then◌else◌, Bool-cases, inl, inr,
}
use native.Mathlib.Nat.{zero-add}
use nlutils.Prelude.Int.{pos}
use nlutils.Prelude.Loop.{while}
use nlutils.Ctype.{Bytes, IsCString}
use nlutils.Escape.Table.{escape_char, get_escape, escape_char-get_escape, quote-get_escape}
use nlutils.Escape.String.{nl_escape_string, nl_count_escapes, escape_loop, count_escapes_loop}
use nlutils.Escape.Unescape.{
  Dequote, no_dequote, quote, start_state, finish, unescape_from, nl_unescape_string, unescape_step,
}
use nlutils.Escape.Main.{main_loop, unescape_from-main_loop}
use nlutils.Escape.Encodes.{Encodes, nil, ordinary, standard, main_loop-Encodes}

-- The escaped form of a string: every character of the table behind a backslash, as its replacement.
unfoldable pub escaped : Bytes → Bytes
escaped [] = []
escaped (c ∷ s) =
    if get_escape c == 0 then c ∷ escaped s else escape_char ∷ get_escape c ∷ escaped s

escape_loop-escaped : (s out : Bytes) → escape_loop s out ≡ out ++ escaped s
unfolding escape_loop escaped
escape_loop-escaped [] out = sym (append-nil out)
escape_loop-escaped (c ∷ s) out = elim (Bool-cases (get_escape c == 0)) [
  | inl e ↦ rw (e, escape_loop-escaped s, append_assoc)
  | inr e ↦ rw (e, escape_loop-escaped s, append_assoc)
]

count_escapes_loop-add : (s : Bytes) (n : ℕ) → count_escapes_loop s n ≡ n + count_escapes_loop s 0
unfolding count_escapes_loop
count_escapes_loop-add [] n = omega arith
count_escapes_loop-add (c ∷ s) n = ground (
  arith,
  count_escapes_loop-add s n,
  count_escapes_loop-add s (n + 1),
  count_escapes_loop-add s (0 + 1),
)

nl_count_escapes-cons :
    (c : ℕ) (s : Bytes)
    → nl_count_escapes (c ∷ s) ≡ (if get_escape c == 0 then 0 else 1) + nl_count_escapes s
unfolding nl_count_escapes count_escapes_loop
nl_count_escapes-cons c s = ground (arith, count_escapes_loop-add s (0 + 1))

-- `nl_count_escapes` is the number of bytes that escaping adds.
pub length-escaped : (s : Bytes) → length (escaped s) ≡ length s + nl_count_escapes s
unfolding escaped
length-escaped [] = unfold nl_count_escapes count_escapes_loop in refl
length-escaped (c ∷ s) = ground (arith, nl_count_escapes-cons c s, length-escaped s)

-- When both allocations succeed, `nl_escape_string` returns 0, leaves the escaped string, and the
-- buffer grows exactly to what the string and its terminator need if it was smaller.
pub nl_escape_string-escaped :
    (str : Bytes) (size : ℕ)
    → nl_escape_string true true (some str) (some size)
      ≡ (true, some (escaped str), some (max size (length (escaped str) + 1)))
unfolding nl_escape_string
nl_escape_string-escaped str size = rw escape_loop-escaped (ground (arith, length-escaped str))

-- When `nl_escape_string` returns -1, the string is the one that it was given.
pub nl_escape_string-fails :
    (realloc_ok strdup_ok : Bool) (str : Option Bytes) (size : Option ℕ)
    → (nl_escape_string realloc_ok strdup_ok str size).0 ≡ false
    → (nl_escape_string realloc_ok strdup_ok str size).1 ≡ str
unfolding nl_escape_string
nl_escape_string-fails realloc_ok strdup_ok str size h = ground arith

escaped-Encodes :
    (z : Bool) (s : Bytes) → IsCString s → Encodes z (escaped s) s (nl_count_escapes s)
unfolding escaped
escaped-Encodes z [] v = unfold nl_count_escapes count_escapes_loop in nil
escaped-Encodes z (c ∷ s) v = elim (Bool-cases (get_escape c == 0)) [
  | inl e ↦
      let out : get_escape c ≡ 0 = ground arith in
      rw (nl_count_escapes-cons, e, zero-add)
        (ordinary (escape_char-get_escape c out) v.0.0 (quote-get_escape c out)
          (escaped-Encodes z s v.1))
  | inr e ↦ rw (nl_count_escapes-cons, e) (standard (ground arith) (escaped-Encodes z s v.1))
]

main_loop-nil :
    (z q : Bool) (w : Bytes) (k : ℕ)
    → main_loop z q (record { unread = []; written = w; count = k })
      ≡ record { unread = []; written = w; count = k }
unfolding while
main_loop-nil z q w k = refl

-- The trailing quotation mark is dropped and counted.
main_loop-quote :
    (z : Bool) (w : Bytes) (k : ℕ)
    → main_loop z true (record { unread = quote ∷ []; written = w; count = k })
      ≡ record { unread = []; written = w; count = k + 1 }
unfolding while unescape_step
main_loop-quote z w k = refl

unescape_from-Encodes :
    (z q : Bool) {t d : Bytes} {n : ℕ} (rest : Bytes) (k : ℕ)
    → Encodes z t d n
    → unescape_from z q (start_state (t ++ rest) k)
      ≡ main_loop z q (record { unread = rest; written = d; count = k + n })
unescape_from-Encodes z q {t} rest k e =
    unescape_from-main_loop z q (start_state (t ++ rest) k) ∙ main_loop-Encodes z q [] rest k e

-- A text that stands for `d` is read as `d`, with the bytes saved as the return value.
pub unescape-Encodes :
    (z : Bool) {t d : Bytes} {n : ℕ}
    → Encodes z t d n
    → nl_unescape_string (some t) z no_dequote ≡ (pos n, some d)
unfolding nl_unescape_string
unescape-Encodes z {t} {d} {n} e =
    ap finish (
      rw append-nil at (unescape_from-Encodes z false {t = t} [] 0 e)
      ∙ main_loop-nil z false d (0 + n))
    ∙ rw zero-add

-- `nl_unescape_string` undoes `nl_escape_string`: whatever the size of the buffer and whether or not
-- zero bytes are let through, it gives the string back and returns the number of escapes. The string
-- holds no zero byte, and the allocations succeed.
pub unescape-escape :
    (str : Bytes) (size : ℕ) (include_zero : Bool)
    → IsCString str
    → nl_unescape_string
        (nl_escape_string true true (some str) (some size)).1
        include_zero
        no_dequote
      ≡ (pos (nl_count_escapes str), some str)
unescape-escape str size z v =
    rw (nl_escape_string-escaped str size) (unescape-Encodes z (escaped-Encodes z str v))

-- Put between quotation marks, the escaped string is read back in both dequoting modes, and the two
-- marks are counted.
pub unescape-quoted :
    (str : Bytes) (include_zero : Bool) (mode : Dequote)
    → IsCString str
    → mode ≢ no_dequote
    → nl_unescape_string (some (quote ∷ escaped str ++ quote ∷ [])) include_zero mode
      ≡ (pos (nl_count_escapes str + 2), some str)
unfolding nl_unescape_string
unescape-quoted str z no_dequote v h = absurd (h refl)
unescape-quoted str z _ v h =
    ap finish (
      unescape_from-Encodes z true (quote ∷ []) 1 (escaped-Encodes z str v)
      ∙ main_loop-quote z str (1 + nl_count_escapes str))
    ∙ (let e : 1 + nl_count_escapes str + 1 ≡ nl_count_escapes str + 2 = omega arith in rw e)
