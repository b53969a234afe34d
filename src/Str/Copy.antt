-- ===== src/Str/Copy.antt =====
-- `nl_strdup`, `nl_strncpy_term` and `nl_strndup_term` of src/str.c, on blocks of memory. A block is
-- all of its bytes; `none` is an access outside of one.
use nlutils.Prelude.{
  ℕ, zero, suc, ◌+◌, ◌<◌, ◌≤◌, ◌≡◌, refl, ap, ◌∙◌, true, false, ◌&&◌, Option, none, some, [], ◌∷◌,
  ◌++◌, set, length-set, ltb, leb, ◌==◌, if◌then◌else◌, length, take, drop, arith,
}
use nlutils.Prelude.Chain.{◌>>=◌}
use nlutils.Ctype.{Bytes, IsCString}

-- `memcpy(dest, src, n)`
unfoldable pub memcpy : (dest src : Bytes) → ℕ → Option Bytes
memcpy dest src n =
    if leb n (length dest) && leb n (length src) then some (take n src ++ drop n dest) else none

-- `dest[n] = 0`
unfoldable pub terminate : Bytes → ℕ → Option Bytes
terminate dest n = if ltb n (length dest) then some (set dest n 0) else none

unfoldable pub nl_strncpy_term : (dest src : Bytes) → ℕ → Option Bytes
nl_strncpy_term dest src n = memcpy dest src n >>= λ dest. terminate dest n

-- What `malloc` gives: NULL, or a block with what stands in it. The result is NULL, or the block.
abbrev pub filled : Option Bytes → (Bytes → Option Bytes) → Option (Option Bytes)
filled none f = some none
filled (some block) f = f block >>= λ block. some (some block)

unfoldable pub nl_strndup_term : (block : Option Bytes) → (src : Bytes) → ℕ → Option (Option Bytes)
nl_strndup_term block src n = filled block (λ s. nl_strncpy_term s src n)

-- A string is copied with its terminator; for NULL a string of no characters is made.
unfoldable pub nl_strdup : (block : Option Bytes) → (s : Option Bytes) → Option (Option Bytes)
nl_strdup block none = filled block (λ s. terminate s 0)
nl_strdup block (some str) = filled block (λ s. memcpy s (str ++ 0 ∷ []) (length str + 1))

-- The string that stands in a block.
unfoldable pub text_in : Bytes → Bytes
text_in [] = []
text_in (c ∷ s) = let rest = text_in s in if c == 0 then [] else c ∷ rest

copied : Bytes → Bytes → ℕ → Bytes
copied dest src n = set (take n src ++ drop n dest) n 0

text_in-copied :
    (dest src : Bytes) (n : ℕ)
    → IsCString (take n src)
    → n < length dest
    → n ≤ length src
    → text_in (copied dest src n) ≡ take n src
unfolding copied text_in
text_in-copied [] src n h l k = absurd (omega arith)
text_in-copied (d ∷ dest) src zero h l k = refl
text_in-copied (d ∷ dest) [] (suc n) h l k = absurd (omega arith)
text_in-copied (d ∷ dest) (c ∷ src) (suc n) h l k =
    let e : (c == 0) ≡ false = ground (arith, h.0.0) in
    rw e (ap (λ s. c ∷ s) (text_in-copied dest src n h.1 (omega arith) (omega arith)))

length-copied :
    (dest src : Bytes) (n : ℕ)
    → n ≤ length dest
    → n ≤ length src
    → length (take n src ++ drop n dest) ≡ length dest
length-copied dest src zero l k = refl
length-copied [] src (suc n) l k = absurd (omega arith)
length-copied (d ∷ dest) [] (suc n) l k = absurd (omega arith)
length-copied (d ∷ dest) (c ∷ src) (suc n) l k =
    ap suc (length-copied dest src n (omega arith) (omega arith))

-- `nl_strndup_term` writes inside of the block that malloc gives for n + 1 bytes, and the string in it is
-- the first n bytes of the source, which has so many and none of them is zero.
nl_strndup_term_lem :
    (block src : Bytes) (n : ℕ)
    → length block ≡ n + 1
    → n ≤ length src
    → IsCString (take n src)
    → (copy : Bytes) × (nl_strndup_term (some block) src n ≡ some (some copy))
      × (length copy ≡ n + 1)
      × (text_in copy ≡ take n src)
unfolding nl_strndup_term nl_strncpy_term memcpy terminate
nl_strndup_term_lem block src n size enough h =
    let fits : leb n (length block) ≡ true = ground (arith, size) in
    let there : leb n (length src) ≡ true = ground (arith, enough) in
    let same : length (take n src ++ drop n block) ≡ length block =
      length-copied block src n (omega arith) enough in
    let inside : ltb n (length (take n src ++ drop n block)) ≡ true = ground (arith, same, size) in
    (
      copied block src n,
      unfold copied in rw (fits, there, inside) refl,
      unfold copied in length-set (take n src ++ drop n block) n 0 ∙ same ∙ size,
      text_in-copied block src n h (omega arith) enough,
    )
