-- ===== src/Str/Search.antt =====
-- `nl_strnpbrk` and `nl_strcount` of src/str.c, on C strings.
use nlutils.Prelude.{
  ℕ, zero, suc, ◌+◌, ◌<◌, ◌≡◌, Bool, true, false, Option, none, some, [], ◌∷◌, arith, ltb, ◌==◌,
  if◌then◌else◌, length, Bool-cases, inl, inr,
}
use nlutils.Ctype.{Bytes, byte_at}

-- `while(*tmp_a != 0)`
unfoldable pub accepts : Bytes → ℕ → Bool
accepts [] c = false
accepts (a ∷ accept) c = if c == a then true else accepts accept c

-- The index of the result, counted from `count`; the first argument is what is left at `str + count`.
unfoldable pub strnpbrk_loop : Bytes → (accept : Bytes) → (count size : ℕ) → Option ℕ
strnpbrk_loop [] accept count size = none
strnpbrk_loop (c ∷ str) accept count size =
    let rest = strnpbrk_loop str accept (count + 1) size in
    if ltb count size then (if accepts accept c then some count else rest) else none

unfoldable pub nl_strnpbrk : Bytes → (accept : Bytes) → (size : ℕ) → Option ℕ
unfolding accepts strnpbrk_loop
nl_strnpbrk str accept size = strnpbrk_loop str accept 0 size

unfoldable pub strcount_loop : Bytes → ℕ → ℕ → ℕ
strcount_loop [] c count = count
strcount_loop (d ∷ str) c count = strcount_loop str c (if d == c then count + 1 else count)

unfoldable pub nl_strcount : Bytes → ℕ → ℕ
unfolding strcount_loop
nl_strcount str c = strcount_loop str c 0

-- Where the loop stops, with `count` bytes behind it: nothing is accepted before that place.
abbrev Found : (str accept : Bytes) → (count size : ℕ) → Option ℕ → Type 0
Found str accept count size none =
    (i : ℕ) → count + i < size → i < length str → accepts accept (byte_at str i) ≡ false
Found str accept count size (some n) =
    (i : ℕ) × (n ≡ count + i)
    × (n < size)
    × (i < length str)
    × (accepts accept (byte_at str i) ≡ true)
    × ((j : ℕ) → j < i → accepts accept (byte_at str j) ≡ false)

module _ (c : ℕ) (str accept : Bytes) (count size : ℕ) (miss : accepts accept c ≡ false) where
  Found-cons :
      (o : Option ℕ) → Found str accept (count + 1) size o → Found (c ∷ str) accept count size o
  Found-cons none f = go
    where
      go :
          (i : ℕ)
          → count + i < size
          → i < length (c ∷ str)
          → accepts accept (byte_at (c ∷ str) i) ≡ false
      go zero h l = miss
      go (suc i) h l = f i (omega arith) (omega arith)
  Found-cons (some n) (i, e, h, l, hit, before) = (suc i, omega arith, h, omega arith, hit, go)
    where
      go : (j : ℕ) → j < suc i → accepts accept (byte_at (c ∷ str) j) ≡ false
      go zero l' = miss
      go (suc j) l' = before j (omega arith)

strnpbrk_loop-Found :
    (str accept : Bytes) (count size : ℕ)
    → Found str accept count size (strnpbrk_loop str accept count size)
unfolding strnpbrk_loop
strnpbrk_loop-Found [] accept count size = λ i h l. absurd (omega arith)
strnpbrk_loop-Found (c ∷ str) accept count size = elim (Bool-cases (ltb count size)) [
  | inl e ↦ elim (Bool-cases (accepts accept c)) [
    | inl hit ↦
        rw (e, hit) (0, omega arith, ground arith, omega arith, hit, λ j l. absurd (omega arith))
    | inr miss ↦
        rw (e, miss)
          (Found-cons c str accept count size miss _
            (strnpbrk_loop-Found str accept (count + 1) size))
  ]
  | inr e ↦ rw e (λ i h l. absurd (ground arith))
]

-- The same from the start of the string.
abbrev pub FirstAccepted : (str accept : Bytes) → (size : ℕ) → Option ℕ → Type 0
FirstAccepted str accept size none =
    (i : ℕ) → i < size → i < length str → accepts accept (byte_at str i) ≡ false
FirstAccepted str accept size (some n) =
    (n < size)
    × (n < length str)
    × (accepts accept (byte_at str n) ≡ true)
    × ((i : ℕ) → i < n → accepts accept (byte_at str i) ≡ false)

Found-FirstAccepted :
    (str accept : Bytes) (size : ℕ) (o : Option ℕ)
    → Found str accept 0 size o
    → FirstAccepted str accept size o
Found-FirstAccepted str accept size none f = λ i h. f i (omega arith)
Found-FirstAccepted str accept size (some n) (i, e, h, l, hit, before) =
    let same : n ≡ i = omega arith in (h, omega arith, rw same hit, λ j l'. before j (omega arith))

-- `nl_strnpbrk` finds the first byte of the string that is in `accept`, among the first `size`: it
-- returns its place, which lies within the string and the size and has no accepted byte before it, or
-- NULL if no byte within both is accepted.
pub nl_strnpbrk-FirstAccepted :
    (str accept : Bytes) (size : ℕ) → FirstAccepted str accept size (nl_strnpbrk str accept size)
unfolding nl_strnpbrk
nl_strnpbrk-FirstAccepted str accept size =
    Found-FirstAccepted str accept size _ (strnpbrk_loop-Found str accept 0 size)
