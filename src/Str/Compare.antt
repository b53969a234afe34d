-- ===== src/Str/Compare.antt =====
-- `nl_strstart`, `nl_strend` and `nl_strcommon` of src/str.c, on C
-- strings.
use nlutils.Prelude.{
  ℕ, zero, suc, ◌+◌, ◌-◌, ◌≤◌, ◌≡◌, ◌≢◌, ◌↔◌, refl, sym, some, [], ◌∷◌, ◌++◌, arith, ◌==◌,
  if◌then◌else◌, length, length-append, take, drop, get_elem?, take-append-drop, Bool-cases, inl,
  inr,
}
use nlutils.Prelude.Int.{ℤ, pos, sub_ℕ}
use nlutils.Ctype.{Bytes, IsCString}

-- `strcmp` and `strncmp` of the C library: the difference of the first bytes that differ.
unfoldable pub strcmp : Bytes → Bytes → ℤ
strcmp [] [] = pos 0
strcmp [] (d ∷ t) = sub_ℕ 0 d
strcmp (c ∷ s) [] = pos c
strcmp (c ∷ s) (d ∷ t) = if c == d then strcmp s t else sub_ℕ c d

unfoldable pub strncmp : Bytes → Bytes → ℕ → ℤ
strncmp s t zero = pos 0
strncmp [] [] (suc n) = pos 0
strncmp [] (d ∷ t) (suc n) = sub_ℕ 0 d
strncmp (c ∷ s) [] (suc n) = pos c
strncmp (c ∷ s) (d ∷ t) (suc n) = if c == d then strncmp s t n else sub_ℕ c d

unfoldable pub nl_strstart : (str start : Bytes) → ℤ
nl_strstart str start = strncmp str start (length start)

-- `MAX_NUM(0, strlen(str) - strlen(end))` is the subtraction that stops at 0.
unfoldable pub nl_strend : (str end : Bytes) → ℤ
nl_strend str end = strcmp (drop (length str - length end) str) end

-- `while(*a && *b && *a == *b)`
unfoldable pub strcommon_loop : (a b : Bytes) → ℕ → ℕ
strcommon_loop [] b common = common
strcommon_loop (c ∷ a) [] common = common
strcommon_loop (c ∷ a) (d ∷ b) common =
    let rest = strcommon_loop a b (common + 1) in if c == d then rest else common

unfoldable pub nl_strcommon : (a b : Bytes) → ℕ
unfolding strcommon_loop
nl_strcommon a b = strcommon_loop a b 0

sub_ℕ-zero : (a b : ℕ) → sub_ℕ a b ≡ pos 0 → a ≡ b
sub_ℕ-zero a b h = ground arith

pub strcmp-zero : (s t : Bytes) → IsCString s → IsCString t → strcmp s t ≡ pos 0 → s ≡ t
unfolding strcmp
strcmp-zero [] [] v w h = refl
strcmp-zero [] (d ∷ t) v w h = absurd (w.0.0 (sym (sub_ℕ-zero 0 d h)))
strcmp-zero (c ∷ s) [] v w h = ground arith
strcmp-zero (c ∷ s) (d ∷ t) v w h = ground (arith, strcmp-zero s t v.1 w.1, sub_ℕ-zero c d)

pub strcmp_same : (s : Bytes) → strcmp s s ≡ pos 0
unfolding strcmp
strcmp_same [] = refl
strcmp_same (c ∷ s) = ground (arith, strcmp_same s)

drop-IsCString : (n : ℕ) (s : Bytes) → IsCString s → IsCString (drop n s)
drop-IsCString zero s v = v
drop-IsCString (suc n) [] v = v
drop-IsCString (suc n) (c ∷ s) v = drop-IsCString n s v.1

drop_prefix : (p s : Bytes) → drop (length p) (p ++ s) ≡ s
drop_prefix [] s = refl
drop_prefix (c ∷ p) s = drop_prefix p s

strncmp-prefix : (s t : Bytes) → strncmp (s ++ t) s (length s) ≡ pos 0
unfolding strncmp
strncmp-prefix [] t = refl
strncmp-prefix (c ∷ s) t = ground (arith, strncmp-prefix s t)

prefix-strncmp :
    (str start : Bytes)
    → IsCString start
    → strncmp str start (length start) ≡ pos 0
    → start ++ drop (length start) str ≡ str
unfolding strncmp
prefix-strncmp str [] v h = refl
prefix-strncmp [] (d ∷ start) v h = absurd (v.0.0 (sym (sub_ℕ-zero 0 d h)))
prefix-strncmp (c ∷ str) (d ∷ start) v h =
    ground (arith, prefix-strncmp str start v.1, sub_ℕ-zero c d)

-- `nl_strstart` is 0 exactly when the string begins with `start`, which holds no zero byte.
pub nl_strstart_iff :
    (str start : Bytes)
    → IsCString start
    → (nl_strstart str start ≡ pos 0) ↔ ((rest : Bytes) × (start ++ rest ≡ str))
unfolding nl_strstart
nl_strstart_iff str start v = (
  λ h. (drop (length start) str, prefix-strncmp str start v h),
  λ (rest, e). rw (← e) (strncmp-prefix start rest),
)

-- `nl_strend` is 0 exactly when the string ends in `end`. Neither holds a zero byte.
pub nl_strend_iff :
    (str end : Bytes)
    → IsCString str
    → IsCString end
    → (nl_strend str end ≡ pos 0) ↔ ((front : Bytes) × (front ++ end ≡ str))
unfolding nl_strend
nl_strend_iff str end v w = (
  λ h.
      let k = length str - length end in
      let same : drop k str ≡ end = strcmp-zero (drop k str) end (drop-IsCString k str v) w h in
      (take k str, rw same at (take-append-drop k str)),
  λ (front, e).
      let back : length (front ++ end) - length end ≡ length front =
        omega (arith, length-append front end) in
      rw (← e, back, drop_prefix front end) (strcmp_same end),
)

strcommon_loop-suc : (a b : Bytes) (n : ℕ) → strcommon_loop a b (n + 1) ≡ suc (strcommon_loop a b n)
unfolding strcommon_loop
strcommon_loop-suc [] b n = omega arith
strcommon_loop-suc (c ∷ a) [] n = omega arith
strcommon_loop-suc (c ∷ a) (d ∷ b) n = ground (arith, strcommon_loop-suc a b (n + 1))

abbrev Common : (a b : Bytes) → ℕ → Type 0
Common a b n =
    (take n a ≡ take n b)
    × (n ≤ length a)
    × (n ≤ length b)
    × ((c : ℕ) → get_elem? a n ≡ some c → get_elem? b n ≢ some c)

strcommon_loop-Common : (a b : Bytes) → Common a b (strcommon_loop a b 0)
unfolding strcommon_loop
strcommon_loop-Common [] b = (refl, omega arith, omega arith, λ c e. cc)
strcommon_loop-Common (c ∷ a) [] = (refl, omega arith, omega arith, λ c e e'. cc)
strcommon_loop-Common (c ∷ a) (d ∷ b) = elim (Bool-cases (c == d)) [
  | inl e ↦
      let (same, la, lb, ends) = strcommon_loop-Common a b in
      let n : strcommon_loop a b (0 + 1) ≡ suc (strcommon_loop a b 0) = strcommon_loop-suc a b 0 in
      let head : c ≡ d = ground arith in
      rw (e, n) (cc (same, head), omega (arith, la), omega (arith, lb), ends)
  | inr e ↦ rw e (refl, omega arith, omega arith, λ x h h'. ground arith)
]

-- `nl_strcommon` counts the longest common beginning: both strings have the same first bytes up to
-- the count, and behind it they differ or one of them ends.
pub nl_strcommon-longest :
    (a b : Bytes)
    → (take (nl_strcommon a b) a ≡ take (nl_strcommon a b) b)
      × (nl_strcommon a b ≤ length a)
      × (nl_strcommon a b ≤ length b)
      × ((c : ℕ)
          → get_elem? a (nl_strcommon a b) ≡ some c
          → get_elem? b (nl_strcommon a b) ≢ some c)
unfolding nl_strcommon
nl_strcommon-longest a b = strcommon_loop-Common a b
