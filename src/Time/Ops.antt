-- ===== src/Time/Ops.antt =====
-- The functions on `struct timespec` of include/nl_time.h. Seconds and nanoseconds are 64-bit signed
-- integers. Where the sum of two times overflows, which its function does not handle, the behaviour is
-- undefined, and there is no result; the other functions are on times that they do not overflow on.
use nlutils.Prelude.{
  ℕ, zero, ltb, leb, ◌&&◌, suc, ◌+◌, Bool, ◌||◌, not, Option, none, some, ◌==◌, if◌then◌else◌,
}
use nlutils.Prelude.Int.{ℤ, pos, negsuc, ◌+ℤ◌, ◌-ℤ◌, pos_part, neg_part, ltb_ℤ}
use nlutils.Prelude.Loop.{while}

pub record Timespec : Type 0 where
  pub tv_sec : ℤ
  pub tv_nsec : ℤ

abbrev pub timespec : ℤ → ℤ → Timespec
timespec sec nsec = record { tv_sec = sec; tv_nsec = nsec }

abbrev pub billion : ℤ
billion = pos 1000000000

abbrev pub is_neg : ℤ → Bool
is_neg a = ltb_ℤ a (pos 0)

abbrev pub eqb_ℤ : ℤ → ℤ → Bool
eqb_ℤ a b = pos_part a + neg_part b == pos_part b + neg_part a

unfoldable pub nl_timespec_to_pos : Timespec → Timespec
nl_timespec_to_pos ts =
    if is_neg ts.tv_sec
    then timespec (ts.tv_sec -ℤ pos 1) (billion -ℤ ts.tv_nsec)
    else if is_neg ts.tv_nsec
    then timespec (ts.tv_sec -ℤ pos 1) (billion +ℤ ts.tv_nsec)
    else timespec ts.tv_sec ts.tv_nsec

unfoldable pub nl_timespec_from_pos : Timespec → Timespec
nl_timespec_from_pos ts =
    if not (eqb_ℤ ts.tv_nsec (pos 0))
    then if eqb_ℤ ts.tv_sec (negsuc 0)
      then timespec (pos 0) (ts.tv_nsec -ℤ billion)
      else if ltb_ℤ ts.tv_sec (negsuc 0)
      then timespec (ts.tv_sec +ℤ pos 1) (billion -ℤ ts.tv_nsec)
      else ts
    else ts

-- The bodies of the loops: a second is taken from, or given to, the nanoseconds.
unfoldable pub borrow : Timespec → Timespec
borrow ts = timespec (ts.tv_sec -ℤ pos 1) (ts.tv_nsec +ℤ billion)

unfoldable pub carry : Timespec → Timespec
carry ts = timespec (ts.tv_sec +ℤ pos 1) (ts.tv_nsec -ℤ billion)

abbrev pub too_low : Timespec → Bool
too_low ts = is_neg ts.tv_nsec

abbrev pub too_high : Timespec → Bool
too_high ts = not (ltb_ℤ ts.tv_nsec billion)

abbrev pub out_of_range : Timespec → Bool
out_of_range ts = too_high ts || too_low ts

-- Each loop is bounded by the size of `tv_nsec`.
unfoldable pub nl_normalize_timespec : Timespec → Timespec
nl_normalize_timespec ts =
    let low = nl_timespec_to_pos ts in
    let high = while (suc (neg_part low.tv_nsec)) too_low borrow low in
    nl_timespec_from_pos (while (suc (pos_part high.tv_nsec)) too_high carry high)

unfoldable pub nl_negate_timespec : Timespec → Timespec
nl_negate_timespec ts =
    if eqb_ℤ ts.tv_sec (pos 0)
    then timespec (pos 0) (pos 0 -ℤ ts.tv_nsec)
    else timespec (pos 0 -ℤ ts.tv_sec) ts.tv_nsec

-- A 64-bit signed integer.
abbrev pub is_long : ℤ → Bool
is_long a = ltb (pos_part a) 9223372036854775808 && leb (neg_part a) 9223372036854775808

abbrev pub fits : Timespec → Bool
fits ts = is_long ts.tv_sec && is_long ts.tv_nsec

-- The loop of `nl_add_timespec`; `body` adds `sign` and subtracts `offs`.
unfoldable pub settle_loop : ℕ → (body : Timespec → Timespec) → Timespec → Option Timespec
settle_loop zero body ts = none
settle_loop (suc fuel) body ts =
    let rest = settle_loop fuel body (body ts) in
    if not (out_of_range ts) then some ts else if fits (body ts) then rest else none

-- `sign` is -1 if the sum of the nanoseconds is negative.
unfoldable pub settle : Timespec → Option Timespec
settle ts =
    if is_neg ts.tv_nsec
    then settle_loop (suc (neg_part ts.tv_nsec)) borrow ts
    else settle_loop (suc (pos_part ts.tv_nsec)) carry ts

abbrev pub if_fits : Timespec → Option Timespec
if_fits ts = if fits ts then some ts else none

unfoldable pub nl_add_timespec : Timespec → Timespec → Option Timespec
nl_add_timespec a b =
    let a_pos = nl_timespec_to_pos a in
    let b_pos = nl_timespec_to_pos b in
    let sum = timespec (a_pos.tv_sec +ℤ b_pos.tv_sec) (a_pos.tv_nsec +ℤ b_pos.tv_nsec) in
    if fits a_pos && fits b_pos && fits sum
    then elim (settle sum) [ none ↦ none | some ts ↦ if_fits (nl_timespec_from_pos ts) ]
    else none

unfoldable pub nl_sub_timespec : Timespec → Timespec → Option Timespec
nl_sub_timespec a b =
    if fits (nl_negate_timespec b) then nl_add_timespec a (nl_negate_timespec b) else none

unfoldable pub nl_compare_timespec : Timespec → Timespec → ℤ
nl_compare_timespec a b =
    if ltb_ℤ a.tv_sec b.tv_sec
    then negsuc 0
    else if eqb_ℤ a.tv_sec b.tv_sec
    then if eqb_ℤ a.tv_nsec b.tv_nsec
      then pos 0
      else if is_neg a.tv_sec
      then if ltb_ℤ b.tv_nsec a.tv_nsec then negsuc 0 else pos 1
      else if ltb_ℤ a.tv_nsec b.tv_nsec
      then negsuc 0
      else pos 1
    else pos 1

-- The clock answers with the time, or `none` with `errno` set. The result is the return value and
-- `*target`, unless the sum overflows; `none` is a NULL target. EFAULT is 14.
unfoldable pub nl_clock_fromnow :
    (clock_gettime : Option Timespec) (errno : ℤ)
    → Option Timespec
    → Timespec
    → Option (ℤ × Option Timespec)
nl_clock_fromnow clock errno none from_now = some (pos 14, none)
nl_clock_fromnow none errno (some target) from_now = some (errno, some target)
nl_clock_fromnow (some ts) errno (some target) from_now = elim (nl_add_timespec ts from_now) [
  | none ↦ none
  | some t ↦ some (pos 0, some t)
]
