-- ===== src/Time/Arith.antt =====
-- Addition, subtraction and normalisation of timespecs.
use nlutils.Prelude.{
  ℕ, zero, some, ◌+◌, ◌≤◌, ◌&&◌, suc, ◌<◌, ◌≡◌, refl, ◌∙◌, true, false, arith, Bool-cases, inl, inr,
}
use nlutils.Prelude.Int.{◌+ℤ◌, ◌-ℤ◌, pos_part, neg_part}
use nlutils.Prelude.Loop.{while, while_inv}
use nlutils.Time.Ops.{
  Timespec, timespec, nl_timespec_to_pos, nl_timespec_from_pos, nl_negate_timespec,
  nl_normalize_timespec, nl_add_timespec, nl_sub_timespec, settle_loop, settle, fits, borrow, carry,
  too_low, too_high, out_of_range, is_neg,
}
use nlutils.Time.Value.{
  pos_value, value, IsNormal, InRange, time_laws, pos_value-to_pos, value-from_pos, value-negate,
}

-- One round of a loop keeps the value and brings the nanoseconds nearer.
pub pos_value-borrow :
    (ts : Timespec)
    → too_low ts ≡ true
    → (pos_value (borrow ts) ≡ pos_value ts)
      × (neg_part (borrow ts).tv_nsec < neg_part ts.tv_nsec)
      × (pos_part (borrow ts).tv_nsec < 1000000000)
unfolding borrow
pos_value-borrow ts h = grind time_laws

pub pos_value-carry :
    (ts : Timespec)
    → too_high ts ≡ true
    → (pos_value (carry ts) ≡ pos_value ts)
      × (pos_part (carry ts).tv_nsec < pos_part ts.tv_nsec)
      × (neg_part (carry ts).tv_nsec ≡ 0)
unfolding carry
pos_value-carry ts h = grind time_laws

-- What the loop of `nl_add_timespec` leaves: the value is kept, and the seconds stay within a bound.
abbrev Settled : (bound : ℕ) → Timespec → Timespec → Type 0
Settled bound ts t =
    (pos_value t ≡ pos_value ts)
    × InRange t
    × (pos_part t.tv_sec ≤ bound)
    × (neg_part t.tv_sec ≤ bound)

-- The seconds that a round gives or takes are paid for with nanoseconds.
carry_bound :
    (ts : Timespec) (bound : ℕ)
    → too_high ts ≡ true
    → pos_part ts.tv_sec + pos_part ts.tv_nsec ≤ bound
    → neg_part ts.tv_sec ≤ bound
    → (pos_part (carry ts).tv_sec + pos_part (carry ts).tv_nsec ≤ bound)
      × (neg_part (carry ts).tv_sec ≤ bound)
unfolding carry
carry_bound ts bound h u l = grind time_laws

borrow_bound :
    (ts : Timespec) (bound : ℕ)
    → too_low ts ≡ true
    → neg_part ts.tv_sec + neg_part ts.tv_nsec ≤ bound
    → pos_part ts.tv_sec ≤ bound
    → (neg_part (borrow ts).tv_sec + neg_part (borrow ts).tv_nsec ≤ bound)
      × (pos_part (borrow ts).tv_sec ≤ bound)
unfolding borrow
borrow_bound ts bound h u l = grind time_laws

carried :
    (fuel : ℕ) (ts : Timespec) (bound : ℕ)
    → bound < 9223372036854775808
    → neg_part ts.tv_nsec ≡ 0
    → pos_part ts.tv_nsec < fuel
    → pos_part ts.tv_sec + pos_part ts.tv_nsec ≤ bound
    → neg_part ts.tv_sec ≤ bound
    → (t : Timespec) × (settle_loop fuel carry ts ≡ some t) × Settled bound ts t
unfolding settle_loop
carried zero ts bound small z enough u l = absurd (omega arith)
carried (suc fuel) ts bound small z enough u l = elim (Bool-cases (out_of_range ts)) [
  | inr inside ↦ (ts, rw inside refl, (refl, ground (arith, inside), omega (arith, u), l))
  | inl outside ↦
      let high : too_high ts ≡ true = ground (arith, z, outside) in
      let (kept, less, zero_neg) = pos_value-carry ts high in
      let (u', l') = carry_bound ts bound high u l in
      let fit : fits (carry ts) ≡ true = ground (arith, u', l', zero_neg) in
      let (t, run, (v, range, most, least)) =
        carried fuel (carry ts) bound small zero_neg (omega (arith, less)) u' l' in
      (t, rw (outside, fit) run, (v ∙ kept, range, most, least))
]

borrowed :
    (fuel : ℕ) (ts : Timespec) (bound : ℕ)
    → 1000000000 < bound
    → bound < 9223372036854775808
    → pos_part ts.tv_nsec < 1000000000
    → neg_part ts.tv_nsec < fuel
    → neg_part ts.tv_sec + neg_part ts.tv_nsec ≤ bound
    → pos_part ts.tv_sec ≤ bound
    → (t : Timespec) × (settle_loop fuel borrow ts ≡ some t) × Settled bound ts t
unfolding settle_loop
borrowed zero ts bound big small z enough u l = absurd (omega arith)
borrowed (suc fuel) ts bound big small z enough u l = elim (Bool-cases (out_of_range ts)) [
  | inr inside ↦ (ts, rw inside refl, (refl, ground (arith, inside), l, omega (arith, u)))
  | inl outside ↦
      let low : too_low ts ≡ true = ground (arith, z, outside) in
      let (kept, less, below) = pos_value-borrow ts low in
      let (u', l') = borrow_bound ts bound low u l in
      let fit : fits (borrow ts) ≡ true = ground (arith, u', l', below) in
      let (t, run, (v, range, most, least)) =
        borrowed fuel (borrow ts) bound big small below (omega (arith, less)) u' l' in
      (t, rw (outside, fit) run, (v ∙ kept, range, most, least))
]

-- Seconds and nanoseconds are below 2 ^ 60 in size.
abbrev pub IsSmall : Timespec → Type 0
IsSmall ts =
    ((pos_part ts.tv_sec < 1152921504606846976) × (neg_part ts.tv_sec < 1152921504606846976))
    × ((pos_part ts.tv_nsec < 1152921504606846976) × (neg_part ts.tv_nsec < 1152921504606846976))

-- Nor are they larger by more than a second in the other form.
abbrev IsNearlySmall : Timespec → Type 0
IsNearlySmall ts =
    ((pos_part ts.tv_sec ≤ 1152921505606846976) × (neg_part ts.tv_sec ≤ 1152921505606846976))
    × ((pos_part ts.tv_nsec ≤ 1152921505606846976) × (neg_part ts.tv_nsec ≤ 1152921505606846976))

to_pos-IsNearlySmall : (ts : Timespec) → IsSmall ts → IsNearlySmall (nl_timespec_to_pos ts)
unfolding nl_timespec_to_pos
to_pos-IsNearlySmall ts h = grind time_laws

settled :
    (ts : Timespec)
    → pos_part ts.tv_sec + pos_part ts.tv_nsec < 9223372036854775800
    → neg_part ts.tv_sec + neg_part ts.tv_nsec < 9223372036854775800
    → (t : Timespec) × (settle ts ≡ some t) × Settled 9223372036854775800 ts t
unfolding settle
settled ts u l = elim (Bool-cases (is_neg ts.tv_nsec)) [
  | inl low ↦
      let (t, run, kept) =
        borrowed (suc (neg_part ts.tv_nsec)) ts 9223372036854775800 (omega arith) (omega arith)
          (ground (arith, low)) (omega arith) (omega (arith, l)) (omega (arith, u)) in
      (t, rw low run, kept)
  | inr high ↦
      let (t, run, kept) =
        carried (suc (pos_part ts.tv_nsec)) ts 9223372036854775800 (omega arith)
          (ground (arith, high)) (omega arith) (omega (arith, u)) (omega (arith, l)) in
      (t, rw high run, kept)
]

from_pos-fits :
    (ts : Timespec)
    → InRange ts
    → pos_part ts.tv_sec ≤ 9223372036854775800
    → neg_part ts.tv_sec ≤ 9223372036854775800
    → fits (nl_timespec_from_pos ts) ≡ true
unfolding nl_timespec_from_pos
from_pos-fits ts h u l = grind time_laws

abbrev plus : Timespec → Timespec → Timespec
plus a b = timespec (a.tv_sec +ℤ b.tv_sec) (a.tv_nsec +ℤ b.tv_nsec)

sums_below :
    (a b : Timespec)
    → IsNearlySmall a
    → IsNearlySmall b
    → (pos_part (plus a b).tv_sec + pos_part (plus a b).tv_nsec < 9223372036854775800)
      × (neg_part (plus a b).tv_sec + neg_part (plus a b).tv_nsec < 9223372036854775800)
sums_below a b h k = (grind time_laws, grind time_laws)

sums_small :
    (a b : Timespec)
    → IsNearlySmall a
    → IsNearlySmall b
    → (pos_part (plus a b).tv_sec + pos_part (plus a b).tv_nsec < 9223372036854775800)
      × (neg_part (plus a b).tv_sec + neg_part (plus a b).tv_nsec < 9223372036854775800)
      × ((fits a && fits b && fits (plus a b)) ≡ true)
sums_small a b h k =
    let (upper, lower) = sums_below a b h k in (upper, lower, ground (arith, h, k, upper, lower))

-- When all seconds and nanoseconds are below 2 ^ 60 in size, no operation of `nl_add_timespec` overflows: it
-- gives a result, whose value is the sum of the values, and which is normalised.
pub nl_add_timespec-value :
    (a b : Timespec)
    → IsSmall a
    → IsSmall b
    → (t : Timespec) × (nl_add_timespec a b ≡ some t) × (value t ≡ value a +ℤ value b) × IsNormal t
unfolding nl_add_timespec
nl_add_timespec-value a b h k =
    let a_pos = nl_timespec_to_pos a in
    let b_pos = nl_timespec_to_pos b in
    let h' = to_pos-IsNearlySmall a h in
    let k' = to_pos-IsNearlySmall b k in
    let ts = timespec (a_pos.tv_sec +ℤ b_pos.tv_sec) (a_pos.tv_nsec +ℤ b_pos.tv_nsec) in
    let (upper, lower, fit) = sums_small a_pos b_pos h' k' in
    let (t, run, (kept, range, most, least)) = settled ts upper lower in
    let (v, normal) = value-from_pos t range in
    let last = from_pos-fits t range most least in
    let sum : pos_value ts ≡ pos_value a_pos +ℤ pos_value b_pos = omega time_laws in
    (
      nl_timespec_from_pos t,
      rw (fit, run, last) refl,
      v ∙ kept ∙ sum ∙ rw (pos_value-to_pos a, pos_value-to_pos b),
      normal,
    )

negate-IsSmall :
    (ts : Timespec)
    → IsSmall ts
    → IsSmall (nl_negate_timespec ts) × (fits (nl_negate_timespec ts) ≡ true)
unfolding nl_negate_timespec
negate-IsSmall ts h = (grind time_laws, grind time_laws)

-- `nl_sub_timespec` gives a result with the difference of the values, and it is normalised, when all seconds and
-- nanoseconds are below 2 ^ 60 in size.
pub nl_sub_timespec-value :
    (a b : Timespec)
    → IsSmall a
    → IsSmall b
    → (t : Timespec) × (nl_sub_timespec a b ≡ some t) × (value t ≡ value a -ℤ value b) × IsNormal t
unfolding nl_sub_timespec
nl_sub_timespec-value a b h k =
    let (small, fit) = negate-IsSmall b k in
    let (t, run, v, normal) = nl_add_timespec-value a (nl_negate_timespec b) h small in
    let n = value-negate b in (t, rw fit run, v ∙ rw n (omega time_laws), normal)

-- `nl_normalize_timespec` keeps the value, and the result is normalised.
pub nl_normalize_timespec-value :
    (ts : Timespec)
    → (value (nl_normalize_timespec ts) ≡ value ts) × IsNormal (nl_normalize_timespec ts)
unfolding nl_normalize_timespec
nl_normalize_timespec-value ts =
    let low = nl_timespec_to_pos ts in
    let high = while (suc (neg_part low.tv_nsec)) too_low borrow low in
    let end = while (suc (pos_part high.tv_nsec)) too_high carry high in
    let (kept, stop) : (pos_value high ≡ pos_value low) × (too_low high ≡ false) =
      while_inv too_low borrow (λ t. pos_value t ≡ pos_value low) (λ t. neg_part t.tv_nsec)
        (λ t p go. let (v, less, _) = pos_value-borrow t go in (v ∙ p, less))
        (suc (neg_part low.tv_nsec)) low (omega arith) refl in
    let (kept', stop') : ((pos_value end ≡ pos_value high) × (neg_part end.tv_nsec ≡ 0))
        × (too_high end ≡ false) =
      while_inv too_high carry (λ t. (pos_value t ≡ pos_value high) × (neg_part t.tv_nsec ≡ 0))
        (λ t. pos_part t.tv_nsec)
        (λ t p go.
          let (v, less, none_below) = pos_value-carry t go in ((v ∙ p.0, none_below), less))
        (suc (pos_part high.tv_nsec)) high (omega arith) (refl, ground arith) in
    let (v, normal) = value-from_pos end (ground arith) in
    (v ∙ kept'.0 ∙ kept ∙ pos_value-to_pos ts, normal)
