-- ===== src/Time/Value.antt =====
-- What a timespec stands for in nanoseconds, in its two forms.
use nlutils.Prelude.{
  ℕ, suc, ◌+◌, ◌-◌, ◌*◌, ◌<◌, ◌≤◌, ◌≡◌, refl, ◌⊎◌, ◌∙◌, Bool, true, false, ◌&&◌, ◌||◌, not, ltb,
  leb, ◌==◌, if◌then◌else◌, arith, inl, inr,
}
use nlutils.Prelude.Int.{
  ℤ, pos, negsuc, ◌+ℤ◌, ◌-ℤ◌, ◌*ℤ◌, ◌≤ℤ◌, pos_part, neg_part, ltb_ℤ, sub_ℕ, +ℤ_parts, -ℤ_parts,
  eq_of_parts,
}
use nlutils.Time.Ops.{
  Timespec, billion, nl_timespec_to_pos, nl_timespec_from_pos, nl_negate_timespec,
  nl_compare_timespec,
}

-- In positive nanosecond form.
abbrev pub pos_value : Timespec → ℤ
pos_value ts = ts.tv_sec *ℤ billion +ℤ ts.tv_nsec

-- In away-from-zero form: behind negative seconds the nanoseconds count downward.
abbrev pub value : Timespec → ℤ
value ts =
    if ltb_ℤ ts.tv_sec (pos 0)
    then ts.tv_sec *ℤ billion -ℤ ts.tv_nsec
    else ts.tv_sec *ℤ billion +ℤ ts.tv_nsec

-- Less than a second of nanoseconds, and negative ones only without seconds.
abbrev pub IsNormal : Timespec → Type 0
IsNormal ts =
    (pos_part ts.tv_nsec < 1000000000)
    × (neg_part ts.tv_nsec < 1000000000)
    × ((neg_part ts.tv_nsec ≡ 0) ⊎ (ts.tv_sec ≡ pos 0))

abbrev pub InRange : Timespec → Type 0
InRange ts = (pos_part ts.tv_nsec < 1000000000) × (neg_part ts.tv_nsec ≡ 0)

pub billion_parts :
    (a : ℤ)
    → pos_part (a *ℤ billion) + neg_part a * 1000000000
      ≡ neg_part (a *ℤ billion) + pos_part a * 1000000000
unfolding ◌*ℤ◌
billion_parts a = ground arith

pub ruleset time_laws = (arith, +ℤ_parts, -ℤ_parts, eq_of_parts, billion_parts)

-- `nl_timespec_to_pos` keeps the value, whatever the timespec.
pub pos_value-to_pos : (ts : Timespec) → pos_value (nl_timespec_to_pos ts) ≡ value ts
unfolding nl_timespec_to_pos
pos_value-to_pos ts = grind time_laws

pub value-from_pos :
    (ts : Timespec)
    → InRange ts
    → (value (nl_timespec_from_pos ts) ≡ pos_value ts) × IsNormal (nl_timespec_from_pos ts)
unfolding nl_timespec_from_pos
value-from_pos ts h = grind time_laws

-- `nl_negate_timespec` negates the value, whatever the timespec.
pub value-negate : (ts : Timespec) → value (nl_negate_timespec ts) ≡ pos 0 -ℤ value ts
unfolding nl_negate_timespec
value-negate ts = grind time_laws

-- Which of the two is larger, as the answer of a comparison.
abbrev pub order : ℤ → ℤ → ℤ
order a b = if ltb_ℤ a b then negsuc 0 else if ltb_ℤ b a then pos 1 else pos 0

-- Earlier seconds make an earlier time.
value-sec :
    (a b : Timespec)
    → IsNormal a
    → IsNormal b
    → ltb_ℤ a.tv_sec b.tv_sec ≡ true
    → (ltb_ℤ (value a) (value b) ≡ true) × (ltb_ℤ (value b) (value a) ≡ false)
value-sec a b h k l = (grind time_laws, grind time_laws)

-- With the same seconds the nanoseconds decide.
compare-nsec :
    (a b : Timespec) → a.tv_sec ≡ b.tv_sec → nl_compare_timespec a b ≡ order (value a) (value b)
unfolding nl_compare_timespec
compare-nsec a b e = rw e (grind time_laws)

eq_of_zero : (a b : Timespec) → nl_compare_timespec a b ≡ pos 0 → a ≡ b
unfolding nl_compare_timespec
eq_of_zero a b h =
    let sec : a.tv_sec ≡ b.tv_sec = grind time_laws in
    let nsec : a.tv_nsec ≡ b.tv_nsec = grind time_laws in cc

sec_cases : (a b : ℤ) → (ltb_ℤ a b ≡ true) ⊎ (a ≡ b) ⊎ (ltb_ℤ b a ≡ true)
sec_cases a b = grind time_laws

-- On normalised timespecs `nl_compare_timespec` is -1, 0 or 1 as the first is before the second, at the
-- same time, or after it; and two normalised timespecs at the same time are equal.
pub nl_compare_timespec-order :
    (a b : Timespec)
    → IsNormal a
    → IsNormal b
    → (nl_compare_timespec a b ≡ order (value a) (value b))
      × (nl_compare_timespec a b ≡ pos 0 → a ≡ b)
nl_compare_timespec-order a b h k = (
  elim (sec_cases a.tv_sec b.tv_sec) [
    | inl l ↦ let (p, q) = value-sec a b h k l in rw (p) (unfold nl_compare_timespec in rw l)
    | inr (inl e) ↦ compare-nsec a b e
    | inr (inr g) ↦
        let (p, q) = value-sec b a k h g in rw (q, p) (unfold nl_compare_timespec in ground arith)
  ],
  eq_of_zero a b,
)
