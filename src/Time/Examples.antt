-- ===== src/Time/Examples.antt =====
-- Runs of the functions of include/nl_time.h.
use nlutils.Prelude.{
  some, none, ℕ, ◌+◌, ◌*◌, ◌<◌, ◌≡◌, refl, ◌⊎◌, Bool, true, false, inl, inr, arith, ltb,
  if◌then◌else◌,
}
use nlutils.Prelude.Int.{ℤ, pos, negsuc, ◌+ℤ◌, ◌-ℤ◌}
use nlutils.Time.Ops.{
  Timespec, timespec, nl_normalize_timespec, nl_add_timespec, nl_sub_timespec, nl_compare_timespec,
  nl_negate_timespec,
}
use nlutils.Time.Value.{value, IsNormal, nl_compare_timespec-order}
use nlutils.Time.Arith.{IsSmall, nl_add_timespec-value}

-- -1.75 s and 0.5 s
abbrev a : Timespec
a = timespec (negsuc 0) (pos 750000000)

abbrev b : Timespec
b = timespec (pos 0) (pos 500000000)

a-IsNormal : IsNormal a
a-IsNormal = (omega arith, omega arith, inl refl)

b-IsNormal : IsNormal b
b-IsNormal = (omega arith, omega arith, inl refl)

add_test : nl_add_timespec a b ≡ some (timespec (negsuc 0) (pos 250000000))
unfolding nl_add_timespec nlutils.Time.Ops.nl_timespec_from_pos nlutils.Time.Ops.settle ◌+ℤ◌
    nlutils.Time.Ops.nl_timespec_to_pos ◌-ℤ◌ nlutils.Time.Ops.settle_loop
add_test = refl

sub_test : nl_sub_timespec b b ≡ some (timespec (pos 0) (pos 0))
unfolding nl_sub_timespec nl_add_timespec nlutils.Time.Ops.nl_timespec_from_pos
    nlutils.Time.Ops.settle ◌+ℤ◌ nlutils.Time.Ops.nl_timespec_to_pos nl_negate_timespec ◌-ℤ◌
    nlutils.Time.Ops.settle_loop nlutils.Time.Ops.carry
sub_test = refl

a-IsSmall : IsSmall a
a-IsSmall = ((omega arith, omega arith), (omega arith, omega arith))

b-IsSmall : IsSmall b
b-IsSmall = ((omega arith, omega arith), (omega arith, omega arith))

nl_add_timespec-value_example :
    (t : Timespec) × (nl_add_timespec a b ≡ some t) × (value t ≡ negsuc 1249999999) × IsNormal t
unfolding ◌+ℤ◌ ◌-ℤ◌ nlutils.Prelude.Int.◌*ℤ◌
nl_add_timespec-value_example = nl_add_timespec-value a b a-IsSmall b-IsSmall

-- A sum that overflows has no result.
overflow_test :
    nl_add_timespec (timespec (pos 9223372036854775807) (pos 0)) (timespec (pos 1) (pos 0)) ≡ none
unfolding nl_add_timespec nlutils.Time.Ops.nl_timespec_to_pos ◌+ℤ◌
overflow_test = refl

nl_compare_timespec-order_example :
    (nl_compare_timespec a b ≡ negsuc 0) × (nl_compare_timespec a b ≡ pos 0 → a ≡ b)
unfolding ◌-ℤ◌ nlutils.Prelude.Int.◌*ℤ◌ ◌+ℤ◌
nl_compare_timespec-order_example = nl_compare_timespec-order a b a-IsNormal b-IsNormal
