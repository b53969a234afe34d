-- ===== src/Prelude/Loop.antt =====
-- `while (test s) s = body s;` with a bound on its rounds.
use nlutils.Prelude.{ℕ, zero, suc, ◌<◌, ◌≡◌, Bool, true, false, arith}

unfoldable pub while {ℓ} : {S : Type ℓ} → (rounds : ℕ) → (S → Bool) → (S → S) → S → S
while zero go_on round state = state
while (suc rounds) go_on round state = elim (go_on state) [
  | false ↦ state
  | true ↦ while rounds go_on round (round state)
]

module _ {ℓ} {S : Type ℓ} (go_on : S → Bool) (round : S → S) where
  pub while-step :
      (rounds : ℕ) (state : S)
      → go_on state ≡ true
      → while (suc rounds) go_on round state ≡ while rounds go_on round (round state)
  unfolding while
  while-step rounds state h = ground arith

  pub while-stop :
      (rounds : ℕ) (state : S) → go_on state ≡ false → while rounds go_on round state ≡ state
  unfolding while
  while-stop zero state h = ground arith
  while-stop (suc rounds) state h = ground arith

  -- A property that every round keeps, while it makes the rest smaller, holds where the loop ends, and
  -- the loop ends because its test fails if there are more rounds than the rest is large.
  module _ {κ} (Holds : S → Type κ) (rest : S → ℕ)
      (keeps : (state : S)
        → Holds state
        → go_on state ≡ true
        → Holds (round state) × (rest (round state) < rest state)) where
    pub while_inv :
        (rounds : ℕ) (state : S)
        → rest state < rounds
        → Holds state
        → Holds (while rounds go_on round state) × (go_on (while rounds go_on round state) ≡ false)
    unfolding while
    while_inv zero state small h = absurd (omega arith)
    while_inv (suc rounds) state small h =
        ground (arith, keeps state h, while_inv rounds (round state))
