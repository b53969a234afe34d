-- ===== src/Escape/Data/Round.antt =====
-- One round of the loop of `nl_escape_data`: what it writes, and that it writes nothing else.
use native.Mathlib.Numerals.{towards_suc}
use nlutils.Prelude.{
  ℕ, ◌+◌, ◌-◌, ◌/◌, ◌%◌, ◌<◌, ◌≤◌, ◌≡◌, refl, true, false, some, [], ◌∷◌, ◌==◌, if◌then◌else◌, ◌++◌,
  append_assoc, arith, length, Bool-cases, inl, inr,
}
use nlutils.Ctype.{Bytes, hex_digit}
use nlutils.Escape.Table.{escape_char, get_escape}
use nlutils.Escape.Data.{in_table, unprintable, Mem, poke, emit}
use nlutils.Escape.Data.Spec.{prefix, hide}

pub prefix_one : (mem : Mem) (n : ℕ) → prefix mem (n + 1) ≡ prefix mem n ++ mem n ∷ []
unfolding prefix
prefix_one mem n = simp towards_suc

prefix_two : (mem : Mem) (n : ℕ) → prefix mem (n + 2) ≡ prefix mem n ++ mem n ∷ mem (n + 1) ∷ []
unfolding prefix
prefix_two mem n = simp (towards_suc, append_assoc)

prefix_four :
    (mem : Mem) (n : ℕ)
    → prefix mem (n + 4) ≡ prefix mem n ++ mem n ∷ mem (n + 1) ∷ mem (n + 2) ∷ mem (n + 3) ∷ []
unfolding prefix
prefix_four mem n = simp (towards_suc, append_assoc)

abbrev pub update : Mem → ℕ → ℕ → Mem
update mem i v j = if j == i then v else mem j

pub poke-update :
    (size end back v i : ℕ) (mem : Mem)
    → 0 < back
    → i + back ≡ end
    → i < size
    → poke size end back v mem ≡ some (update mem i v)
unfolding poke
poke-update size end back v i mem h e l =
    let at : end - back ≡ i = omega arith in rw at (ground arith)

-- The bytes `t` stand from `n` on, and nothing else has changed.
pub record Written (t : Bytes) (n : ℕ) (mem mem' : Mem) : Type 0 where
  pub below : (j : ℕ) → j < n → mem' j ≡ mem j
  pub above : (j : ℕ) → n + length t ≤ j → mem' j ≡ mem j
  pub at :
      (mem'' : Mem)
      → ((j : ℕ) → n ≤ j → j < n + length t → mem'' j ≡ mem' j)
      → prefix mem'' (n + length t) ≡ prefix mem'' n ++ t

abbrev pub update_two : Mem → ℕ → ℕ → ℕ → Mem
update_two mem n a b = update (update mem (n + 1) b) n a

abbrev pub update_four : Mem → ℕ → ℕ → ℕ → ℕ → ℕ → Mem
update_four mem n a b c d = update (update (update (update mem n a) (n + 1) b) (n + 2) c) (n + 3) d

module _ (n : ℕ) (mem : Mem) where
  Written-one : (a : ℕ) → Written (a ∷ []) n mem (update mem n a)
  Written-one a = record {
    below = λ j h. ground arith;
    above = λ j h. ground arith;
    at = λ m h. rw (prefix_one m n, h n (omega arith) (omega arith)) (ground arith);
  }

  Written-two : (a b : ℕ) → Written (a ∷ b ∷ []) n mem (update_two mem n a b)
  Written-two a b = record {
    below = λ j h. ground arith;
    above = λ j h. ground arith;
    at = λ m h.
        rw (prefix_two m n, h n (omega arith) (omega arith), h (n + 1) (omega arith) (omega arith))
          (ground arith);
  }

  Written-four : (a b c d : ℕ) → Written (a ∷ b ∷ c ∷ d ∷ []) n mem (update_four mem n a b c d)
  Written-four a b c d = record {
    below = λ j h. ground arith;
    above = λ j h. ground arith;
    at = λ m h.
        rw
          (
            prefix_four m n,
            h n (omega arith) (omega arith),
            h (n + 1) (omega arith) (omega arith),
            h (n + 2) (omega arith) (omega arith),
            h (n + 3) (omega arith) (omega arith),
          )
          (ground arith);
  }

-- A round at the byte `c` whose output begins at `n`.
abbrev pub Round : (size c n : ℕ) → Mem → Bytes → Type 0
Round size c n mem t =
    (mem' : Mem) × (emit size c (n + length t) mem ≡ some (n, mem')) × Written t n mem mem'

module _ (size c n : ℕ) (mem : Mem) where
  Round-table :
      in_table c ≡ true → n + 2 ≤ size → Round size c n mem (escape_char ∷ get_escape c ∷ [])
  unfolding emit
  Round-table e h = (
    update_two mem n escape_char (get_escape c),
    rw
        (
          e,
          poke-update size (n + 2) 1 (get_escape c) (n + 1) mem (omega arith) (omega arith)
              (omega arith),
          poke-update size (n + 2) 2 escape_char n _ (omega arith) refl (omega arith),
        )
        (ground arith),
    Written-two n mem escape_char (get_escape c),
  )

  Round-hex :
      in_table c ≡ false
      → unprintable c ≡ true
      → n + 4 ≤ size
      → Round size c n mem (escape_char ∷ b'x' ∷ hex_digit (c / 16) ∷ hex_digit (c % 16) ∷ [])
  unfolding emit
  Round-hex e e' h = (
    update_four mem n escape_char b'x' (hex_digit (c / 16)) (hex_digit (c % 16)),
    rw
        (
          e,
          e',
          poke-update size (n + 4) 4 escape_char n mem (omega arith) refl (omega arith),
          poke-update size (n + 4) 3 b'x' (n + 1) _ (omega arith) (omega arith) (omega arith),
          poke-update size (n + 4) 2 (hex_digit (c / 16)) (n + 2) _ (omega arith) (omega arith)
              (omega arith),
          poke-update size (n + 4) 1 (hex_digit (c % 16)) (n + 3) _ (omega arith) (omega arith)
              (omega arith),
        )
        (ground arith),
    Written-four n mem escape_char b'x' (hex_digit (c / 16)) (hex_digit (c % 16)),
  )

  Round-plain :
      in_table c ≡ false → unprintable c ≡ false → n + 1 ≤ size → Round size c n mem (c ∷ [])
  unfolding emit
  Round-plain e e' h = (
    update mem n c,
    rw (e, e', poke-update size (n + 1) 1 c n mem (omega arith) refl (omega arith)) (ground arith),
    Written-one n mem c,
  )

  pub emit-hide : n + length (hide c) ≤ size → Round size c n mem (hide c)
  unfolding hide
  emit-hide = elim (Bool-cases (in_table c)) [
    | inl e ↦ rw e (Round-table e)
    | inr e ↦ elim (Bool-cases (unprintable c)) [
      | inl e' ↦ rw (e, e') (Round-hex e e')
      | inr e' ↦ rw (e, e') (Round-plain e e')
    ]
  ]
