-- ===== src/Variant/Display.antt =====
-- `nl_variant_to_string` and `nl_display_variant`.
use nlutils.Prelude.{
  ℕ, ◌+◌, ◌-◌, ◌≡◌, refl, ◌∙◌, ap, Bool, true, false, ◌&&◌, leb, ltb, some, none, [], ◌∷◌, take,
  length, arith, if◌then◌else◌, Bool-cases, inl, inr,
}
use nlutils.Prelude.Int.{pos, negsuc}
use nlutils.Ctype.{Bytes}
use nlutils.Ctype.Signed.{int_max, int_of_long}
use nlutils.Variant.Value.{
  VarType, invalid, any, integer, float, string, raw_data, FloatOps, VarValue, Variant,
}
use nlutils.Variant.Text.{
  snprintf, with_terminator, display_value, store_value, nl_display_variant, nl_store_variant,
  nl_variant_to_string,
}

take_all : (s : Bytes) → take (length s) s ≡ s
take_all [] = refl
take_all (c ∷ s) = ap (λ t. c ∷ t) (take_all s)

-- A buffer with room for the terminator holds the whole text.
whole_text : (s : Bytes) → take (length s + 1 - 1) s ≡ s
whole_text s = let e : length s + 1 - 1 ≡ length s = omega arith in rw e (take_all s)

counted :
    (ok : Bool) (n : ℕ) (s : Bytes)
    → (ok && ltb (length s) int_max) ≡ true
    → with_terminator (snprintf ok n s) ≡ (take (n - 1) s, pos (length s + 1))
unfolding with_terminator int_of_long
counted ok n s h =
    let fits : (ok && leb (length s) int_max) ≡ true = ground (arith, h) in
    rw fits (ground (arith, h))

not_counted :
    (ok : Bool) (n : ℕ) (s : Bytes)
    → (ok && ltb (length s) int_max) ≡ false
    → (m : ℕ) × ((with_terminator (snprintf ok n s)).1 ≡ negsuc m)
unfolding with_terminator int_of_long
not_counted ok n s h = elim (Bool-cases (ok && leb (length s) int_max)) [
  | inr fails ↦ (0, rw fails refl)
  | inl fits ↦
      let e : length s ≡ int_max = ground (arith, h, fits) in (int_max, rw fits (rw e refl))
]

module _ {F : Type 0} (ops : FloatOps F) where
  store_value-display :
      (ok : Bool) (n : ℕ) (t : VarType) (x : VarValue F t)
      → store_value ops ok n t x ≡ snprintf ok n (display_value ops t x)
  unfolding store_value display_value
  store_value-display ok n string none = refl
  store_value-display ok n string (some (_, s)) = refl
  store_value-display ok n invalid x = refl
  store_value-display ok n any x = refl
  store_value-display ok n integer x = refl
  store_value-display ok n float x = refl
  store_value-display ok n raw_data x = refl

  module _ (v : Variant F) where
    abbrev text : Bytes
    text = nl_display_variant ops v

    stores :
        (ok : Bool) (n : ℕ) → nl_store_variant ops ok n v ≡ with_terminator (snprintf ok n text)
    unfolding nl_store_variant nl_display_variant
    stores ok n = rw (store_value-display ok n v.type v.value) refl

    -- `nl_variant_to_string` makes a string of the whole text that `nl_display_variant` prints, for every
    -- variant, if the memory is there, both calls of `snprintf` print, and the length of the text with its
    -- terminator is an `int`. In every other case it returns NULL.
    pub nl_variant_to_string-display :
        (malloc_ok first_ok second_ok : Bool)
        → nl_variant_to_string ops malloc_ok first_ok second_ok v ≡ (
            if malloc_ok
              && (first_ok && second_ok)
              && ltb (length (nl_display_variant ops v)) int_max
            then some (nl_display_variant ops v)
            else none)
    unfolding nl_variant_to_string
    nl_variant_to_string-display m a b = elim (Bool-cases (a && ltb (length text) int_max)) [
      | inr fails ↦
          let (k, e) = not_counted a 0 text fails in
          let off : (m && (a && b) && ltb (length text) int_max) ≡ false = ground (arith, fails) in
          rw (nl_variant_to_string, stores a 0, e, off) refl
      | inl fits ↦ elim (Bool-cases m) [
        | inr no_space ↦ rw (nl_variant_to_string, stores a 0, counted a 0 text fits, no_space) refl
        | inl space ↦ elim (Bool-cases (b && ltb (length text) int_max)) [
          | inr fails ↦
              let (k, e) = not_counted b (length text + 1) text fails in
              let off : (m && (a && b) && ltb (length text) int_max) ≡ false =
                ground (arith, fails) in
              rw
                (
                  nl_variant_to_string,
                  stores a 0,
                  counted a 0 text fits,
                  off,
                  space,
                  stores b (length text + 1),
                  e,
                )
                refl
          | inl again ↦
              let on : (m && (a && b) && ltb (length text) int_max) ≡ true =
                ground (arith, fits, again) in
              let whole : take (length text + 1 - 1) text ≡ text = whole_text text in
              let full : nl_store_variant ops b (length text + 1) v
                  ≡ (text, pos (length text + 1)) =
                stores b (length text + 1)
                ∙ counted b (length text + 1) text again
                ∙ rw whole refl in
              rw (nl_variant_to_string, stores a 0, counted a 0 text fits, on, space, full, full)
                refl
        ]
      ]
    ]
