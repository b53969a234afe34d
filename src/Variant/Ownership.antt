-- ===== src/Variant/Ownership.antt =====
-- A duplicate is the owner of what was allocated for it, and of nothing else.
use nlutils.Prelude.{
  ℕ, zero, suc, ◌≤◌, ◌≡◌, ◌⊎◌, inl, inr, refl, true, false, not, ◌&&◌, Option, none, some, List, [],
  ◌∷◌, ◌==◌, if◌then◌else◌, take, length, arith, Bool-cases,
}
use nlutils.Ctype.{Bytes}
use nlutils.Variant.Value.{
  VarType, invalid, any, integer, float, string, raw_data, Pointer, RawData, VarValue, Variant,
  variant, invalid_variant,
}
use nlutils.Variant.Memory.{
  Heap, malloc, free, free_pointer, is_null, is_error, nl_copy_data, nl_duplicate_data,
  nl_destroy_data, duplicate_value, nl_duplicate_variant, nl_destroy_variant, duplicated_data,
  release_null, with_struct,
}

same : (n : ℕ) → (n == n) ≡ true
same n = ground arith

nonzero : (n : ℕ) → (suc n == 0) ≡ false
nonzero n = ground arith

abbrev pub bytes_of : Pointer Bytes → Bytes
bytes_of none = []
bytes_of (some (_, s)) = s

-- The size that is claimed is there.
abbrev pub IsBacked : RawData → Type 0
IsBacked d = d.size ≤ length (bytes_of d.contents)

abbrev pub IsCopy : RawData → RawData → Type 0
IsCopy d e = (e.size ≡ d.size) × (bytes_of e.contents ≡ take d.size (bytes_of d.contents))

-- What a heap with `l` allocated becomes: it can be given back.
abbrev Owned : {A : Type 0} → (destroy : A → Heap → Option Heap) → List ℕ → A × Heap → Type 0
Owned destroy l (x, h) = (k : Heap) × (destroy x h ≡ some k) × (k.live ≡ l)

abbrev heap : List (Option ℕ) → List ℕ → Heap
heap answers l = record { answers = answers; live = l }

abbrev raw : ℕ → Pointer Bytes → RawData
raw n p = record { size = n; contents = p }

free_first :
    (a : ℕ) (answers : List (Option ℕ)) (l : List ℕ)
    → free a (heap answers (a ∷ l)) ≡ some (heap answers l)
free_first a answers l = rw (same a) refl

abbrev CopiedData : List ℕ → RawData → RawData × Heap → Type 0
CopiedData l d (e, h) =
    ((is_error e ≡ true) × (h.live ≡ l))
    ⊎ ((is_error e ≡ false) × IsCopy d e × Owned (λ p. free_pointer p) l (e.contents, h))

nl_copy_data-Copied :
    (n : ℕ) (p : Pointer Bytes) (answers : List (Option ℕ)) (l : List ℕ)
    → CopiedData l (raw n p) (nl_copy_data (raw n p) (heap answers l))
unfolding nl_copy_data
nl_copy_data-Copied zero none answers l = inr (refl, (refl, refl), (heap answers l, refl, refl))
nl_copy_data-Copied (suc n) none answers l = rw (nonzero n) (inl (refl, refl))
nl_copy_data-Copied zero (some (a, s)) answers l =
    inr (refl, (refl, refl), (heap answers l, refl, refl))
nl_copy_data-Copied (suc n) (some (a, s)) [] l = rw (nonzero n) (inl (refl, refl))
nl_copy_data-Copied (suc n) (some (a, s)) (none ∷ rest) l = rw (nonzero n) (inl (refl, refl))
nl_copy_data-Copied (suc n) (some (a, s)) (some b ∷ rest) l =
    rw (nonzero n) (inr (ground arith, (refl, refl), (heap rest l, free_first b rest l, refl)))

-- What a duplicate of `d` may be: NULL with nothing allocated, or a copy that can be given back.
abbrev DuplicatedData : List ℕ → RawData → Option (Pointer RawData × Heap) → Type 0
DuplicatedData l d none = ⊥
DuplicatedData l d (some (none, h)) = h.live ≡ l
DuplicatedData l d (some (some (b, e), h)) = IsCopy d e × Owned nl_destroy_data l (some (b, e), h)

release-Duplicated :
    (a : ℕ) (l : List ℕ) (d : RawData) (h : Heap)
    → h.live ≡ a ∷ l
    → DuplicatedData l d (release_null a h)
release-Duplicated a l d h e = rw (e, same a) refl

destroy-Owned :
    (a : ℕ) (l : List ℕ) (e : RawData) (h : Heap)
    → Owned (λ p. free_pointer p) (a ∷ l) (e.contents, h)
    → Owned nl_destroy_data l (some (a, e), h)
unfolding nl_destroy_data
destroy-Owned a l e h (k, freed, live) = (heap k.answers l, rw (freed, live, same a) refl, refl)

keep-Duplicated :
    (a : ℕ) (l : List ℕ) (d e : RawData) (h : Heap)
    → CopiedData (a ∷ l) d (e, h)
    → DuplicatedData l d (if is_error e then release_null a h else some (some (a, e), h))
keep-Duplicated a l d e h (inl (bad, live)) = rw bad (release-Duplicated a l d h live)
keep-Duplicated a l d e h (inr (good, copy, owned)) = rw good (copy, destroy-Owned a l e h owned)

-- The part behind the first test.
answered :
    (n : ℕ) (p : Pointer Bytes) (answers : List (Option ℕ)) (l : List ℕ)
    → DuplicatedData l (raw n p) (with_struct (raw n p) (malloc (heap answers l)))
unfolding with_struct
answered n p [] l = refl
answered n p (none ∷ rest) l = refl
answered n p (some a ∷ rest) l =
    keep-Duplicated a l (raw n p) _ _ (nl_copy_data-Copied n p rest (a ∷ l))

nl_duplicate_data-Duplicated :
    (b n : ℕ) (p : Pointer Bytes) (answers : List (Option ℕ)) (l : List ℕ)
    → DuplicatedData l (raw n p) (nl_duplicate_data (some (b, raw n p)) (heap answers l))
unfolding nl_duplicate_data
nl_duplicate_data-Duplicated b n p answers l = elim (Bool-cases (not (n == 0) && is_null p)) [
  | inl e ↦ rw (e, DuplicatedData) refl
  | inr e ↦ rw (e, DuplicatedData) (answered n p answers l)
]

module _ (F : Type 0) where
  -- The same type with the same contents.
  abbrev pub IsSameValue : (t : VarType) → VarValue F t → VarValue F t → Type 0
  IsSameValue string none none = Unit
  IsSameValue string (some (_, s)) (some (_, s')) = s' ≡ s
  IsSameValue string _ _ = ⊥
  IsSameValue raw_data none none = Unit
  IsSameValue raw_data (some (_, d)) (some (_, e)) = IsCopy d e
  IsSameValue raw_data _ _ = ⊥
  IsSameValue t x y = y ≡ x

  abbrev pub IsDuplicate : Variant F → Variant F → Type 0
  IsDuplicate v w =
      (x : VarValue F v.type) × (w ≡ variant F v.type x) × IsSameValue v.type v.value x

  -- What a call of `nl_duplicate_variant` may do, where `l` is allocated.
  abbrev Duplicated : List ℕ → Variant F → Option (Variant F × Heap) → Type 0
  Duplicated l v none = ⊥
  Duplicated l v (some (w, h)) =
      Owned (nl_destroy_variant F) l (w, h)
      × (((w ≡ invalid_variant F) × (h.live ≡ l)) ⊎ IsDuplicate v w)

  string-Duplicated :
      (b : ℕ) (s : Bytes) (answers : List (Option ℕ)) (l : List ℕ)
      → Duplicated l
          (variant F string (some (b, s)))
          (duplicate_value F string (some (b, s)) (heap answers l))
  unfolding nl_destroy_variant
  string-Duplicated b s [] l = ((_, refl, refl), inl (refl, refl))
  string-Duplicated b s (none ∷ rest) l = ((_, refl, refl), inl (refl, refl))
  string-Duplicated b s (some a ∷ rest) l =
      ((heap rest l, free_first a rest l, refl), inr (some (a, s), refl, refl))

  data-Duplicated :
      (b : ℕ) (d : RawData) (r : Option (Pointer RawData × Heap)) (l : List ℕ)
      → DuplicatedData l d r
      → Duplicated l (variant F raw_data (some (b, d))) (duplicated_data F r)
  unfolding nl_destroy_variant
  data-Duplicated b d none l h = h
  data-Duplicated b d (some (none, k)) l h = ((k, refl, h), inl (refl, h))
  data-Duplicated b d (some (some (a, e), k)) l (copy, owned) =
      (owned, inr (some (a, e), refl, copy))

  duplicate_value-Duplicated :
      (t : VarType) (x : VarValue F t) (answers : List (Option ℕ)) (l : List ℕ)
      → Duplicated l (variant F t x) (duplicate_value F t x (heap answers l))
  unfolding nl_destroy_variant nl_destroy_data
  duplicate_value-Duplicated string none answers l = ((_, refl, refl), inr (none, refl, tt))
  duplicate_value-Duplicated string (some (b, s)) answers l = string-Duplicated b s answers l
  duplicate_value-Duplicated raw_data none answers l = ((_, refl, refl), inr (none, refl, tt))
  duplicate_value-Duplicated raw_data (some (b, d)) answers l =
      data-Duplicated b d _ l (nl_duplicate_data-Duplicated b d.size d.contents answers l)
  duplicate_value-Duplicated invalid x answers l = ((_, refl, refl), inr (x, refl, refl))
  duplicate_value-Duplicated any x answers l = ((_, refl, refl), inr (x, refl, refl))
  duplicate_value-Duplicated integer x answers l = ((_, refl, refl), inr (x, refl, refl))
  duplicate_value-Duplicated float x answers l = ((_, refl, refl), inr (x, refl, refl))

  unpack :
      (l : List ℕ) (v : Variant F) (r : Option (Variant F × Heap))
      → Duplicated l v r
      → (w : Variant F) × (k m : Heap) × (r ≡ some (w, k))
        × (nl_destroy_variant F w k ≡ some m)
        × (m.live ≡ l)
        × (((w ≡ invalid_variant F) × (k.live ≡ l)) ⊎ IsDuplicate v w)
  unpack l v none h = absurd h
  unpack l v (some (w, k)) ((m, e, live), how) = (w, k, m, refl, e, live, how)

  -- For every variant and every run of the allocator: `nl_duplicate_variant` frees nothing that it may
  -- not free, and `nl_destroy_variant` of the result leaves exactly what was allocated before. The result
  -- is a variant of the same type with the same contents, or it is invalid and nothing is allocated for
  -- it.
  pub nl_duplicate_variant-IsDuplicate :
      (v : Variant F) (h : Heap)
      → (w : Variant F) × (k m : Heap) × (nl_duplicate_variant F v h ≡ some (w, k))
        × (nl_destroy_variant F w k ≡ some m)
        × (m.live ≡ h.live)
        × (((w ≡ invalid_variant F) × (k.live ≡ h.live)) ⊎ IsDuplicate v w)
  unfolding nl_duplicate_variant
  nl_duplicate_variant-IsDuplicate v h =
      unpack h.live v (nl_duplicate_variant F v h)
        (duplicate_value-Duplicated v.type v.value h.answers h.live)
