-- ===== src/Fifo/Iterate.antt =====
-- Looking at the queue without changing it: the ends, iteration, and look-up by index.
use nlutils.Prelude.{
  ℕ, suc, zero, ◌-◌, ◌<◌, ◌≡◌, ◌≢◌, refl, true, false, some, [], ◌∷◌, ltb, ◌==◌, if◌then◌else◌,
  length, arith, Bool-cases, inl, inr,
}
use nlutils.Prelude.Int.{ℤ, pos, negsuc}
use nlutils.Fifo.Store.{Ptr, null, Fifo, Store, ok}
use nlutils.Fifo.Segment.{
  Elems, Cells, last_of, element, Segment, IsFifo, eq_of_nil, uncons, load-ok, load_fifo-ok,
  not_null, relink,
}
use nlutils.Fifo.Ops.{nl_fifo_peek, nl_fifo_peek_last}
use nlutils.Fifo.Queue.{nonempty}
use nlutils.Fifo.Walk.{
  Iter, start, at, yield_at, iter_next, nl_fifo_next, skip_items, peek_from_start, normalize_index,
  nl_fifo_peek_index,
}

-- The item of the element at a place, NULL behind the end.
unfoldable pub item_at : Cells → ℕ → Ptr
item_at [] i = null
item_at ((a, d) ∷ xs) zero = d
item_at ((a, d) ∷ xs) (suc i) = item_at xs i

-- The address of the element at a place.
unfoldable address : Cells → ℕ → Ptr
address [] i = null
address ((a, d) ∷ xs) zero = a
address ((a, d) ∷ xs) (suc i) = address xs i

-- The iterator at a place, and the elements that it has not given yet.
pub data At (s : Store) (l : Ptr) (f : Fifo) : Iter → Cells → Type 0 where
  at_start : {xs : Cells} → Segment s.elems l null f.first xs → At s l f start xs
  at_element :
      {p q d : Ptr} {xs : Cells}
      → s.elems p ≡ some (element q d l)
      → Segment s.elems l null q xs
      → At s l f (at p) xs

-- The iterator that is given with the head of a queue.
abbrev pub head_iter : Cells → Iter
head_iter [] = start
head_iter ((a, d) ∷ xs) = at a

module _ (s : Store) (l : Ptr) (f : Fifo) (h : s.fifos l ≡ some f)
    (n : (f.count == 0) ≡ false) where
  yield-ok :
      (p : Ptr) (xs : Cells)
      → Segment s.elems l null p xs
      → yield_at p s ≡ ok (item_at xs 0, head_iter xs) s
  unfolding yield_at item_at
  yield-ok p [] c = rw (eq_of_nil c)
  yield-ok p ((a, d) ∷ xs) c =
      let (q, e, na, nd, here, out, rest) = uncons c in rw (e, not_null a na, load-ok s a here)

  iter_next-ok :
      (i : Iter) (xs : Cells) → At s l f i xs → iter_next l i s ≡ ok (item_at xs 0, head_iter xs) s
  unfolding iter_next
  iter_next-ok i xs (at_start c) = rw (load_fifo-ok s l h, n) (yield-ok f.first xs c)
  iter_next-ok i xs (at_element {p} {q} e c) =
      let same : (l == l) ≡ true = ground arith in
      rw (load-ok s p e, same, load_fifo-ok s l h, n) (yield-ok q xs c)

  pub At-next : {i : Iter} {a d : Ptr} {xs : Cells} → At s l f i ((a, d) ∷ xs) → At s l f (at a) xs
  At-next (at_start c) = let (q, e, na, nd, here, out, rest) = uncons c in at_element here rest
  At-next (at_element e' c) = let (q, e, na, nd, here, out, rest) = uncons c in at_element here rest

  peek_from-ok :
      (k : ℕ) (i : Iter) (xs : Cells)
      → At s l f i xs
      → k < length xs
      → (j : Iter) × (skip_items k l i s ≡ ok j s)
        × (iter_next l j s ≡ ok (item_at xs k, at (address xs k)) s)
  unfolding skip_items item_at address
  peek_from-ok k i [] c small = absurd (omega arith)
  peek_from-ok zero i ((a, d) ∷ xs) c small = (i, refl, iter_next-ok i ((a, d) ∷ xs) c)
  peek_from-ok (suc k) i ((a, d) ∷ xs) c small =
      let (j, e, e') = peek_from-ok k (at a) xs (At-next c) (omega arith) in
      (j, rw (iter_next-ok i ((a, d) ∷ xs) c) e, e')

  peek_from_start-ok :
      (k : ℕ) (xs : Cells)
      → Segment s.elems l null f.first xs
      → k < length xs
      → peek_from_start k l s ≡ ok (item_at xs k) s
  unfolding peek_from_start
  peek_from_start-ok k xs c small =
      let (j, e, e') = peek_from-ok k start xs (at_start c) small in rw (e, e')

-- The item that an index means: counted from the start, or from the end if it is negative.
unfoldable pub indexed : Cells → ℤ → Ptr
indexed xs (pos k) = item_at xs k
indexed xs (negsuc k) = if ltb k (length xs) then item_at xs (length xs - suc k) else null

item_at-beyond : (xs : Cells) (k : ℕ) → ltb k (length xs) ≡ false → item_at xs k ≡ null
unfolding item_at
item_at-beyond [] k h = refl
item_at-beyond (x ∷ xs) zero h = ground arith
item_at-beyond (x ∷ xs) (suc k) h = item_at-beyond xs k (ground arith)

-- The last element holds the last item.
item_at-last :
    {h : Elems} {l dz r : Ptr} (xs : Cells) {p a d : Ptr}
    → Segment h l null p ((a, d) ∷ xs)
    → h (last_of a xs) ≡ some (element r dz l)
    → dz ≡ item_at ((a, d) ∷ xs) (length xs)
unfolding item_at
item_at-last [] c e = let (q, _, na, nd, here, out, rest) = uncons c in cc
item_at-last ((b, d') ∷ xs) c e =
    let (q, _, na, nd, here, out, rest) = uncons c in item_at-last xs rest e

module _ (s : Store) (l : Ptr) (f : Fifo) where
  peek_index-cons :
      (index : ℤ) (x : Ptr × Ptr) (xs : Cells)
      → IsFifo s l f (x ∷ xs)
      → nl_fifo_peek_index l index s ≡ ok (indexed (x ∷ xs) index) s
  unfolding nl_fifo_peek_index normalize_index indexed
  peek_index-cons (pos k) x xs v = elim (Bool-cases (ltb k (length (x ∷ xs)))) [
    | inl e ↦
        rw (not_null l v.ne_null, load_fifo-ok s l v.at, nonempty s l f v, v.count, e)
          (peek_from_start-ok s l f v.at (nonempty s l f v) k (x ∷ xs) v.chain (ground arith))
    | inr e ↦ rw (
      not_null l v.ne_null,
      load_fifo-ok s l v.at,
      nonempty s l f v,
      v.count,
      e,
      item_at-beyond (x ∷ xs) k e,
    )
  ]
  peek_index-cons (negsuc k) x xs v = elim (Bool-cases (ltb k (length (x ∷ xs)))) [
    | inl e ↦
        rw (not_null l v.ne_null, load_fifo-ok s l v.at, nonempty s l f v, v.count, e)
          (peek_from_start-ok s l f v.at (nonempty s l f v) (length (x ∷ xs) - suc k) (x ∷ xs)
            v.chain (omega arith))
    | inr e ↦ rw (not_null l v.ne_null, load_fifo-ok s l v.at, nonempty s l f v, v.count, e)
  ]

  indexed-nil : (index : ℤ) → indexed [] index ≡ null
  unfolding indexed item_at
  indexed-nil (pos k) = refl
  indexed-nil (negsuc k) = ground arith

  -- `nl_fifo_peek_index` gives the item at the index, counted from the start or, if it is negative,
  -- from the end, and NULL if it is out of range. It changes nothing.
  pub nl_fifo_peek_index-indexed :
      (index : ℤ) (xs : Cells)
      → IsFifo s l f xs
      → nl_fifo_peek_index l index s ≡ ok (indexed xs index) s
  nl_fifo_peek_index-indexed index [] v =
      let none_left : (f.count == 0) ≡ true = ground (arith, v.count) in
      unfold nl_fifo_peek_index in
      rw (not_null l v.ne_null, load_fifo-ok s l v.at, none_left, indexed-nil index)
  nl_fifo_peek_index-indexed index (x ∷ xs) v = peek_index-cons index x xs v

  peek_last-cons :
      (a d : Ptr) (xs : Cells)
      → IsFifo s l f ((a, d) ∷ xs)
      → nl_fifo_peek_last l s ≡ ok (item_at ((a, d) ∷ xs) (length xs)) s
  unfolding nl_fifo_peek_last
  peek_last-cons a d xs v =
      let (dz, atz, inside, link) = relink xs v.chain in
      rw
        (
          not_null l v.ne_null,
          load_fifo-ok s l v.at,
          nonempty s l f v,
          v.last,
          load-ok s (last_of a xs) atz,
        )
        (let e = item_at-last xs v.chain atz in rw e)

  -- `nl_fifo_peek` gives the first item of the queue and `nl_fifo_peek_last` the last one, and both
  -- give NULL if it is empty. They change nothing.
  pub nl_fifo_peek-indexed :
      (xs : Cells)
      → IsFifo s l f xs
      → (nl_fifo_peek l s ≡ ok (indexed xs (pos 0)) s)
        × (nl_fifo_peek_last l s ≡ ok (indexed xs (negsuc 0)) s)
  unfolding nl_fifo_peek indexed item_at
  nl_fifo_peek-indexed [] v =
      let none_left : (f.count == 0) ≡ true = ground (arith, v.count) in
      (
        rw (not_null l v.ne_null, load_fifo-ok s l v.at, none_left),
        unfold nl_fifo_peek_last in rw (not_null l v.ne_null, load_fifo-ok s l v.at, none_left),
      )
  nl_fifo_peek-indexed ((a, d) ∷ xs) v =
      let (q, e, na, nd, here, out, rest) = uncons v.chain in
      (
        rw (not_null l v.ne_null, load_fifo-ok s l v.at, nonempty s l f v, e, load-ok s a here),
        (let inside : ltb 0 (length ((a, d) ∷ xs)) ≡ true = ground arith in
            let end : length ((a, d) ∷ xs) - 1 ≡ length xs = omega arith in
            rw (inside, end) (peek_last-cons a d xs v)),
      )

-- `nl_fifo_next` on a queue that is not empty gives the next item, and stands at its element.
pub nl_fifo_next-ok :
    (s : Store) (l : Ptr) (f : Fifo)
    → s.fifos l ≡ some f
    → (f.count == 0) ≡ false
    → l ≢ null
    → (i : Iter) (xs : Cells) → At s l f i xs
    → nl_fifo_next l (some i) s ≡ ok (item_at xs 0, some (head_iter xs)) s
unfolding nl_fifo_next
nl_fifo_next-ok s l f h n nl i xs c = rw (not_null l nl, iter_next-ok s l f h n i xs c)

-- On an empty one it gives NULL.
pub nl_fifo_next-empty :
    (s : Store) (l : Ptr) (f : Fifo)
    → IsFifo s l f []
    → nl_fifo_next l (some start) s ≡ ok (null, some start) s
unfolding nl_fifo_next iter_next
nl_fifo_next-empty s l f v =
    let none_left : (f.count == 0) ≡ true = ground (arith, v.count) in
    rw (not_null l v.ne_null, load_fifo-ok s l v.at, none_left)
