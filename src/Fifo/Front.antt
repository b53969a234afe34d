-- ===== src/Fifo/Front.antt =====
-- Putting in front of the queue, and the failures of both functions that put.
use nlutils.Prelude.{◌+◌, ◌<◌, ◌≡◌, ◌≢◌, ◌⊎◌, refl, none, some, [], ◌∷◌, length, arith}
use nlutils.Prelude.Int.{negsuc}
use nlutils.Fifo.Store.{Ptr, null, Fifo, Store, ok, set_fifos, set_elems, inc, to_int, u32_mod}
use nlutils.Fifo.Segment.{
  Cells, ◌∉◌, element, nil, cons, IsFifo, SameOutside, frame-update, set_next-ok, load_fifo-ok,
  store_fifo-ok, update_self, update_other, not_null,
}
use nlutils.Fifo.Ops.{nl_fifo_put, nl_fifo_prepend, nl_fifo_allocate_new_element}
use nlutils.Fifo.Queue.{nonempty}
use nlutils.Fifo.Ends.{
  allocate-ok, count_up-ok, no_items, inc-count, set_twice, with_new, single, Puts, finish,
  unused-append,
}

module _ (s : Store) (l : Ptr) (f : Fifo) (fresh item : Ptr) (n : fresh ≢ null) (ni : item ≢ null)
    (unused : s.elems fresh ≡ none) where
  abbrev new_store : Store
  new_store = with_new s l f fresh item n ni unused

  abbrev only : Fifo
  only = single s l f fresh item n ni unused

  prepend-run_empty :
      IsFifo s l f []
      → nl_fifo_prepend fresh l item s
        ≡ ok
            (to_int (inc f.count))
            (set_twice l only (record only { count = inc f.count }) new_store)
  unfolding nl_fifo_prepend
  prepend-run_empty v =
      rw
        (
          allocate-ok s fresh l item n v.ne_null ni,
          not_null fresh n,
          load_fifo-ok new_store l v.at,
          no_items v,
          store_fifo-ok new_store l v.at,
        )
        (count_up-ok (set_fifos l (some only) new_store) l (update_self s.fifos l (some only)))

  prepend-empty :
      IsFifo s l f [] → Puts s l f fresh item n ni unused nl_fifo_prepend ((fresh, item) ∷ [])
  prepend-empty v =
      finish s l f fresh item n ni unused nl_fifo_prepend ((fresh, item) ∷ []) new_store.elems only
        v.ne_null (prepend-run_empty v) (inc-count v (omega arith))
        (cons n ni (update_self s.elems fresh _) refl nil) refl (omega arith)
        (λ a o. update_other s.elems fresh a _ (ground arith))

  -- The store with the new element linked to the first one.
  abbrev fronted : Store
  fronted = set_elems fresh (some (element f.first item l)) new_store

  prepend-run_cons :
      {x : Ptr × Ptr} {xs : Cells}
      → IsFifo s l f (x ∷ xs)
      → nl_fifo_prepend fresh l item s
        ≡ ok (to_int (inc f.count)) (
            set_twice l
              (record f { first = fresh })
              (record f { first = fresh; count = inc f.count })
              fronted)
  unfolding nl_fifo_prepend
  prepend-run_cons v =
      rw
        (
          allocate-ok s fresh l item n v.ne_null ni,
          not_null fresh n,
          load_fifo-ok new_store l v.at,
          nonempty s l f v,
          set_next-ok new_store fresh (update_self s.elems fresh _),
          store_fifo-ok fronted l v.at,
        )
        (count_up-ok (set_fifos l (some (record f { first = fresh })) fronted) l
          (update_self s.fifos l (some (record f { first = fresh }))))

  prepend-cons :
      (x : Ptr × Ptr) (xs : Cells)
      → IsFifo s l f (x ∷ xs)
      → length (x ∷ xs) + 1 < u32_mod
      → Puts s l f fresh item n ni unused nl_fifo_prepend ((fresh, item) ∷ x ∷ xs)
  prepend-cons x xs v small =
      let out : fresh ∉ (x ∷ xs) = unused-append s l f fresh item n ni unused v in
      finish s l f fresh item n ni unused nl_fifo_prepend ((fresh, item) ∷ x ∷ xs) fronted.elems
        (record f { first = fresh }) v.ne_null (prepend-run_cons v) (inc-count v small)
        (cons n ni (update_self new_store.elems fresh _) out
          (frame-update fresh _ (frame-update fresh _ v.chain out) out))
        v.last (omega (arith, small)) (λ a o. ground arith)

-- `nl_fifo_prepend` adds the item in front of the queue and returns the new number of elements, as an
-- `int`: the fifo then holds the queue with the item at its start, and no other fifo and no element outside of
-- the queue changes. The allocator gives an unused address, the item is not NULL, and the count does
-- not overflow.
pub nl_fifo_prepend-cons :
    (s : Store) (l : Ptr) (f : Fifo) (fresh item : Ptr) (xs : Cells)
    → IsFifo s l f xs
    → fresh ≢ null
    → item ≢ null
    → s.elems fresh ≡ none
    → length xs + 1 < u32_mod
    → (t : Store) × (g : Fifo) × (nl_fifo_prepend fresh l item s
        ≡ ok (to_int (length ((fresh, item) ∷ xs))) t)
      × IsFifo t l g ((fresh, item) ∷ xs)
      × SameOutside ((fresh, item) ∷ xs) l s t
nl_fifo_prepend-cons s l f fresh item [] v n ni unused h =
    prepend-empty s l f fresh item n ni unused v
nl_fifo_prepend-cons s l f fresh item (x ∷ xs) v n ni unused h =
    prepend-cons s l f fresh item n ni unused x xs v h

-- With a NULL fifo, NULL data or no memory both functions that put return -1 and change nothing.
pub put_fails :
    (s : Store) (l fresh item : Ptr)
    → (l ≡ null) ⊎ (item ≡ null) ⊎ (fresh ≡ null)
    → (nl_fifo_put fresh l item s ≡ ok (negsuc 0) s)
      × (nl_fifo_prepend fresh l item s ≡ ok (negsuc 0) s)
unfolding nl_fifo_put nl_fifo_prepend nl_fifo_allocate_new_element
put_fails s l fresh item h = ground arith
