-- ===== src/Fifo/Ends.antt =====
-- Putting behind the queue, and what both functions that put share.
use nlutils.Prelude.{
  suc, ◌+◌, ◌<◌, ◌≡◌, ◌≢◌, refl, sym, ap, ◌∙◌, true, none, some, [], ◌∷◌, ◌++◌, ◌==◌, length,
  length-append, arith,
}
use nlutils.Prelude.Int.{ℤ}
use nlutils.Fifo.Store.{
  Ptr, null, Fifo, Store, ok, set_fifos, set_elems, update, inc, to_int, u32_mod, Cmd,
}
use nlutils.Fifo.Segment.{
  not-mem_of_none, Cells, ◌∈◌, ◌∉◌, last_of, element, Elems, Segment, nil, cons, IsFifo,
  SameOutside, frame-update, append, set_next-ok, load_fifo-ok, store_fifo-ok, update_self,
  update_other, not_null, relink, out-append, ne_of_mem,
}
use nlutils.Fifo.Ops.{nl_fifo_put, nl_fifo_allocate_new_element, count_up}
use nlutils.Fifo.Queue.{inc-suc, nonempty}

pub allocate-ok :
    (s : Store) (fresh l item : Ptr)
    → fresh ≢ null
    → l ≢ null
    → item ≢ null
    → nl_fifo_allocate_new_element fresh l item s
      ≡ ok fresh (set_elems fresh (some (element null item l)) s)
unfolding nl_fifo_allocate_new_element
allocate-ok s fresh l item n nl ni = rw (not_null l nl, not_null item ni, not_null fresh n)

pub count_up-ok :
    (s : Store) (l : Ptr) {f : Fifo}
    → s.fifos l ≡ some f
    → count_up l s
      ≡ ok (to_int (inc f.count)) (set_fifos l (some (record f { count = inc f.count })) s)
unfolding count_up
count_up-ok s l {f} e = rw (load_fifo-ok s l e, store_fifo-ok s l e)

-- A store whose fifo `l` has been written twice.
abbrev pub set_twice : Ptr → Fifo → Fifo → Store → Store
set_twice l f g s = set_fifos l (some g) (set_fifos l (some f) s)

pub last_of-append : (p q d : Ptr) (xs : Cells) → last_of p (xs ++ (q, d) ∷ []) ≡ q
last_of-append p q d [] = refl
last_of-append p q d ((r, _) ∷ xs) = last_of-append r q d xs

pub no_items : {s : Store} {l : Ptr} {f : Fifo} → IsFifo s l f [] → (f.count == 0) ≡ true
no_items v = ground (arith, v.count)

pub inc-count :
    {s : Store} {l : Ptr} {f : Fifo} {xs : Cells}
    → IsFifo s l f xs
    → length xs + 1 < u32_mod
    → inc f.count ≡ suc (length xs)
inc-count {xs} v h = ap inc v.count ∙ inc-suc (length xs) h

single_out : (b p d : Ptr) → b ≢ p → b ∉ ((p, d) ∷ [])
single_out b p d h = ground arith

ne_of_out : (b p : Ptr) (xs : Cells) → b ∈ xs → p ∉ xs → b ≢ p
ne_of_out b p xs h o e = cc

-- A fifo, and an unused address with an item for it.
module _ (s : Store) (l : Ptr) (f : Fifo) (fresh item : Ptr) (n : fresh ≢ null) (ni : item ≢ null)
    (unused : s.elems fresh ≡ none) where
  abbrev pub with_new : Store
  with_new = set_elems fresh (some (element null item l)) s

  abbrev pub single : Fifo
  single = record f { first = fresh; last = fresh }

  -- What putting at one end must give: the length, a fifo for the queue `ys`, and nothing else.
  abbrev pub Puts : (Ptr → Ptr → Ptr → Cmd ℤ) → Cells → Type 0
  Puts op ys =
      (t : Store) × (f' : Fifo) × (op fresh l item s ≡ ok (to_int (length ys)) t)
      × IsFifo t l f' ys
      × SameOutside ys l s t

  put-run_empty :
      IsFifo s l f []
      → nl_fifo_put fresh l item s
        ≡ ok
            (to_int (inc f.count))
            (set_twice l single (record single { count = inc f.count }) with_new)
  unfolding nl_fifo_put
  put-run_empty v =
      rw
        (
          allocate-ok s fresh l item n v.ne_null ni,
          not_null fresh n,
          load_fifo-ok with_new l v.at,
          no_items v,
          store_fifo-ok with_new l v.at,
        )
        (count_up-ok (set_fifos l (some single) with_new) l (update_self s.fifos l (some single)))

  -- From a run that writes the fifo once and then counts.
  pub finish :
      (op : Ptr → Ptr → Ptr → Cmd ℤ) (ys : Cells) (h : Elems) (g : Fifo)
      → l ≢ null
      → op fresh l item s
        ≡ ok
            (to_int (inc f.count))
            (set_twice l g (record g { count = inc f.count }) (record s { elems = h }))
      → inc f.count ≡ length ys
      → Segment h l null g.first ys
      → g.last ≡ last_of null ys
      → length ys < u32_mod
      → ((a : Ptr) → a ∉ ys → h a ≡ s.elems a)
      → Puts op ys
  finish op ys h g nl run size chain end small same = (
    set_twice l g (record g { count = inc f.count }) (record s { elems = h }),
    record g { count = inc f.count },
    rw (← size) run,
    record {
      ne_null = nl;
      at = update_self (update s.fifos l (some g)) l _;
      chain = chain;
      last = end;
      count = size;
      bound = small;
    },
    record {
      elems_same = same;
      fifos_same =
          λ m o. update_other (update s.fifos l (some g)) l m _ o ∙ update_other s.fifos l m _ o;
    },
  )

  put-empty : IsFifo s l f [] → Puts nl_fifo_put ((fresh, item) ∷ [])
  put-empty v =
      finish nl_fifo_put ((fresh, item) ∷ []) with_new.elems single v.ne_null (put-run_empty v)
        (inc-count v (omega arith)) (cons n ni (update_self s.elems fresh _) refl nil) refl
        (omega arith) (λ a o. update_other s.elems fresh a _ (ground arith))

  pub unused-append : {xs : Cells} → IsFifo s l f xs → fresh ∉ xs
  unused-append v = not-mem_of_none fresh v.chain unused

  -- The store with the last element linked to the new one.
  abbrev linked : Ptr → Ptr → Store
  linked z dz = set_elems z (some (element fresh dz l)) with_new

  put-run_cons :
      {x : Ptr × Ptr} {xs : Cells} (z dz : Ptr)
      → IsFifo s l f (x ∷ xs)
      → f.last ≡ z
      → with_new.elems z ≡ some (element null dz l)
      → nl_fifo_put fresh l item s
        ≡ ok (to_int (inc f.count)) (
            set_twice l
              (record f { last = fresh })
              (record f { last = fresh; count = inc f.count })
              (linked z dz))
  unfolding nl_fifo_put
  put-run_cons z dz v e at =
      rw
        (
          allocate-ok s fresh l item n v.ne_null ni,
          not_null fresh n,
          load_fifo-ok with_new l v.at,
          nonempty s l f v,
          e,
          set_next-ok with_new z at,
          store_fifo-ok (linked z dz) l v.at,
        )
        (count_up-ok (set_fifos l (some (record f { last = fresh })) (linked z dz)) l
          (update_self s.fifos l (some (record f { last = fresh }))))

  put-cons :
      (a d : Ptr) (xs : Cells)
      → IsFifo s l f ((a, d) ∷ xs)
      → length ((a, d) ∷ xs) + 1 < u32_mod
      → Puts nl_fifo_put (((a, d) ∷ xs) ++ (fresh, item) ∷ [])
  put-cons a d xs v small =
      let out : fresh ∉ ((a, d) ∷ xs) = unused-append v in
      let (dz, atz, inside, link) =
        relink xs (frame-update fresh (some (element null item l)) v.chain out) in
      let z = last_of a xs in
      finish nl_fifo_put (((a, d) ∷ xs) ++ (fresh, item) ∷ []) (linked z dz).elems
        (record f { last = fresh }) v.ne_null (put-run_cons z dz v v.last atz)
        (inc-count v small ∙ omega (arith, length-append xs ((fresh, item) ∷ [])))
        (append (link fresh)
          (cons n ni
            (update_other with_new.elems z fresh _ (ne_of_mem z fresh ((a, d) ∷ xs) inside out)
              ∙ update_self s.elems fresh _)
            refl nil)
          (λ b i. single_out b fresh item (ne_of_out b fresh ((a, d) ∷ xs) i out)))
        (sym (last_of-append null fresh item ((a, d) ∷ xs)))
        (omega (arith, small, length-append xs ((fresh, item) ∷ [])))
        (λ b o.
          let (front, new) = out-append b ((a, d) ∷ xs) ((fresh, item) ∷ []) o in
          update_other with_new.elems z b _ (ne_of_mem z b ((a, d) ∷ xs) inside front)
          ∙ update_other s.elems fresh b _ (ground arith))

-- `nl_fifo_put` adds the item behind the queue and returns the new number of elements, as an `int`: the
-- fifo then holds the queue with the item at its end, and no other fifo and no element outside of the queue
-- changes. The allocator gives an unused address, the item is not NULL, and the count does not
-- overflow.
pub nl_fifo_put-append :
    (s : Store) (l : Ptr) (f : Fifo) (fresh item : Ptr) (xs : Cells)
    → IsFifo s l f xs
    → fresh ≢ null
    → item ≢ null
    → s.elems fresh ≡ none
    → length xs + 1 < u32_mod
    → (t : Store) × (g : Fifo) × (nl_fifo_put fresh l item s
        ≡ ok (to_int (length (xs ++ (fresh, item) ∷ []))) t)
      × IsFifo t l g (xs ++ (fresh, item) ∷ [])
      × SameOutside (xs ++ (fresh, item) ∷ []) l s t
nl_fifo_put-append s l f fresh item [] v n ni unused h = put-empty s l f fresh item n ni unused v
nl_fifo_put-append s l f fresh item ((a, d) ∷ xs) v n ni unused h =
    put-cons s l f fresh item n ni unused a d xs v h
