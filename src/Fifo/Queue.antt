-- ===== src/Fifo/Queue.antt =====
-- Getting the first item of the queue.
use nlutils.Prelude.{
  ℕ, suc, ◌+◌, ◌<◌, ◌≡◌, refl, ap, ◌∙◌, false, none, some, [], ◌∷◌, ◌==◌, if◌then◌else◌, length,
  arith,
}
use nlutils.Fifo.Store.{Ptr, null, Fifo, Store, ok, set_fifos, set_elems, inc, dec, u32_mod}
use nlutils.Fifo.Segment.{
  Cells, last_of, element, Elems, Segment, IsFifo, SameOutside, eq_of_nil, frame-update, load-ok,
  free-ok, load_fifo-ok, store_fifo-ok, update_self, update_other, not_null, uncons,
}
use nlutils.Fifo.Ops.{nl_fifo_get}

pub dec-suc : (n : ℕ) → suc n < u32_mod → dec (suc n) ≡ n
unfolding dec
dec-suc n h = omega arith

pub inc-suc : (n : ℕ) → n + 1 < u32_mod → inc n ≡ suc n
unfolding inc
inc-suc n h = omega arith

pub last_of-cons :
    (p q : Ptr) (x : Ptr × Ptr) (xs : Cells) → last_of p (x ∷ xs) ≡ last_of q (x ∷ xs)
last_of-cons p q x xs = refl

-- What `nl_fifo_get` does to a queue, empty or not.
abbrev pub Got : Store → Ptr → Cells → Type 0
Got s l [] = nl_fifo_get l s ≡ ok null s
Got s l ((a, d) ∷ xs) =
    (t : Store) × (f : Fifo) × (nl_fifo_get l s ≡ ok d t)
    × IsFifo t l f xs
    × SameOutside ((a, d) ∷ []) l s t
    × (t.elems a ≡ none)

-- The end of the queue when its first element is gone.
rest_last :
    {h : Elems} {l q : Ptr} (last a d : Ptr) (xs : Cells)
    → Segment h l null q xs
    → last ≡ last_of null ((a, d) ∷ xs)
    → (if q == null then null else last) ≡ last_of null xs
rest_last last a d [] c e = let z = eq_of_nil c in rw z
rest_last last a d (x ∷ xs) c e = let (_, p, n, _, _, _, _) = uncons c in rw (p, not_null _ n) e

module _ (s : Store) (l : Ptr) (f : Fifo) where
  get-nil : IsFifo s l f [] → nl_fifo_get l s ≡ ok null s
  unfolding nl_fifo_get
  get-nil v = rw (not_null l v.ne_null, load_fifo-ok s l v.at, v.count)

  pub nonempty : {x : Ptr × Ptr} {xs : Cells} → IsFifo s l f (x ∷ xs) → (f.count == 0) ≡ false
  nonempty v = ground (arith, v.count)

  abbrev popped : Ptr → Fifo
  popped q = record { first = q; last = if q == null then null else f.last; count = dec f.count }

  get-run :
      (a d q : Ptr) (xs : Cells)
      → IsFifo s l f ((a, d) ∷ xs)
      → f.first ≡ a
      → s.elems a ≡ some (element q d l)
      → nl_fifo_get l s ≡ ok d (set_fifos l (some (popped q)) (set_elems a none s))
  unfolding nl_fifo_get
  get-run a d q xs v e at = rw (
    not_null l v.ne_null,
    load_fifo-ok s l v.at,
    nonempty v,
    e,
    load-ok s a at,
    free-ok s a at,
    store_fifo-ok (set_elems a none s) l v.at,
  )

  get-cons : (a d : Ptr) (xs : Cells) → IsFifo s l f ((a, d) ∷ xs) → Got s l ((a, d) ∷ xs)
  get-cons a d xs v =
      let (q, e, n, dn, at, out, c) = uncons v.chain in
      (
        set_fifos l (some (popped q)) (set_elems a none s),
        popped q,
        get-run a d q xs v e at,
        record {
          ne_null = v.ne_null;
          at = update_self s.fifos l (some (popped q));
          chain = frame-update a none c out;
          last = rest_last f.last a d xs c v.last;
          count = ap dec v.count ∙ dec-suc (length xs) v.bound;
          bound = omega (arith, v.bound);
        },
        record {
          elems_same = λ x o. ground arith;
          fifos_same = λ m o. update_other s.fifos l m _ o;
        },
        update_self s.elems a none,
      )

  -- `nl_fifo_get` takes out the item that was put first, and frees its element: the fifo then holds
  -- the rest of the queue, and no other fifo or element changes. From an empty fifo it returns NULL
  -- and changes nothing.
  pub nl_fifo_get-Got : (xs : Cells) → IsFifo s l f xs → Got s l xs
  nl_fifo_get-Got [] v = get-nil v
  nl_fifo_get-Got ((a, d) ∷ xs) v = get-cons a d xs v
