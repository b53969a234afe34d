-- ===== src/Fifo/Start.antt =====
-- `nl_fifo_remove_start` and `nl_fifo_clear_cb`: many elements are taken from the start.
use nlutils.Prelude.{
  ℕ, suc, zero, ◌+◌, ◌<◌, ◌≤◌, ◌≡◌, refl, ap, ◌∙◌, Bool, none, some, List, [], ◌∷◌, ◌++◌, ◌==◌,
  if◌then◌else◌, length, length-append, arith, append-nil, append_assoc, Bool-cases, inl, inr, take,
  drop, take-append-drop,
}
use nlutils.Fifo.Store.{Ptr, null, Fifo, Store, ok, u32_mod, dec, set_fifos, set_elems}
use nlutils.Fifo.Segment.{
  Elems, Cells, items, has, ◌∈◌, last_of, Segment, IsFifo, SameOutside, eq_of_nil, uncons,
  frame-update, load-ok, free-ok, load_fifo-ok, store_fifo-ok, not_null, update_self, update_other,
}
use nlutils.Fifo.Bulk.{remove_items, nl_fifo_remove_start, nl_fifo_clear_cb}

dec_pos : (n : ℕ) → 0 < n → n < u32_mod → suc (dec n) ≡ n
unfolding dec
dec_pos n h k = omega arith

-- The calls that are made for the elements `xs`.
abbrev pub called : (has_cb : Bool) → Cells → List Ptr
called has_cb xs = if has_cb then items xs else []

-- What the loop does from `cur`, at the head of `xs`, with `n` rounds left.
abbrev Removes : Store → Ptr → Fifo → ℕ → Ptr → Bool → List Ptr → Cells → Type 0
Removes s l f n cur has_cb calls xs =
    (t : Store) × (g : Fifo) × (p : Ptr) × (remove_items n l cur has_cb calls s
      ≡ ok (calls ++ called has_cb (take n xs), p) t)
    × (t.fifos l ≡ some g)
    × (g.last ≡ f.last)
    × (g.count + length (take n xs) ≡ f.count)
    × Segment t.elems l null p (drop n xs)
    × SameOutside (take n xs) l s t
    × ((a : Ptr) → a ∈ take n xs → t.elems a ≡ none)

take_all : (n : ℕ) (xs : Cells) → length xs ≤ n → take n xs ≡ xs
take_all zero [] h = refl
take_all (suc n) [] h = refl
take_all zero (x ∷ xs) h = absurd (omega arith)
take_all (suc n) (x ∷ xs) h = ap (λ ys. x ∷ ys) (take_all n xs (omega arith))

drop_all : (n : ℕ) (xs : Cells) → length xs ≤ n → drop n xs ≡ []
drop_all zero [] h = refl
drop_all (suc n) [] h = refl
drop_all zero (x ∷ xs) h = absurd (omega arith)
drop_all (suc n) (x ∷ xs) h = drop_all n xs (omega arith)

module _ (l : Ptr) (has_cb : Bool) where
  called-cons :
      (calls : List Ptr) (a d : Ptr) (xs : Cells)
      → (if has_cb then calls ++ d ∷ [] else calls) ++ called has_cb xs
        ≡ calls ++ called has_cb ((a, d) ∷ xs)
  called-cons calls a d xs = elim (Bool-cases has_cb) [
    | inl e ↦ rw (e, append_assoc)
    | inr e ↦ rw e
  ]

  remove_items-Removes :
      (n : ℕ) (s : Store) (f : Fifo) (cur : Ptr) (calls : List Ptr) (xs : Cells)
      → s.fifos l ≡ some f
      → Segment s.elems l null cur xs
      → length xs ≤ f.count
      → f.count < u32_mod
      → Removes s l f n cur has_cb calls xs
  unfolding remove_items
  remove_items-Removes zero s f cur calls xs h c small bound = (
    s,
    f,
    cur,
    (let e : called has_cb [] ≡ [] = ground arith in rw (e, append-nil)),
    h,
    refl,
    omega arith,
    c,
    record { elems_same = λ a o. refl; fifos_same = λ m o. refl },
    λ a i. cc,
  )
  remove_items-Removes (suc n) s f cur calls [] h c small bound =
      let z = eq_of_nil c in
      (
        s,
        f,
        cur,
        (let e : called has_cb [] ≡ [] = ground arith in rw (z, e, append-nil)),
        h,
        refl,
        omega arith,
        c,
        record { elems_same = λ a o. refl; fifos_same = λ m o. refl },
        λ a i. cc,
      )
  remove_items-Removes (suc n) s f cur calls ((a, d) ∷ xs) h c small bound =
      let (q, e, na, nd, here, out, rest) = uncons c in
      let f' : Fifo = record f { count = dec f.count } in
      let s' : Store = set_fifos l (some f') (set_elems a none s) in
      let less : suc (dec f.count) ≡ f.count = dec_pos f.count (omega arith) bound in
      let (t, g, p, run, at, last, count, back, same, freed) =
        remove_items-Removes n s' f' q (if has_cb then calls ++ d ∷ [] else calls) xs
          (update_self s.fifos l (some f')) (frame-update a none rest out) (omega arith)
          (omega arith) in
      (
        t,
        g,
        p,
        rw
            (
              e,
              not_null a na,
              load-ok s a here,
              free-ok s a here,
              load_fifo-ok (set_elems a none s) l h,
              store_fifo-ok (set_elems a none s) l h,
            )
            (run ∙ rw (called-cons calls a d (take n xs))),
        at,
        last,
        omega arith,
        back,
        record {
          elems_same = λ b o.
              same.elems_same b (ground arith) ∙ update_other s.elems a b none (ground arith);
          fifos_same = λ m o. same.fifos_same m o ∙ update_other s.fifos l m _ o;
        },
        λ b i. elim (Bool-cases (has b (take n xs))) [
          | inl j ↦ freed b j
          | inr o ↦ same.elems_same b o ∙ ground arith
        ],
      )

last_of-drop :
    {h : Elems} {l : Ptr} (n : ℕ) (xs : Cells) (b q : Ptr)
    → Segment h l null q (drop n xs)
    → (if q == null then null else last_of b xs) ≡ last_of null (drop n xs)
last_of-drop zero [] b q c = let z = eq_of_nil c in rw z
last_of-drop (suc n) [] b q c = let z = eq_of_nil c in rw z
last_of-drop zero ((a, d) ∷ xs) b q c =
    let (_, e, na, _, _, _, _) = uncons c in rw (e, not_null a na)
last_of-drop (suc n) ((a, d) ∷ xs) b q c = last_of-drop n xs a q c

-- `nl_fifo_remove_start` takes the first `count` elements of the queue, or all if there are fewer, and
-- frees them. It calls the callback, if there is one, on their items in order, and returns how many
-- elements are left; the fifo then holds the rest of the queue, and no other fifo or element changes.
pub nl_fifo_remove_start-drop :
    (s : Store) (l : Ptr) (f : Fifo) (count : ℕ) (has_cb : Bool) (xs : Cells)
    → IsFifo s l f xs
    → (t : Store) × (g : Fifo) × (nl_fifo_remove_start l count has_cb s
        ≡ ok (called has_cb (take count xs), length (drop count xs)) t)
      × IsFifo t l g (drop count xs)
      × SameOutside (take count xs) l s t
      × ((a : Ptr) → a ∈ take count xs → t.elems a ≡ none)
unfolding nl_fifo_remove_start
nl_fifo_remove_start-drop s l f count has_cb xs v =
    let (t, g, p, run, at, last, size, back, same, freed) =
      remove_items-Removes l has_cb count s f f.first [] xs v.at v.chain (omega (arith, v.count))
        (omega (arith, v.count, v.bound)) in
    let g' : Fifo = record g { first = p; last = if p == null then null else g.last } in
    let left : g.count ≡ length (drop count xs) = omega (
      arith,
      size,
      v.count,
      length-append (take count xs) (drop count xs),
      ap length (take-append-drop count xs),
    ) in
    (
      set_fifos l (some g') t,
      g',
      rw (
        not_null l v.ne_null,
        load_fifo-ok s l v.at,
        run,
        load_fifo-ok t l at,
        store_fifo-ok t l at,
        left,
      ),
      record {
        ne_null = v.ne_null;
        at = update_self t.fifos l (some g');
        chain = back;
        last = rw (last, v.last) (last_of-drop count xs null p back);
        count = left;
        bound = omega (arith, size, v.count, v.bound, left);
      },
      record {
        elems_same = same.elems_same;
        fifos_same = λ m o. update_other t.fifos l m _ o ∙ same.fifos_same m o;
      },
      freed,
    )

-- `nl_fifo_clear_cb` empties the fifo: every element is freed, and the callback, if there is one, has
-- been called on every item, in the order of the queue. No other fifo or element changes.
pub nl_fifo_clear_cb-empty :
    (s : Store) (l : Ptr) (f : Fifo) (has_cb : Bool) (xs : Cells)
    → IsFifo s l f xs
    → (t : Store) × (g : Fifo) × (nl_fifo_clear_cb l has_cb s ≡ ok (called has_cb xs) t)
      × IsFifo t l g []
      × SameOutside xs l s t
      × ((a : Ptr) → a ∈ xs → t.elems a ≡ none)
unfolding nl_fifo_clear_cb
nl_fifo_clear_cb-empty s l f has_cb xs v =
    let all : take f.count xs ≡ xs = take_all f.count xs (omega (arith, v.count)) in
    let gone : drop f.count xs ≡ [] = drop_all f.count xs (omega (arith, v.count)) in
    let (t, g, run, w, same, freed) =
      rw (all, gone) at (nl_fifo_remove_start-drop s l f f.count has_cb xs v) in
    (t, g, rw (not_null l v.ne_null, load_fifo-ok s l v.at, run), w, same, freed)
