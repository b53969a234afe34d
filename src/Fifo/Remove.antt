-- ===== src/Fifo/Remove.antt =====
-- `nl_fifo_remove`: one element is taken out of the middle of the queue.
use nlutils.Prelude.{
  ℕ, suc, zero, ◌+◌, ◌<◌, ◌≡◌, ◌≢◌, refl, sym, ◌∙◌, Bool, true, false, ◌||◌, none, some, [], ◌∷◌,
  ◌++◌, ◌==◌, if◌then◌else◌, length, length-append, arith, Bool-cases, inl, inr, append-nil,
  append_assoc,
}
use nlutils.Fifo.Store.{Ptr, null, Element, Fifo, Store, Run, ok, set_fifos, set_elems, dec}
use nlutils.Fifo.Segment.{
  Cells, has, ◌∈◌, ◌∉◌, last_of, element, Segment, nil, IsFifo, SameOutside, frame, frame-update,
  append, load-ok, set_next-ok, free-ok, load_fifo-ok, store_fifo-ok, update_self, update_other,
  not_null, uncons, relink, out-append, ne_of_mem, mem_ne_null,
}
use nlutils.Fifo.Queue.{dec-suc, nonempty}
use nlutils.Fifo.Cursor.{
  Cursor, last_of-front, last_of-mem, Cursor-start, Cursor-uncons, Cursor-end, Cursor-IsFifo,
}
use nlutils.Fifo.Walk.{discard, unlink, remove_loop, nl_fifo_remove}

-- Whether an item is in a queue, and the queue less its first element with that item.
unfoldable pub contains : Ptr → Cells → Bool
contains item [] = false
contains item ((a, d) ∷ xs) = d == item || contains item xs

unfoldable pub erase : Ptr → Cells → Cells
erase item [] = []
erase item ((a, d) ∷ xs) = if d == item then xs else (a, d) ∷ erase item xs

-- The end of the queue when the element `a` between `pre` and `ys` is gone.
last_of-unlink :
    (pre ys : Cells) (a d : Ptr)
    → a ∉ ys
    → (if last_of null (pre ++ (a, d) ∷ ys) == a
        then last_of null pre
        else last_of null (pre ++ (a, d) ∷ ys))
      ≡ last_of null (pre ++ ys)
last_of-unlink pre [] a d out =
    let here : (a == a) ≡ true = ground arith in
    rw (last_of-front null pre (a, d) [], append-nil, here)
last_of-unlink pre (y ∷ ys) a d out =
    let m : last_of a (y ∷ ys) ∈ (y ∷ ys) = last_of-mem a y ys in
    let e : (last_of a (y ∷ ys) == a) ≡ false =
      ground (arith, ne_of_mem (last_of a (y ∷ ys)) a (y ∷ ys) m out) in
    rw (last_of-front null pre (a, d) (y ∷ ys), e) (sym (last_of-front null pre y ys))

-- A run that ends with `b`, and the fifo `l` then holds the queue `ys` where it held `xs`.
abbrev pub Becomes : {A : Type 0} → Store → Ptr → Run A → A → (xs ys : Cells) → Type 0
Becomes s l r b xs ys =
    (t : Store) × (g : Fifo) × (r ≡ ok b t) × IsFifo t l g ys × SameOutside xs l s t

abbrev shrunk : Fifo → (a prev : Ptr) → Fifo
shrunk g a prev = record g { last = if g.last == a then prev else g.last; count = dec g.count }

discard-ok :
    (s : Store) (l prev a : Ptr) {g : Fifo} {e : Element}
    → s.fifos l ≡ some g
    → s.elems a ≡ some e
    → discard l prev a s ≡ ok tt (set_elems a none (set_fifos l (some (shrunk g a prev)) s))
unfolding discard
discard-ok s l prev a {g} h at =
    rw (load_fifo-ok s l h, store_fifo-ok s l h)
      (free-ok (set_fifos l (some (shrunk g a prev)) s) a at)

-- The fifo and the elements in front of `a` before it is discarded: they lead to `q`.
record Bypassed (s t : Store) (l : Ptr) (f g : Fifo) (pre : Cells) (q : Ptr) : Type 0 where
  at : t.fifos l ≡ some g
  front : Segment t.elems l q g.first pre
  last : g.last ≡ f.last
  count : g.count ≡ f.count
  elems_same : (x : Ptr) → x ∉ pre → t.elems x ≡ s.elems x
  fifos_same : (m : Ptr) → m ≢ l → t.fifos m ≡ s.fifos m

-- The run up to the discarding.
abbrev Bypass : (s : Store) (l : Ptr) (f : Fifo) (a q : Ptr) → Cells → Type 0
Bypass s l f a q pre =
    (t : Store) × (g : Fifo) × (unlink l (last_of null pre) a q s
      ≡ discard l (last_of null pre) a t)
    × Bypassed s t l f g pre q

module _ (s : Store) (l : Ptr) (f : Fifo) (a q : Ptr) (h : s.fifos l ≡ some f) where
  Bypass-first : Bypass s l f a q []
  unfolding unlink
  Bypass-first = (
    set_fifos l (some (record f { first = q })) s,
    record f { first = q },
    rw (load_fifo-ok s l h, store_fifo-ok s l h),
    record {
      at = update_self s.fifos l _;
      front = nil;
      last = refl;
      count = refl;
      elems_same = λ x o. refl;
      fifos_same = λ m n. update_other s.fifos l m _ n;
    },
  )

  Bypass-later :
      (b e : Ptr) (pre : Cells)
      → Segment s.elems l a f.first ((b, e) ∷ pre)
      → Bypass s l f a q ((b, e) ∷ pre)
  unfolding unlink
  Bypass-later b e pre c =
      let (dz, atz, inside, link) = relink pre c in
      let z = last_of b pre in
      (
        set_elems z (some (element q dz l)) s,
        f,
        rw (not_null z (mem_ne_null z c inside), set_next-ok s z atz q),
        record {
          at = h;
          front = link q;
          last = refl;
          count = refl;
          elems_same = λ x o. update_other s.elems z x _ (ne_of_mem z x ((b, e) ∷ pre) inside o);
          fifos_same = λ m n. refl;
        },
      )

  bypass : (pre : Cells) → Segment s.elems l a f.first pre → Bypass s l f a q pre
  bypass [] c = Bypass-first
  bypass ((b, e) ∷ pre) c = Bypass-later b e pre c

module _ (s : Store) (l : Ptr) (f : Fifo) (a d q : Ptr) (pre ys : Cells)
    (c : Cursor s l f pre ((a, d) ∷ ys) a) (at : s.elems a ≡ some (element q d l)) (out : a ∉ ys)
    (back : Segment s.elems l null q ys) where
  not_front : a ∉ pre
  not_front = elim (Bool-cases (has a pre)) [
    | inl i ↦ absurd (let o = c.apart a i in ground arith)
    | inr o ↦ o
  ]

  behind : (x : Ptr) → x ∈ ys → (x ∉ pre) × (x ≢ a)
  behind x i = (
    elim (Bool-cases (has x pre)) [
      | inl j ↦ absurd (let o = c.apart x j in ground arith)
      | inr o ↦ o
    ],
    λ e. cc,
  )

  discarded :
      (t : Store) (g : Fifo)
      → Bypassed s t l f g pre q
      → Becomes s l (discard l (last_of null pre) a t) tt (pre ++ (a, d) ∷ ys) (pre ++ ys)
  discarded t g b =
      let size : length (pre ++ ys) ≡ length pre + length ys = length-append pre ys in
      (
        set_elems a none (set_fifos l (some (shrunk g a (last_of null pre))) t),
        shrunk g a (last_of null pre),
        discard-ok t l (last_of null pre) a b.at (b.elems_same a not_front ∙ at),
        record {
          ne_null = c.ne_null;
          at = update_self t.fifos l _;
          chain =
              append (frame-update a none b.front not_front)
                (frame back λ x i.
                  update_other t.elems a x none (behind x i).1 ∙ b.elems_same x (behind x i).0)
                (λ x i. let o = c.apart x i in ground arith);
          last = rw (b.last, c.last) (last_of-unlink pre ys a d out);
          count =
              let n : g.count ≡ suc (length pre + length ys) = omega (arith, b.count, c.count) in
              rw n (dec-suc (length pre + length ys) (omega (arith, c.bound)) ∙ sym size);
          bound = omega (arith, c.bound, size);
        },
        record {
          elems_same = λ x o.
              let (front, rest) = out-append x pre ((a, d) ∷ ys) o in
              update_other t.elems a x none (ground arith) ∙ b.elems_same x front;
          fifos_same = λ m n. update_other t.fifos l m _ n ∙ b.fifos_same m n;
        },
      )

last_of-snoc : (p q d : Ptr) (xs : Cells) → last_of p (xs ++ (q, d) ∷ []) ≡ q
last_of-snoc p q d [] = refl
last_of-snoc p q d ((r, _) ∷ xs) = last_of-snoc r q d xs

module _ (s : Store) (l : Ptr) (f : Fifo) (item a d q : Ptr) (pre ys : Cells)
    (c : Cursor s l f pre ((a, d) ∷ ys) a) (n : a ≢ null)
    (at : s.elems a ≡ some (element q d l)) where
  -- The loop at the element that it looks for.
  loop_hit :
      (fuel : ℕ)
      → (d == item) ≡ true
      → a ∉ ys
      → Segment s.elems l null q ys
      → Becomes s l
          (remove_loop (suc fuel) l item (last_of null pre) a s)
          true
          (pre ++ (a, d) ∷ ys)
          (pre ++ ys)
  unfolding remove_loop
  loop_hit fuel hit out back =
      let (t, g, e, b) = bypass s l f a q c.at pre c.front in
      let (t', g', run, v, same) = discarded s l f a d q pre ys c at out back t g b in
      (t', g', rw (not_null a n, load-ok s a at, hit, e, run), v, same)

  -- The loop at another element.
  loop_miss :
      (fuel : ℕ) (b : Bool) (zs : Cells)
      → (d == item) ≡ false
      → Becomes s l
          (remove_loop fuel l item (last_of null (pre ++ (a, d) ∷ [])) q s)
          b
          ((pre ++ (a, d) ∷ []) ++ ys)
          ((pre ++ (a, d) ∷ []) ++ zs)
      → Becomes s l
          (remove_loop (suc fuel) l item (last_of null pre) a s)
          b
          (pre ++ (a, d) ∷ ys)
          (pre ++ (a, d) ∷ zs)
  unfolding remove_loop
  loop_miss fuel b zs miss (t, g, run, v, same) = (
    t,
    g,
    rw (not_null a n, load-ok s a at, miss) (rw last_of-snoc at run),
    rw append_assoc at v,
    rw append_assoc at same,
  )

module _ (s : Store) (l : Ptr) (f : Fifo) (item : Ptr) where
  -- The loop from a place in the queue: the first element with the item behind it is taken out.
  remove_loop-Becomes :
      (fuel : ℕ) (pre rest : Cells) (cur : Ptr)
      → Cursor s l f pre rest cur
      → length rest < fuel
      → Becomes s l
          (remove_loop fuel l item (last_of null pre) cur s)
          (contains item rest)
          (pre ++ rest)
          (pre ++ erase item rest)
  unfolding contains erase
  remove_loop-Becomes zero pre rest cur c h = absurd (omega arith)
  remove_loop-Becomes (suc fuel) pre [] cur c h =
      let e : cur ≡ null = Cursor-end c in
      rw append-nil (
        s,
        f,
        unfold remove_loop in rw e,
        Cursor-IsFifo c,
        record { elems_same = λ x o. refl; fifos_same = λ m n. refl },
      )
  remove_loop-Becomes (suc fuel) pre ((a, d) ∷ ys) cur c h =
      let (q, e, n, at, further) = Cursor-uncons c in
      let (q', _, _, _, at', out, back) = uncons c.back in
      let here : Cursor s l f pre ((a, d) ∷ ys) a = rw e at c in
      rw e (elim (Bool-cases (d == item)) [
        | inl hit ↦ rw hit (loop_hit s l f item a d q' pre ys here n at' fuel hit out back)
        | inr miss ↦ rw miss (
            loop_miss s l f item a d q pre ys here n at fuel (contains item ys) (erase item ys) miss
              (remove_loop-Becomes fuel (pre ++ (a, d) ∷ []) ys q further (omega arith)))
      ])

-- `nl_fifo_remove` takes out the first element that holds the item, and says whether there was one.
-- The fifo then holds the rest of the queue in its order, and no other fifo and no
-- element outside of the queue changes. The item is not NULL.
pub nl_fifo_remove-erase :
    (s : Store) (l : Ptr) (f : Fifo) (item : Ptr) (xs : Cells)
    → IsFifo s l f xs
    → item ≢ null
    → Becomes s l (nl_fifo_remove l item s) (contains item xs) xs (erase item xs)
unfolding nl_fifo_remove contains erase
nl_fifo_remove-erase s l f item [] v ni =
    let none_left : (f.count == 0) ≡ true = ground (arith, v.count) in
    (
      s,
      f,
      rw (not_null l v.ne_null, not_null item ni, load_fifo-ok s l v.at, none_left),
      v,
      record { elems_same = λ x o. refl; fifos_same = λ m n. refl },
    )
nl_fifo_remove-erase s l f item (x ∷ xs) v ni =
    rw (not_null l v.ne_null, not_null item ni, load_fifo-ok s l v.at, nonempty s l f v)
      (remove_loop-Becomes s l f item (suc f.count) [] (x ∷ xs) f.first (Cursor-start v)
        (omega (arith, v.count)))
