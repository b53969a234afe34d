-- ===== src/Fifo/Cursor.antt =====
-- A place in a fifo's queue: what is in front of it and what is behind it.
use nlutils.Prelude.{
  ◌+◌, ◌<◌, ◌≡◌, ◌≢◌, refl, ◌∙◌, some, [], ◌∷◌, ◌++◌, length, length-append, arith, append-nil,
  append_assoc,
}
use nlutils.Fifo.Store.{Ptr, null, Fifo, Store, u32_mod}
use nlutils.Fifo.Segment.{
  Cells, ◌∈◌, Disjoint, last_of, element, Segment, nil, cons, IsFifo, eq_of_nil, append, uncons,
  has-append,
}

-- `cur` stands behind the elements `pre` of the fifo `l`, and heads the elements `rest`.
pub record Cursor (s : Store) (l : Ptr) (f : Fifo) (pre rest : Cells) (cur : Ptr) : Type 0 where
  pub ne_null : l ≢ null
  pub at : s.fifos l ≡ some f
  pub front : Segment s.elems l cur f.first pre
  pub back : Segment s.elems l null cur rest
  pub apart : Disjoint pre rest
  pub last : f.last ≡ last_of null (pre ++ rest)
  pub count : f.count ≡ length pre + length rest
  pub bound : length pre + length rest < u32_mod

pub last_of-front :
    (p : Ptr) (xs : Cells) (y : Ptr × Ptr) (ys : Cells)
    → last_of p (xs ++ y ∷ ys) ≡ last_of null (y ∷ ys)
last_of-front p [] y ys = refl
last_of-front p ((q, _) ∷ xs) y ys = last_of-front q xs y ys

pub last_of-mem : (p : Ptr) (x : Ptr × Ptr) (xs : Cells) → last_of p (x ∷ xs) ∈ (x ∷ xs)
last_of-mem p (q, _) [] = ground arith
last_of-mem p (q, _) (y ∷ ys) = ground (arith, last_of-mem q y ys)

module _ {s : Store} {l : Ptr} {f : Fifo} where
  pub Cursor-start : {xs : Cells} → IsFifo s l f xs → Cursor s l f [] xs f.first
  Cursor-start v = record {
    ne_null = v.ne_null;
    at = v.at;
    front = nil;
    back = v.chain;
    apart = λ a i. cc;
    last = v.last;
    count = omega (arith, v.count);
    bound = omega (arith, v.bound);
  }

  -- The element at the place, and the place one further.
  pub Cursor-uncons :
      {a d cur : Ptr} {pre rest : Cells}
      → Cursor s l f pre ((a, d) ∷ rest) cur
      → (q : Ptr) × (cur ≡ a)
        × (a ≢ null)
        × (s.elems a ≡ some (element q d l))
        × Cursor s l f (pre ++ (a, d) ∷ []) rest q
  Cursor-uncons {a} {d} {pre} {rest} c =
      let (q, e, n, dn, at, out, back) = uncons c.back in
      (
        q,
        e,
        n,
        at,
        record {
          ne_null = c.ne_null;
          at = c.at;
          front =
              append (rw e at c.front) (cons n dn at refl nil) (λ b i. ground (arith, c.apart b i));
          back = back;
          apart = λ b i. ground (arith, c.apart b, has-append b pre ((a, d) ∷ []), out);
          last = rw append_assoc c.last;
          count = omega (arith, c.count, length-append pre ((a, d) ∷ []));
          bound = omega (arith, c.bound, length-append pre ((a, d) ∷ []));
        },
      )

  pub Cursor-end : {cur : Ptr} {pre : Cells} → Cursor s l f pre [] cur → cur ≡ null
  Cursor-end c = eq_of_nil c.back

  -- A queue is what is in front of a place and what is behind it.
  pub Cursor-IsFifo : {cur : Ptr} {pre : Cells} → Cursor s l f pre [] cur → IsFifo s l f pre
  Cursor-IsFifo {pre} c = record {
    ne_null = c.ne_null;
    at = c.at;
    chain = rw (Cursor-end c) at c.front;
    last = c.last ∙ rw append-nil;
    count = omega (arith, c.count);
    bound = omega (arith, c.bound);
  }
