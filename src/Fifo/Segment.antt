-- ===== src/Fifo/Segment.antt =====
-- Which queue a fifo and the elements of a store represent.
use mathlib.Core.Bool.{or_assoc}
use nlutils.Prelude.{
  Bool-cases, inl, inr, ◌<◌, ◌≡◌, ◌≢◌, refl, ◌∙◌, Bool, true, false, ◌||◌, Option, none, some, List,
  [], ◌∷◌, ◌++◌, ◌==◌, length, arith,
}
use nlutils.Fifo.Store.{
  Ptr, null, Element, Fifo, Store, ok, load_fifo, store_fifo, set_fifos, set_elems, update, load,
  store, set_next, free, u32_mod,
}

-- The addresses and the items of the elements, in order.
abbrev pub Cells : Type 0
Cells = List (Ptr × Ptr)

-- The items alone: the queue that the program's user sees.
abbrev pub items : Cells → List Ptr
items [] = []
items ((_, d) ∷ xs) = d ∷ items xs

-- Whether one of the elements is at `p`.
abbrev pub has : Ptr → Cells → Bool
has p [] = false
has p (x ∷ xs) = (p == x.0) || has p xs

-- The address of the last element.
abbrev pub last_of : Ptr → Cells → Ptr
last_of p [] = p
last_of p ((q, _) ∷ xs) = last_of q xs

infix 40 ◌∈◌ ◌∉◌
abbrev pub ◌∈◌ : (p : Ptr) (queue : Cells) → Type 0
p ∈ queue = has p queue ≡ true

abbrev pub element : Ptr → Ptr → Ptr → Element
element q d l = record { next = q; item = d; owner = l }

abbrev pub ◌∉◌ : (p : Ptr) (queue : Cells) → Type 0
p ∉ queue = has p queue ≡ false

abbrev pub Elems : Type 0
Elems = Ptr → Option Element

pub ne_of_mem : (a b : Ptr) (xs : Cells) → a ∈ xs → b ∉ xs → b ≢ a
ne_of_mem a b xs h o e = cc

pub has-append :
    (p : Ptr) (front back : Cells) → has p (front ++ back) ≡ (has p front || has p back)
has-append p [] back = refl
has-append p (x ∷ front) back = rw (has-append p front back, or_assoc)

abbrev pub Disjoint : Cells → Cells → Type 0
Disjoint front back = (p : Ptr) → p ∈ front → p ∉ back

pub out-append : (a : Ptr) (xs ys : Cells) → a ∉ (xs ++ ys) → (a ∉ xs) × (a ∉ ys)
out-append a xs ys h = ground (arith, has-append a xs ys)

-- From `p` the links lead through the distinct elements `xs` of the fifo `l` to `stop`.
pub data Segment (h : Elems) (l stop : Ptr) : Ptr → Cells → Type 0 where
  nil : Segment h l stop stop []
  cons :
      {p q d : Ptr} {xs : Cells}
      → p ≢ null
      → d ≢ null
      → h p ≡ some (element q d l)
      → p ∉ xs
      → Segment h l stop q xs
      → Segment h l stop p ((p, d) ∷ xs)

-- The fifo at `l` holds the queue `xs`.
pub record IsFifo (s : Store) (l : Ptr) (f : Fifo) (xs : Cells) : Type 0 where
  pub ne_null : l ≢ null
  pub at : s.fifos l ≡ some f
  pub chain : Segment s.elems l null f.first xs
  pub last : f.last ≡ last_of null xs
  pub count : f.count ≡ length xs
  pub bound : length xs < u32_mod

-- What a change leaves alone: every element outside of `xs`, and every fifo but `l`.
pub record SameOutside (xs : Cells) (l : Ptr) (s t : Store) : Type 0 where
  pub elems_same : (a : Ptr) → a ∉ xs → t.elems a ≡ s.elems a
  pub fifos_same : (m : Ptr) → m ≢ l → t.fifos m ≡ s.fifos m

module _ {h : Elems} {l stop : Ptr} where
  pub eq_of_nil : {p : Ptr} → Segment h l stop p [] → p ≡ stop
  eq_of_nil nil = refl

  -- A segment survives any change that spares its own elements.
  pub frame :
      {g : Elems} {p : Ptr} {xs : Cells}
      → Segment h l stop p xs
      → ((a : Ptr) → a ∈ xs → g a ≡ h a)
      → Segment g l stop p xs
  frame nil same = nil
  frame (cons {p} n d e out s) same =
      cons n d (same p (ground arith) ∙ e) out (frame s λ a i. same a (ground arith))

  pub frame-update :
      {p : Ptr} {xs : Cells} (a : Ptr) (c : Option Element)
      → Segment h l stop p xs
      → a ∉ xs
      → Segment (update h a c) l stop p xs
  frame-update a c s out = frame s (ground arith)

  pub not-mem_of_none :
      {p : Ptr} {xs : Cells} (a : Ptr) → Segment h l stop p xs → h a ≡ none → a ∉ xs
  not-mem_of_none a nil unused = refl
  not-mem_of_none a (cons n d e out s) unused = ground (arith, not-mem_of_none a s unused)

  pub append :
      {end p : Ptr} {ys xs : Cells}
      → Segment h l stop p xs
      → Segment h l end stop ys
      → Disjoint xs ys
      → Segment h l end p (xs ++ ys)
  append nil t apart = t
  append (cons {p} n d e out s) t apart =
      cons n d e (rw (has-append, out) (apart p (ground arith)))
        (append s t λ a i. apart a (ground arith))

module _ (s : Store) (p : Ptr) {e : Element} (h : s.elems p ≡ some e) where
  pub load-ok : load p s ≡ ok e s
  unfolding load
  load-ok = rw (h, load)

  pub store-ok : (e' : Element) → store p e' s ≡ ok tt (set_elems p (some e') s)
  unfolding store
  store-ok e' = rw (h, load)

  pub set_next-ok :
      (q : Ptr) → set_next p q s ≡ ok tt (set_elems p (some (record e { next = q })) s)
  unfolding set_next
  set_next-ok q = rw (h, load) (rw (h, load))

  pub free-ok : free p s ≡ ok tt (set_elems p none s)
  unfolding free
  free-ok = rw (h, load)

module _ (s : Store) (l : Ptr) {f : Fifo} (h : s.fifos l ≡ some f) where
  pub load_fifo-ok : load_fifo l s ≡ ok f s
  unfolding load_fifo
  load_fifo-ok = rw (h, load_fifo)

  pub store_fifo-ok : (f' : Fifo) → store_fifo l f' s ≡ ok tt (set_fifos l (some f') s)
  unfolding store_fifo
  store_fifo-ok f' = rw (h, load_fifo)

pub update_self {ℓ} : {A : Type ℓ} (m : Ptr → A) (p : Ptr) (v : A) → update m p v p ≡ v
update_self m p v = ground arith

pub update_other {ℓ} : {A : Type ℓ} (m : Ptr → A) (p a : Ptr) (v : A) → a ≢ p → update m p v a ≡ m a
update_other m p a v h = ground arith

pub not_null : (p : Ptr) → p ≢ null → (p == null) ≡ false
not_null p h = ground arith

module _ {h : Elems} {l stop : Ptr} where
  -- No element of a segment is at NULL.
  pub mem_ne_null : {p : Ptr} {xs : Cells} (a : Ptr) → Segment h l stop p xs → a ∈ xs → a ≢ null
  mem_ne_null a nil i = cc
  mem_ne_null a (cons {p} n d e out s) i = elim (Bool-cases (a == p)) [
    | inl same ↦ ground arith
    | inr other ↦ mem_ne_null a s (ground arith)
  ]

  -- What a segment with an element says of the first one.
  pub uncons :
      {p a d : Ptr} {xs : Cells}
      → Segment h l stop p ((a, d) ∷ xs)
      → (q : Ptr) × (p ≡ a)
        × (a ≢ null)
        × (d ≢ null)
        × (h a ≡ some (element q d l))
        × (a ∉ xs)
        × Segment h l stop q xs
  uncons (cons {q} n d e out s) = (q, refl, n, d, e, out, s)

  -- The last element links to the end of the segment, and may link anywhere else.
  pub relink :
      (xs : Cells) {p a d : Ptr}
      → Segment h l stop p ((a, d) ∷ xs)
      → (dz : Ptr) × (h (last_of a xs) ≡ some (element stop dz l))
        × (last_of a xs ∈ ((a, d) ∷ xs))
        × ((r : Ptr)
            → Segment (update h (last_of a xs) (some (element r dz l))) l r p ((a, d) ∷ xs))
  relink [] {d} c =
      let (q, e, n, dn, at, out, s) = uncons c in
      let end : q ≡ stop = eq_of_nil s in
      (d, rw (← end) at, ground arith, λ r. rw e (cons n dn (update_self h _ _) refl nil))
  relink ((b, d') ∷ xs) {a} c =
      let (q, e, n, dn, at, out, s) = uncons c in
      let (dz, atz, inside, link) = relink xs s in
      (
        dz,
        atz,
        ground arith,
        λ r. rw e (cons n dn (update_other h _ a _ (ground arith) ∙ at) out (link r)),
      )
