-- ===== src/Hash/Find.antt =====
-- Looking a key up: the hash as the list of its entries.
use nlutils.Prelude.{
  ℕ, zero, suc, ◌<◌, ◌≡◌, ◌≢◌, refl, sym, ◌∙◌, true, false, Option, none, some, List, [], ◌∷◌, ◌==◌,
  if◌then◌else◌, length, arith, Bool-cases, inl, inr,
}
use nlutils.Ctype.{Bytes, IsCString}
use nlutils.Prelude.Int.{ℤ, pos, negsuc}
use nlutils.Str.Compare.{strcmp, strcmp-zero, strcmp_same}
use nlutils.Fifo.Store.{Ptr, null, Fifo}
use nlutils.Fifo.Segment.{Cells, IsFifo, not_null}
use nlutils.Fifo.Queue.{nonempty}
use nlutils.Fifo.Iterate.{
  At, at_start, nl_fifo_next-ok, nl_fifo_next-empty, At-next, item_at, head_iter,
}
use nlutils.Fifo.Walk.{Iter, start, at}
use nlutils.Hash.World.{HashEntry, Hash, World, done, give, ◌>>=◌, load_hash, load_entry}
use nlutils.Hash.Ops.{same_key, next_entry, find_loop, nl_hash_find, nl_hash_get, rounds_of}

-- The entries at the items of a queue.
pub data Entries (w : World) : Cells → List HashEntry → Type 0 where
  nil : Entries w [] []
  cons :
      {a d : Ptr} {e : HashEntry} {xs : Cells} {es : List HashEntry}
      → d ≢ null
      → w.entries d ≡ some e
      → Entries w xs es
      → Entries w ((a, d) ∷ xs) (e ∷ es)

-- The hash at `p` holds the entries `es` in order.
pub record IsHash (w : World) (p : Ptr) (es : List HashEntry) : Type 0 where
  pub hash : Hash
  pub fifo : Fifo
  pub xs : Cells
  pub ne_null : p ≢ null
  pub at_hash : w.hashes p ≡ some hash
  pub table : IsFifo w.mem hash.table fifo xs
  pub entries : Entries w xs es

-- The address of the first entry with the key, and its value.
unfoldable pub entry_of : (w : World) → Bytes → Cells → List HashEntry → Ptr
entry_of w key ((a, d) ∷ xs) (e ∷ es) = if same_key e.key key then d else entry_of w key xs es
entry_of w key _ _ = null

unfoldable lookup : Bytes → List HashEntry → Option Bytes
lookup key [] = none
lookup key (e ∷ es) = if same_key e.key key then some e.value else lookup key es

load_entry-ok :
    (w : World) (p : Ptr) {e : HashEntry} → w.entries p ≡ some e → load_entry p w ≡ done e w
unfolding load_entry
load_entry-ok w p h = rw (h, load_entry)

load_hash-ok : (w : World) (p : Ptr) {h : Hash} → w.hashes p ≡ some h → load_hash p w ≡ done h w
unfolding load_hash
load_hash-ok w p h = rw (h, load_hash)

module _ (w : World) (l : Ptr) (f : Fifo) (nl : l ≢ null) (h : w.mem.fifos l ≡ some f)
    (n : (f.count == 0) ≡ false) (key : Bytes) where
  next_entry-ok :
      (i : Iter) (xs : Cells)
      → At w.mem l f i xs
      → next_entry l i w ≡ done (item_at xs 0, head_iter xs) w
  unfolding next_entry
  next_entry-ok i xs c = rw (nl_fifo_next-ok w.mem l f h n nl i xs c)

  find_loop-entry_of :
      (fuel : ℕ) (i : Iter) (xs : Cells) (es : List HashEntry)
      → At w.mem l f i xs
      → Entries w xs es
      → length xs < fuel
      → find_loop fuel l key i w ≡ done (entry_of w key xs es) w
  unfolding find_loop entry_of item_at
  find_loop-entry_of zero i xs es c v small = absurd (omega arith)
  find_loop-entry_of (suc fuel) i _ _ c nil small = rw (next_entry-ok i [] c)
  find_loop-entry_of (suc fuel) i _ _ c (cons {a} {d} {e} {xs} {es} nd here v) small =
      rw (next_entry-ok i ((a, d) ∷ xs) c, not_null d nd, load_entry-ok w d here)
        (elim (Bool-cases (same_key e.key key)) [
          | inl hit ↦ rw hit
          | inr miss ↦
              rw (
                miss,
                find_loop-entry_of fuel (at a) xs es (At-next w.mem l f h n c) v (omega arith),
              )
        ])

module _ (w : World) (p : Ptr) (es : List HashEntry) (key : Bytes) where
  -- The first entry with the key, by its address, or NULL.
  find-entry_of : (v : IsHash w p es) → nl_hash_find p key w ≡ done (entry_of w key v.xs es) w
  unfolding nl_hash_find
  find-entry_of v = rw (load_hash-ok w p v.at_hash) (go v.xs es v.table v.entries)
    where
      go :
          (xs : Cells) (es : List HashEntry)
          → IsFifo w.mem v.hash.table v.fifo xs
          → Entries w xs es
          → find_loop (rounds_of (w.mem.fifos v.hash.table)) v.hash.table key start w
            ≡ done (entry_of w key xs es) w
      go [] _ t nil = rw t.at (
          unfold find_loop next_entry entry_of in
          rw (nl_fifo_next-empty w.mem v.hash.table v.fifo t))
      go (x ∷ xs) es t en = rw t.at (
          find_loop-entry_of w v.hash.table v.fifo t.ne_null t.at
            (nonempty w.mem v.hash.table v.fifo t) key (suc v.fifo.count) start (x ∷ xs) es
            (at_start t.chain) en (omega (arith, t.count)))

  get-entry_of :
      (xs : Cells) (es : List HashEntry)
      → Entries w xs es
      → (if entry_of w key xs es == null
            then give none
            else load_entry (entry_of w key xs es) >>= (λ e. give (some e.value)))
          w
        ≡ done (lookup key es) w
  unfolding entry_of lookup
  get-entry_of _ _ nil = refl
  get-entry_of _ _ (cons {d} {e} {xs} {es} nd here en) = elim (Bool-cases (same_key e.key key)) [
    | inl hit ↦ rw (hit, not_null d nd, load_entry-ok w d here)
    | inr miss ↦ rw miss (get-entry_of xs es en)
  ]

  get-lookup : IsHash w p es → nl_hash_get p (some key) w ≡ done (lookup key es) w
  unfolding nl_hash_get
  get-lookup v = rw (not_null p v.ne_null, find-entry_of v) (get-entry_of v.xs es v.entries)

-- What the list holds for a key: the value of the first entry whose key is equal to it, or nothing if no entry
-- has an equal key.
pub data IsFirst (key : Bytes) : List HashEntry → Option Bytes → Type 0 where
  absent : IsFirst key [] none
  here : {e : HashEntry} {es : List HashEntry} → e.key ≡ key → IsFirst key (e ∷ es) (some e.value)
  later :
      {e : HashEntry} {es : List HashEntry} {found : Option Bytes}
      → e.key ≢ key
      → IsFirst key es found
      → IsFirst key (e ∷ es) found

-- The keys hold no zero byte.
unfoldable pub HasKeys : List HashEntry → Type 0
HasKeys [] = Unit {0}
HasKeys (e ∷ es) = IsCString e.key × HasKeys es

pub same_key-equal : (a b : Bytes) → IsCString a → IsCString b → same_key a b ≡ true → a ≡ b
unfolding same_key
same_key-equal a b v w h = strcmp-zero a b v w (zero_of (strcmp a b) h)
  where
    zero_of : (n : ℤ) → elim n [ pos m ↦ m == 0 | negsuc m ↦ false ] ≡ true → n ≡ pos 0
    zero_of (pos m) h = ground arith
    zero_of (negsuc m) h = absurd (cc)

pub same_key-differ : (a b : Bytes) → same_key a b ≡ false → a ≢ b
unfolding same_key
same_key-differ a b h e =
    let same : same_key a b ≡ true = rw (e, same_key, strcmp_same b) refl in
    let bad : true ≡ false = sym same ∙ h in absurd (cc)

lookup-IsFirst :
    (key : Bytes) (es : List HashEntry)
    → IsCString key
    → HasKeys es
    → IsFirst key es (lookup key es)
unfolding lookup HasKeys
lookup-IsFirst key [] k v = absent
lookup-IsFirst key (e ∷ es) k v = elim (Bool-cases (same_key e.key key)) [
  | inl hit ↦ rw hit (here (same_key-equal e.key key v.0 k hit))
  | inr miss ↦ rw miss (later (same_key-differ e.key key miss) (lookup-IsFirst key es k v.1))
]

-- `nl_hash_get` always ends and changes nothing. It gives the value of the first entry whose key is equal to the
-- given one, or NULL if no entry has an equal key. The keys hold no zero byte.
pub nl_hash_get-lookup :
    (w : World) (p : Ptr) (es : List HashEntry) (key : Bytes)
    → IsHash w p es
    → IsCString key
    → HasKeys es
    → (found : Option Bytes) × (nl_hash_get p (some key) w ≡ done found w) × IsFirst key es found
nl_hash_get-lookup w p es key v k ks =
    (lookup key es, get-lookup w p es key v, lookup-IsFirst key es k ks)
