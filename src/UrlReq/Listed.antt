-- ===== src/UrlReq/Listed.antt =====
-- The list of active requests of src/url_req.c, and the requests that wait in the control pipe.
use nlutils.Prelude.{
  ◌≡◌, ◌≢◌, refl, Bool, true, false, not, ◌&&◌, ◌||◌, List, [], ◌∷◌, ◌++◌, ◌==◌, arith, Bool-cases,
  inl, inr,
}
use nlutils.Fifo.Store.{Ptr, null}
use nlutils.UrlReq.State.{without}

unfoldable pub listed : Ptr → List Ptr → Bool
listed p [] = false
listed p (q ∷ qs) = (q == p) || listed p qs

pub without-new : (p : Ptr) (qs : List Ptr) → listed p qs ≡ false → without p qs ≡ qs
unfolding listed without
without-new p [] h = refl
without-new p (q ∷ qs) h = ground (arith, without-new p qs)

pub without-last : (p : Ptr) (qs : List Ptr) → listed p qs ≡ false → without p (qs ++ p ∷ []) ≡ qs
unfolding listed without
without-last p [] h = ground arith
without-last p (q ∷ qs) h = ground (arith, without-last p qs)

pub listed-append : (q p : Ptr) (qs : List Ptr) → listed q (qs ++ p ∷ []) ≡ (listed q qs || p == q)
unfolding listed
listed-append q p [] = ground arith
listed-append q p (x ∷ qs) = rw (listed-append q p qs) (ground arith)

-- No request is in the list twice.
unfoldable pub unique : List Ptr → Bool
unique [] = true
unique (q ∷ qs) = not (listed q qs) && unique qs

pub unique-append :
    (p : Ptr) (qs : List Ptr)
    → unique qs ≡ true
    → listed p qs ≡ false
    → unique (qs ++ p ∷ []) ≡ true
unfolding unique listed
unique-append p [] u h = refl
unique-append p (q ∷ qs) u h =
    let rest : unique (qs ++ p ∷ []) ≡ true = unique-append p qs (ground arith) (ground arith) in
    rw (listed-append q p qs, rest) (ground arith)

pub listed-without :
    (q p : Ptr) (qs : List Ptr)
    → unique qs ≡ true
    → listed q (without p qs) ≡ (listed q qs && not (q == p))
unfolding unique listed without
listed-without q p [] u = refl
listed-without q p (x ∷ qs) u =
    let rest : listed q (without p qs) ≡ (listed q qs && not (q == p)) =
      listed-without q p qs (ground arith) in
    elim (Bool-cases (x == p)) [
      | inl hit ↦
          let e : x ≡ p = ground arith in
          elim (Bool-cases (q == p)) [
            | inl same ↦
                let i : q ≡ x = ground arith in
                let out : listed q qs ≡ false = rw i (ground arith) in rw hit (ground (arith, out))
            | inr other ↦ rw hit (ground arith)
          ]
      | inr miss ↦ rw (miss, rest) (ground arith)
    ]

pub unique-without : (p : Ptr) (qs : List Ptr) → unique qs ≡ true → unique (without p qs) ≡ true
unfolding unique listed without
unique-without p [] u = refl
unique-without p (x ∷ qs) u =
    let rest : unique (without p qs) ≡ true = unique-without p qs (ground arith) in
    elim (Bool-cases (x == p)) [
      | inl hit ↦ rw hit (ground arith)
      | inr miss ↦ rw (miss, listed-without x p qs (ground arith), rest) (ground arith)
    ]

-- What waits in the pipe is NULL, or a listed request that waits only once.
unfoldable pub pending : (reqlist pipe : List Ptr) → Bool
pending l [] = true
pending l (q ∷ qs) = pending l qs && (q == null || listed q l && not (listed q qs))

pub pending-listed :
    (p : Ptr) (l qs : List Ptr)
    → pending l qs ≡ true
    → p ≢ null
    → listed p l ≡ false
    → listed p qs ≡ false
unfolding pending listed
pending-listed p l [] h n out = refl
pending-listed p l (q ∷ qs) h n out =
    let rest : listed p qs ≡ false = pending-listed p l qs (ground arith) n out in
    elim (Bool-cases (q == p)) [
      | inl same ↦
          let e : q ≡ p = ground arith in
          let out' : listed q l ≡ false = rw e out in absurd (n (ground (arith, out')))
      | inr other ↦ rw (other, rest) refl
    ]

pub pending-null : (l qs : List Ptr) → pending l qs ≡ true → pending l (qs ++ null ∷ []) ≡ true
unfolding pending listed
pending-null l [] h = refl
pending-null l (q ∷ qs) h =
    let rest : pending l (qs ++ null ∷ []) ≡ true = pending-null l qs (ground arith) in
    rw (rest, listed-append q null qs) (ground arith)

pub pending-append :
    (p : Ptr) (l qs : List Ptr)
    → pending l qs ≡ true
    → listed p qs ≡ false
    → pending (l ++ p ∷ []) (qs ++ p ∷ []) ≡ true
unfolding pending listed
pending-append p l [] h out = rw (listed-append p p l) (ground arith)
pending-append p l (q ∷ qs) h out =
    let rest : pending (l ++ p ∷ []) (qs ++ p ∷ []) ≡ true =
      pending-append p l qs (ground arith) (ground arith) in
    rw (rest, listed-append q p qs, listed-append q p l) (ground arith)

pub pending-without :
    (p : Ptr) (l qs : List Ptr)
    → pending l qs ≡ true
    → unique l ≡ true
    → listed p qs ≡ false
    → pending (without p l) qs ≡ true
unfolding pending listed
pending-without p l [] h u out = refl
pending-without p l (q ∷ qs) h u out =
    let rest : pending (without p l) qs ≡ true =
      pending-without p l qs (ground arith) u (ground arith) in
    rw (rest, listed-without q p l u) (ground arith)
