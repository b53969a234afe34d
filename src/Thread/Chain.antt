-- ===== src/Thread/Chain.antt =====
-- Which list of threads a context and the info structures of a state represent.
use nlutils.Prelude.{
  ℕ, zero, suc, ◌<◌, ◌≡◌, ◌≢◌, refl, sym, ◌∙◌, Bool, true, false, ◌||◌, Option, none, some, List,
  [], ◌∷◌, ◌==◌, if◌then◌else◌, length, arith, Bool-cases, inl, inr,
}
use nlutils.Prelude.Action.{Outcome, done}
use nlutils.Ctype.{Bytes}
use nlutils.Fifo.Store.{Ptr, null, update}
use nlutils.Fifo.Segment.{update_self, update_other, not_null}
use nlutils.Thread.System.{
  NlThread, NlThreadCtx, System, load_info, set_next, set_threads, load_ctx,
}
use nlutils.Thread.Ops.{unlink_loop}

-- What an info structure says of its thread.
pub record Tracked : Type 0 where
  pub thread : ℕ
  pub name : Bytes
  pub func : Ptr
  pub arg : Ptr

abbrev pub info_of : (ctx : Ptr) → Tracked → (next : Ptr) → NlThread
info_of c d q = record {
  ctx = c;
  thread = d.thread;
  name = d.name;
  func = d.func;
  arg = d.arg;
  next = q;
}

abbrev pub Threads : Type 0
Threads = List (Ptr × Tracked)

unfoldable pub has : Ptr → Threads → Bool
has p [] = false
has p (x ∷ xs) = (x.0 == p) || has p xs

-- The list without the thread at `p`.
unfoldable pub erase : Ptr → Threads → Threads
erase p [] = []
erase p (x ∷ xs) = if x.0 == p then xs else x ∷ erase p xs

unfoldable pub find : Ptr → Threads → Option Tracked
find p [] = none
find p (x ∷ xs) = if x.0 == p then some x.1 else find p xs

abbrev pub Infos : Type 0
Infos = Ptr → Option NlThread

-- From `p` the links lead through the distinct structures `xs` of the context `c` to NULL.
pub data Chain (h : Infos) (c : Ptr) : Ptr → Threads → Type 0 where
  nil : Chain h c null []
  cons :
      {p q : Ptr} {d : Tracked} {xs : Threads}
      → p ≢ null
      → h p ≡ some (info_of c d q)
      → has p xs ≡ false
      → Chain h c q xs
      → Chain h c p ((p, d) ∷ xs)

pub record IsContext (s : System) (c : Ptr) (xs : Threads) : Type 0 where
  pub ctx : NlThreadCtx
  pub ne_null : c ≢ null
  pub at : s.ctxs c ≡ some ctx
  pub chain : Chain s.infos c ctx.threads xs

module _ {h : Infos} {c : Ptr} where
  pub frame :
      {g : Infos} {p : Ptr} {xs : Threads}
      → Chain h c p xs
      → ((a : Ptr) → has a xs ≡ true → g a ≡ h a)
      → Chain g c p xs
  unfolding has
  frame nil same = nil
  frame (cons {p} n at out k) same =
      cons n (same p (ground arith) ∙ at) out (frame k λ a i. same a (ground arith))

  pub frame-update :
      {p : Ptr} {xs : Threads} (a : Ptr) (x : Option NlThread)
      → Chain h c p xs
      → has a xs ≡ false
      → Chain (update h a x) c p xs
  frame-update a x k out = frame k (ground arith)

  pub not-has_of_none :
      {p : Ptr} {xs : Threads} (a : Ptr) → Chain h c p xs → h a ≡ none → has a xs ≡ false
  unfolding has
  not-has_of_none a nil unused = refl
  not-has_of_none a (cons n at out k) unused = ground (arith, not-has_of_none a k unused)

  pub null_of_nil : {p : Ptr} → Chain h c p [] → p ≡ null
  null_of_nil nil = refl

  pub uncons :
      {p a : Ptr} {d : Tracked} {xs : Threads}
      → Chain h c p ((a, d) ∷ xs)
      → (q : Ptr) × (p ≡ a)
        × (a ≢ null)
        × (h a ≡ some (info_of c d q))
        × (has a xs ≡ false)
        × Chain h c q xs
  uncons (cons {q} n at out k) = (q, refl, n, at, out, k)

  -- A listed thread has its structure.
  pub found :
      {t : Ptr} {d : Tracked} (p : Ptr) (xs : Threads)
      → Chain h c p xs
      → find t xs ≡ some d
      → (t ≢ null) × ((q : Ptr) × (h t ≡ some (info_of c d q)))
  unfolding find
  found p [] k e = cc
  found {t} p ((a, d') ∷ xs) k e =
      let (q, _, n, at, _, rest) = uncons k in
      elim (Bool-cases (a == t)) [
        | inl hit ↦ let same : a ≡ t = ground arith in ground arith
        | inr miss ↦ found q xs rest (rw miss at e)
      ]

pub has-erase : (a t : Ptr) (xs : Threads) → has a xs ≡ false → has a (erase t xs) ≡ false
unfolding has erase
has-erase a t [] out = refl
has-erase a t (x ∷ xs) out = ground (arith, has-erase a t xs)

module _ (s : System) (t : Ptr) {x : NlThread} (h : s.infos t ≡ some x) where
  pub load_info-ok : load_info t s ≡ done x s
  unfolding load_info
  load_info-ok = rw (h, load_info)

  pub set_next-ok :
      (q : Ptr)
      → set_next t q s
        ≡ done tt (record s { infos = update s.infos t (some (record x { next = q })) })
  unfolding set_next
  set_next-ok q = rw load_info-ok

module _ (s : System) (c : Ptr) {x : NlThreadCtx} (h : s.ctxs c ≡ some x) where
  pub load_ctx-ok : load_ctx c s ≡ done x s
  unfolding load_ctx
  load_ctx-ok = rw (h, load_ctx)

  pub set_threads-ok :
      (p : Ptr)
      → set_threads c p s
        ≡ done tt (record s { ctxs = update s.ctxs c (some (record x { threads = p })) })
  unfolding set_threads
  set_threads-ok p = rw load_ctx-ok

-- The loop behind the first structure: it keeps the list up to `prev`, and unlinks `t` behind it.
abbrev Unlinks : System → (c t prev : Ptr) → Tracked → Threads → Outcome System Bool → Type 0
Unlinks s c t prev d xs r =
    (h : Infos) × (r ≡ done (has t xs) (record s { infos = h }))
    × Chain h c prev ((prev, d) ∷ erase t xs)
    × ((a : Ptr) → has a ((prev, d) ∷ xs) ≡ false → h a ≡ s.infos a)
    × (h t ≡ s.infos t)

module _ (s : System) (c t prev a q : Ptr) (d d' : Tracked) (xs : Threads) (n : prev ≢ null)
    (nt : prev ≢ t) (at : s.infos prev ≡ some (info_of c d a))
    (out : has prev ((a, d') ∷ xs) ≡ false) (na : a ≢ null)
    (here : s.infos a ≡ some (info_of c d' q)) (fuel : ℕ) where
  loop_hit :
      (a == t) ≡ true
      → Chain s.infos c q xs
      → Unlinks s c t prev d ((a, d') ∷ xs) (unlink_loop (suc fuel) c t prev a s)
  unfolding has erase unlink_loop
  loop_hit hit rest =
      let later : has prev xs ≡ false = ground arith in
      (
        update s.infos prev (some (info_of c d q)),
        rw (not_null a na, load_info-ok s a here, hit, not_null prev n, set_next-ok s prev at q)
            refl,
        rw hit (
            cons n (update_self s.infos prev _) later
              (frame-update prev (some (info_of c d q)) rest later)),
        (λ x o. update_other s.infos prev x _ (ground arith)),
        update_other s.infos prev t _ (λ i. nt (sym i)),
      )

  loop_miss :
      (a == t) ≡ false
      → Unlinks s c t a d' xs (unlink_loop fuel c t a q s)
      → Unlinks s c t prev d ((a, d') ∷ xs) (unlink_loop (suc fuel) c t prev a s)
  unfolding has erase unlink_loop
  loop_miss miss (h, run, k', same, kept) =
      let later : has prev (erase t xs) ≡ false = has-erase prev t xs (ground arith) in
      (
        h,
        rw (not_null a na, load_info-ok s a here, miss) run,
        rw miss (cons n (same prev out ∙ at) (ground arith) k'),
        (λ x o. same x (ground arith)),
        kept,
      )

module _ (s : System) (c t : Ptr) where
  pub unlink_loop-Unlinks :
      (fuel : ℕ) (prev cur : Ptr) (d : Tracked) (xs : Threads)
      → prev ≢ null
      → prev ≢ t
      → s.infos prev ≡ some (info_of c d cur)
      → has prev xs ≡ false
      → Chain s.infos c cur xs
      → length xs < fuel
      → Unlinks s c t prev d xs (unlink_loop fuel c t prev cur s)
  unlink_loop-Unlinks zero prev cur d xs n nt at out k small = absurd (omega arith)
  unlink_loop-Unlinks (suc fuel) prev cur d [] n nt at out k small =
      let e : cur ≡ null = null_of_nil k in
      (s.infos, unfold unlink_loop has in rw e, unfold erase in cons n at out k, λ a o. refl, refl)
  unlink_loop-Unlinks (suc fuel) prev cur d ((a, d') ∷ xs) n nt at out k small =
      let (q, e, na, here, out', rest) = uncons k in
      let at' : s.infos prev ≡ some (info_of c d a) = rw (← e) at in
      rw e (elim (Bool-cases (a == t)) [
        | inl hit ↦ loop_hit s c t prev a q d d' xs n nt at' out na here fuel hit rest
        | inr miss ↦
            loop_miss s c t prev a q d d' xs n nt at' out na here fuel miss
              (unlink_loop-Unlinks fuel a q d' xs na (ground arith) here out' rest (omega arith))
      ])
