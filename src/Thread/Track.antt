-- ===== src/Thread/Track.antt =====
-- The end of `nl_create_thread`: the started thread is put in the list, or cancelled when the lock cannot be released.
use nlutils.Prelude.{
  ℕ, ◌≡◌, ◌≢◌, refl, sym, subst, ◌∙◌, true, false, Option, none, some, List, [], ◌∷◌, ◌++◌, ◌==◌,
  if◌then◌else◌, arith, Bool-cases, inl, inr,
}
use nlutils.Prelude.Action.{Outcome, done}
use nlutils.Fifo.Store.{Ptr, null, update}
use nlutils.Fifo.Segment.{update_self, update_other}
use nlutils.Thread.System.{NlThreadCtx, unlock, create, cancel, System, later_answers}
use nlutils.Thread.Ops.{track_thread}
use nlutils.Thread.Locks.{unlocked, mutex_unlock-ok, at_unlocked, other_unlocked, free_info-ok}
use nlutils.Thread.Chain.{
  Tracked, info_of, Threads, has, Infos, cons, IsContext, frame, frame-update, load_info-ok,
  load_ctx-ok, set_threads-ok,
}

abbrev pub with_answers : System → List ℕ → System
with_answers s a = record s { answers = a }

-- The list after the call.
abbrev pub added : (ret : ℕ) → Ptr × Tracked → Threads → Threads
added ret x xs = if ret == 0 then x ∷ xs else xs

pub added-fails :
    (ret : ℕ) (x : Ptr × Tracked) (xs : Threads) → (ret == 0) ≡ false → added ret x xs ≡ xs
added-fails ret x xs miss = rw miss refl

pub record Created (s s' : System) (c : Ptr) (x : Ptr × Tracked) (xs : Threads) (ret : ℕ)
    : Type 0 where
  pub context : IsContext s' c (added ret x xs)
  pub infos_same : (a : Ptr) → has a (added ret x xs) ≡ false → s'.infos a ≡ s.infos a
  pub ctxs_same : (m : Ptr) → m ≢ c → s'.ctxs m ≡ s.ctxs m

-- A call that fails and leaves the memory as it was.
pub fails :
    (s s' : System) (c : Ptr) (x : Ptr × Tracked) (xs : Threads) (ret : ℕ)
    → (ret == 0) ≡ false
    → IsContext s' c xs
    → ((a : Ptr) → s'.infos a ≡ s.infos a)
    → ((m : Ptr) → m ≢ c → s'.ctxs m ≡ s.ctxs m)
    → Created s s' c x xs ret
fails s s' c x xs ret miss v infos ctxs = record {
  context = subst (IsContext s' c) (sym (added-fails ret x xs miss)) v;
  infos_same = λ a o. infos a;
  ctxs_same = ctxs;
}

-- The same list in another state.
pub relist :
    (s s' : System) (c : Ptr) (xs : Threads) (y : NlThreadCtx)
    → (v : IsContext s c xs) → s'.ctxs c ≡ some y
    → y.threads ≡ v.ctx.threads
    → ((a : Ptr) → has a xs ≡ true → s'.infos a ≡ s.infos a)
    → IsContext s' c xs
relist s s' c xs y v at list same = record {
  ne_null = v.ne_null;
  ctx = y;
  at = at;
  chain = rw list (frame v.chain same);
}

-- Storing at an unused address, and freeing it, changes nothing.
pub update_unused :
    {A : Type 0} (m : Ptr → Option A) (t : Ptr) (x : Option A)
    → m t ≡ none
    → (a : Ptr) → update (update m t x) t none a ≡ m a
update_unused m t x unused a = elim (Bool-cases (a == t)) [
  | inl same ↦ let e : a ≡ t = ground arith in rw (e, unused) (ground arith)
  | inr other ↦ ground arith
]

module _ (c : Ptr) (xs : Threads) where
  -- Every path, told from the state `b` before the call, with the result and what is stored.
  abbrev pub Ends :
      (b s : System)
      → (t : Ptr) → Tracked
      → (ret : ℕ) → (stored : Option Ptr) → (System → Outcome System (ℕ × Option Ptr))
      → Type 0
  Ends b s t d ret stored run =
      (s' : System) × (run s ≡ done (ret, stored) s') × Created b s' c (t, d) xs ret

  -- The structure is there, but for the handle and the link.
  module _ (b s : System) (v : IsContext s c xs) (t u : ℕ) (rest : List ℕ) (d : Tracked)
      (nt : t ≢ null) (out : has t xs ≡ false)
      (blank : s.infos t ≡ some (info_of c (record d { thread = 0 }) null))
      (unused : b.infos t ≡ none) (before : (a : Ptr) → a ≢ t → s.infos a ≡ b.infos a)
      (others : (m : Ptr) → m ≢ c → s.ctxs m ≡ b.ctxs m) where
    abbrev s0 : System
    s0 = with_answers s (u ∷ rest)

    abbrev emitted : System
    emitted = record s0 { trace = s.trace ++ create d.thread ∷ [] }

    abbrev h1 : Infos
    h1 = update s.infos t (some (info_of c d v.ctx.threads))

    abbrev y : NlThreadCtx
    y = record v.ctx { threads = t }

    abbrev linked : System
    linked = record emitted { infos = h1; ctxs = update s.ctxs c (some y) }

    at_y : linked.ctxs c ≡ some y
    at_y = update_self s.ctxs c _

    at_t : h1 t ≡ some (info_of c d v.ctx.threads)
    at_t = update_self s.infos t _

    tracked : (u == 0) ≡ true → Ends b s0 t d 0 (some t) (track_thread c t d.thread)
    unfolding track_thread has
    tracked ok = (
      unlocked linked c y,
      rw
          (
            load_ctx-ok emitted c v.at,
            load_info-ok emitted t blank,
            set_threads-ok (record emitted { infos = h1 }) c v.at,
            mutex_unlock-ok linked c y at_y,
            ok,
          )
          refl,
      record {
        context = record {
          ne_null = v.ne_null;
          ctx = _;
          at = at_unlocked linked c y at_y;
          chain = cons nt at_t out (frame-update t _ v.chain out);
        };
        infos_same =
            λ a o. let n : a ≢ t = ground arith in update_other s.infos t a _ n ∙ before a n;
        ctxs_same = λ m n. other_unlocked linked c y m n ∙ update_other s.ctxs c m _ n ∙ others m n;
      },
    )

    -- The thread is cancelled, and the list is as it was.
    abbrev cancelled : System
    cancelled = record linked {
      answers = later_answers rest;
      trace = (linked.trace ++ unlock c ∷ []) ++ cancel d.thread ∷ [];
    }

    abbrev unlinked : System
    unlinked = record cancelled { ctxs = update linked.ctxs c (some v.ctx) }

    untracked : (u == 0) ≡ false → Ends b s0 t d u (some t) (track_thread c t d.thread)
    unfolding track_thread
    untracked bad = (
      record unlinked { infos = update h1 t none },
      rw
          (
            load_ctx-ok emitted c v.at,
            load_info-ok emitted t blank,
            set_threads-ok (record emitted { infos = h1 }) c v.at,
            mutex_unlock-ok linked c y at_y,
            bad,
            load_info-ok (record linked { answers = rest; trace = linked.trace ++ unlock c ∷ [] }) t
                at_t,
            set_threads-ok cancelled c at_y,
            free_info-ok unlinked t at_t,
          )
          refl,
      fails b _ c (t, d) xs u bad
          (relist s _ c xs v.ctx v (update_self linked.ctxs c _) refl λ a i.
            let n : a ≢ t = λ e. cc in update_other h1 t a none n ∙ update_other s.infos t a _ n)
          (λ a. elim (Bool-cases (a == t)) [
            | inl same ↦ let e : a ≡ t = ground arith in rw e (update_self h1 t none ∙ sym unused)
            | inr other ↦
                let n : a ≢ t = ground arith in
                update_other h1 t a none n ∙ update_other s.infos t a _ n ∙ before a n
          ])
          (λ m n. update_other linked.ctxs c m _ n ∙ update_other s.ctxs c m _ n ∙ others m n),
    )

    pub track_thread-Ends : Ends b s0 t d u (some t) (track_thread c t d.thread)
    track_thread-Ends = elim (Bool-cases (u == 0)) [
      | inl ok ↦
          let e : u ≡ 0 = ground arith in
          subst (λ n. Ends b s0 t d n (some t) (track_thread c t d.thread)) (sym e) (tracked ok)
      | inr bad ↦ untracked bad
    ]
