-- ===== src/Thread/Join.antt =====
-- `nl_join_thread` takes one thread out of the list of its context, joins it and frees its structure.
use nlutils.Prelude.{
  ℕ, zero, suc, ◌<◌, ◌≡◌, ◌≢◌, refl, ◌∙◌, Bool, true, false, Option, none, some, [], ◌∷◌, ◌++◌,
  ◌==◌, length, arith, Bool-cases, inl, inr, append_assoc,
}
use nlutils.Prelude.Action.{Outcome, done}
use nlutils.Fifo.Store.{Ptr, null, update}
use nlutils.Fifo.Segment.{update_self, update_other, not_null}
use nlutils.Thread.System.{NlThreadCtx, lock, unlock, join, System, first_answer, later_answers}
use nlutils.Thread.Ops.{unlink_loop, nl_join_thread}
use nlutils.Thread.Locks.{
  taken, released, locked, unlocked, mutex_lock-ok, mutex_unlock-ok, at_locked, at_unlocked,
  other_locked, other_unlocked, free_info-ok,
}
use nlutils.Thread.Chain.{
  Tracked, info_of, Threads, has, erase, find, Infos, Chain, IsContext, frame-update, null_of_nil,
  uncons, found, load_info-ok, load_ctx-ok, set_threads-ok, unlink_loop-Unlinks,
}

-- The loop over the whole list: the context then lists the others, and no structure but those of
-- the list has changed, nor that of `t`.
abbrev pub Removes : System → (c t : Ptr) → NlThreadCtx → Threads → Outcome System Bool → Type 0
Removes s c t x xs r =
    (h : Infos) × (g : Ptr → Option NlThreadCtx) × (p : Ptr) × (r
      ≡ done (has t xs) (record s { infos = h; ctxs = g }))
    × (g c ≡ some (record x { threads = p }))
    × ((m : Ptr) → m ≢ c → g m ≡ s.ctxs m)
    × Chain h c p (erase t xs)
    × ((a : Ptr) → has a xs ≡ false → h a ≡ s.infos a)
    × (h t ≡ s.infos t)

module _ (s : System) (c t : Ptr) (x : NlThreadCtx) (at : s.ctxs c ≡ some x) where
  pub unlink_loop-Removes :
      (fuel : ℕ) (xs : Threads)
      → Chain s.infos c x.threads xs
      → length xs < fuel
      → Removes s c t x xs (unlink_loop fuel c t null x.threads s)
  unlink_loop-Removes zero xs k small = absurd (omega arith)
  unlink_loop-Removes (suc fuel) [] k small =
      let e : x.threads ≡ null = null_of_nil k in
      (
        s.infos,
        s.ctxs,
        x.threads,
        unfold unlink_loop has in rw e,
        at,
        λ m n. refl,
        unfold erase in k,
        λ a o. refl,
        refl,
      )
  unlink_loop-Removes (suc fuel) ((a, d) ∷ xs) k small =
      let (q, e, na, here, out, rest) = uncons k in
      elim (Bool-cases (a == t)) [
        | inl hit ↦ (
          s.infos,
          update s.ctxs c (some (record x { threads = q })),
          q,
          unfold unlink_loop has in
              rw (e, not_null a na, load_info-ok s a here, hit, set_threads-ok s c at q) refl,
          update_self s.ctxs c _,
          λ m n. update_other s.ctxs c m _ n,
          unfold erase in rw hit rest,
          λ y o. refl,
          refl,
        )
        | inr miss ↦
            let (h, run, k', same, kept) =
              unlink_loop-Unlinks s c t fuel a q d xs na (ground arith) here out rest
                (omega arith) in
            (
              h,
              s.ctxs,
              a,
              unfold unlink_loop has in rw (e, not_null a na, load_info-ok s a here, miss) run,
              rw (← e) at,
              λ m n. refl,
              unfold erase in rw miss k',
              same,
              kept,
            )
      ]

not-has-erase :
    {h : Infos} {c : Ptr} (t p : Ptr) (xs : Threads) → Chain h c p xs → has t (erase t xs) ≡ false
unfolding has erase
not-has-erase t p [] k = refl
not-has-erase t p ((a, d) ∷ xs) k =
    let (q, _, _, _, out, rest) = uncons k in
    elim (Bool-cases (a == t)) [
      | inl hit ↦ let same : a ≡ t = ground arith in rw hit (rw same at out)
      | inr miss ↦ rw (miss, miss) (not-has-erase t q xs rest)
    ]

has_of_find : (t : Ptr) (d : Tracked) (xs : Threads) → find t xs ≡ some d → has t xs ≡ true
unfolding has find
has_of_find t d [] e = cc
has_of_find t d ((a, d') ∷ xs) e = ground (arith, has_of_find t d xs)

-- What joining the thread `t` does to its context: the lock and the list, the memory and the calls.
pub record Joined (s s' : System) (c t : Ptr) (d : Tracked) (x : NlThreadCtx) (xs : Threads)
    : Type 0 where
  pub context : IsContext s' c (erase t xs)
  pub held :
      context.ctx.held
      ≡ released (first_answer (later_answers s.answers)) (taken (first_answer s.answers) x.held)
  pub gone : s'.infos t ≡ none
  pub infos_same : (a : Ptr) → has a xs ≡ false → s'.infos a ≡ s.infos a
  pub ctxs_same : (m : Ptr) → m ≢ c → s'.ctxs m ≡ s.ctxs m
  pub trace : s'.trace ≡ s.trace ++ lock c ∷ unlock c ∷ join d.thread ∷ []

module _ (s : System) (c t : Ptr) (d : Tracked) (xs : Threads) (v : IsContext s c xs) where
  -- `nl_join_thread` on a listed thread takes that thread alone out of the list of its context, in
  -- whatever place it is, and leaves the order of the others. It locks, unlocks, then joins the thread once, whatever the
  -- calls return, frees its structure and no other, and returns what `pthread_join` returns. The lock is
  -- held as often as before if neither call on it fails.
  pub nl_join_thread-Joined :
      (fuel : ℕ)
      → find t xs ≡ some d
      → length xs < fuel
      → (s' : System) × (nl_join_thread fuel t s
          ≡ done (first_answer (later_answers (later_answers s.answers))) s')
        × Joined s s' c t d v.ctx xs
  unfolding nl_join_thread
  nl_join_thread-Joined fuel listed small =
      let (nt, at_t) = found v.ctx.threads xs v.chain listed in
      let (q, here) = at_t in
      let x1 : NlThreadCtx = record v.ctx { held = taken (first_answer s.answers) v.ctx.held } in
      let s1 = locked s c v.ctx in
      let (h, g, p, run, at2, others, k, same, kept) =
        unlink_loop-Removes s1 c t x1 (at_locked s c v.ctx v.at) fuel xs v.chain small in
      let s2 : System = record s1 { infos = h; ctxs = g } in
      let x2 : NlThreadCtx = record x1 { threads = p } in
      let s3 = unlocked s2 c x2 in
      let here' : h t ≡ some (info_of c d q) = kept ∙ here in
      (
        record s3 {
          infos = update h t none;
          answers = later_answers s3.answers;
          trace = s3.trace ++ join d.thread ∷ [];
        },
        rw
            (
              not_null t nt,
              load_info-ok s t here,
              mutex_lock-ok s c v.ctx v.at,
              load_ctx-ok s1 c (at_locked s c v.ctx v.at),
              run,
              mutex_unlock-ok s2 c x2 at2,
              load_info-ok s3 t here',
              free_info-ok
                  (record s3 {
                    answers = later_answers s3.answers;
                    trace = s3.trace ++ join d.thread ∷ [];
                  })
                  t here',
            )
            refl,
        record {
          context = record {
            ne_null = v.ne_null;
            ctx = record x2 { held = released (first_answer s2.answers) x2.held };
            at = at_unlocked s2 c x2 at2;
            chain = frame-update t none k (not-has-erase t v.ctx.threads xs v.chain);
          };
          held = refl;
          gone = update_self h t none;
          infos_same = λ a o.
              let other : a ≢ t = λ e. ground (arith, has_of_find t d xs listed) in
              update_other h t a none other ∙ same a o;
          ctxs_same = λ m n. other_unlocked s2 c x2 m n ∙ others m n ∙ other_locked s c v.ctx m n;
          trace = simp append_assoc;
        },
      )
