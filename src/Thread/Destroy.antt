-- ===== src/Thread/Destroy.antt =====
-- `nl_destroy_thread_context` joins every thread of a context.
use nlutils.Prelude.{
  ℕ, zero, suc, ◌<◌, ◌≡◌, ◌≢◌, refl, subst, ◌∙◌, true, false, none, List, [], ◌∷◌, ◌++◌, ◌==◌,
  length, arith, Bool-cases, inl, inr, append_assoc, append-nil,
}
use nlutils.Prelude.Action.{done}
use nlutils.Fifo.Store.{Ptr, null, update}
use nlutils.Fifo.Segment.{update_self, update_other, not_null}
use nlutils.Thread.System.{
  Call, lock, unlock, join, mutex_destroy, System, first_answer, later_answers,
}
use nlutils.Thread.Ops.{nl_join_thread, join_all, nl_destroy_thread_context}
use nlutils.Thread.Locks.{
  locked, unlocked, mutex_lock-ok, mutex_unlock-ok, at_locked, at_unlocked, other_locked,
  other_unlocked, free_ctx-ok,
}
use nlutils.Thread.Chain.{
  Tracked, Threads, has, erase, find, IsContext, null_of_nil, uncons, load_info-ok, load_ctx-ok,
}
use nlutils.Thread.Join.{Joined, nl_join_thread-Joined}

-- The calls that join the threads of a list, in its order.
unfoldable pub join_calls : Ptr → Threads → List Call
join_calls c [] = []
join_calls c ((_, d) ∷ xs) = lock c ∷ unlock c ∷ join d.thread ∷ join_calls c xs

-- The threads `xs` of the context are joined and freed, and nothing else has changed.
pub record Emptied (s s' : System) (c : Ptr) (xs : Threads) (calls : List Call) : Type 0 where
  pub gone : (a : Ptr) → has a xs ≡ true → s'.infos a ≡ none
  pub infos_same : (a : Ptr) → has a xs ≡ false → s'.infos a ≡ s.infos a
  pub ctxs_same : (m : Ptr) → m ≢ c → s'.ctxs m ≡ s.ctxs m
  pub trace : s'.trace ≡ s.trace ++ calls

module _ (c : Ptr) where
  head-Joined :
      (s : System) (t : Ptr) (d : Tracked) (xs : Threads) (fuel : ℕ)
      → (v : IsContext s c ((t, d) ∷ xs)) → length xs < fuel
      → (s' : System) × (nl_join_thread (suc fuel) v.ctx.threads s
          ≡ done (first_answer (later_answers (later_answers s.answers))) s')
        × Joined s s' c t d v.ctx ((t, d) ∷ xs)
        × IsContext s' c xs
  unfolding find erase
  head-Joined s t d xs fuel v small =
      let (_, e, _, _, _, _) = uncons v.chain in
      let here : (t == t) ≡ true = ground arith in
      let (s', run, j) =
        nl_join_thread-Joined s c t d ((t, d) ∷ xs) v (suc fuel) (rw here refl) (omega arith) in
      let rest : erase t ((t, d) ∷ xs) ≡ xs = rw here refl in
      (s', rw e run, j, subst (IsContext s' c) rest j.context)

  join_all-step :
      (s s' s'' : System) (t : Ptr) (d : Tracked) (xs : Threads) (fuel ret : ℕ)
      → (v : IsContext s c ((t, d) ∷ xs)) → nl_join_thread (suc fuel) v.ctx.threads s ≡ done ret s'
      → join_all fuel c s' ≡ done tt s''
      → join_all (suc fuel) c s ≡ done tt s''
  unfolding join_all
  join_all-step s s' s'' t d xs fuel ret v run all =
      let (_, e, nt, here, _, _) = uncons v.chain in
      let run' : nl_join_thread (suc fuel) t s ≡ done ret s' = rw e at run in
      rw (load_ctx-ok s c v.at, e, not_null t nt, load_info-ok s t here, run') all

  Emptied-step :
      (s s' s'' : System) (t : Ptr) (d : Tracked) (xs : Threads)
      → (v : IsContext s c ((t, d) ∷ xs)) → Joined s s' c t d v.ctx ((t, d) ∷ xs)
      → Emptied s' s'' c xs (join_calls c xs)
      → Emptied s s'' c ((t, d) ∷ xs) (join_calls c ((t, d) ∷ xs))
  unfolding has join_calls
  Emptied-step s s' s'' t d xs v j e =
      let (_, _, _, _, out, _) = uncons v.chain in
      record {
        gone = λ a i. elim (Bool-cases (has a xs)) [
          | inl later ↦ e.gone a later
          | inr other ↦ let same : a ≡ t = ground arith in rw same (e.infos_same t out ∙ j.gone)
        ];
        infos_same = λ a o. e.infos_same a (ground arith) ∙ j.infos_same a o;
        ctxs_same = λ m n. e.ctxs_same m n ∙ j.ctxs_same m n;
        trace = rw (e.trace, j.trace) (simp append_assoc);
      }

  join_all-Emptied :
      (fuel : ℕ) (s : System) (xs : Threads)
      → IsContext s c xs
      → length xs < fuel
      → (s' : System) × (join_all fuel c s ≡ done tt s')
        × IsContext s' c []
        × Emptied s s' c xs (join_calls c xs)
  unfolding join_calls has
  join_all-Emptied zero s xs v small = absurd (omega arith)
  join_all-Emptied (suc fuel) s [] v small =
      let e : v.ctx.threads ≡ null = null_of_nil v.chain in
      (
        s,
        unfold join_all in rw (load_ctx-ok s c v.at, e) refl,
        v,
        record {
          gone = λ a i. cc;
          infos_same = λ a o. refl;
          ctxs_same = λ m n. refl;
          trace = simp append-nil;
        },
      )
  join_all-Emptied (suc fuel) s ((t, d) ∷ xs) v small =
      let (s', run, j, v') = head-Joined s t d xs fuel v (omega arith) in
      let (s'', all, w, e) = join_all-Emptied fuel s' xs v' (omega arith) in
      (s'', join_all-step s s' s'' t d xs fuel _ v run all, w, Emptied-step s s' s'' t d xs v j e)

-- `nl_destroy_thread_context` ends, whatever the calls return: it joins each thread of the context once,
-- in the order of the list, then destroys the lock, and frees every structure of the list and the context. No other
-- structure or context changes.
pub nl_destroy_thread_context-Emptied :
    (s : System) (c : Ptr) (xs : Threads) (fuel : ℕ)
    → IsContext s c xs
    → length xs < fuel
    → (s' : System) × (nl_destroy_thread_context fuel c s ≡ done tt s')
      × (s'.ctxs c ≡ none)
      × Emptied s s' c xs (lock c ∷ join_calls c xs ++ unlock c ∷ mutex_destroy c ∷ [])
unfolding nl_destroy_thread_context
nl_destroy_thread_context-Emptied s c xs fuel v small =
    let s1 = locked s c v.ctx in
    let v1 : IsContext s1 c xs = record {
      ne_null = v.ne_null;
      ctx = _;
      at = at_locked s c v.ctx v.at;
      chain = v.chain;
    } in
    let (s2, run, v2, e) = join_all-Emptied c fuel s1 xs v1 small in
    let s3 = unlocked s2 c v2.ctx in
    let s4 : System = record s3 {
      answers = later_answers s3.answers;
      trace = s3.trace ++ mutex_destroy c ∷ [];
    } in
    (
      record s4 { ctxs = update s4.ctxs c none },
      rw
          (
            not_null c v.ne_null,
            mutex_lock-ok s c v.ctx v.at,
            run,
            mutex_unlock-ok s2 c v2.ctx v2.at,
            free_ctx-ok s4 c (at_unlocked s2 c v2.ctx v2.at),
          )
          refl,
      update_self s4.ctxs c none,
      record {
        gone = e.gone;
        infos_same = e.infos_same;
        ctxs_same = λ m n.
            update_other s4.ctxs c m none n
            ∙ other_unlocked s2 c v2.ctx m n
            ∙ e.ctxs_same m n
            ∙ other_locked s c v.ctx m n;
        trace = rw e.trace (simp append_assoc);
      },
    )
