-- ===== src/Thread/Signals.antt =====
-- `nl_signal_threads` sends the signal to every other thread of the context.
use nlutils.Prelude.{
  ℕ, zero, suc, ◌≤◌, ◌<◌, ◌≡◌, ◌≢◌, refl, ◌∙◌, ◌⊎◌, inl, inr, Bool, true, false, not, ◌&&◌, ◌||◌,
  some, List, [], ◌∷◌, ◌++◌, ◌==◌, if◌then◌else◌, length, arith, Bool-cases, append_assoc,
  append-nil,
}
use nlutils.Prelude.Action.{done, give}
use nlutils.Prelude.Int.{pos}
use nlutils.Fifo.Store.{Ptr, null}
use nlutils.Fifo.Segment.{not_null}
use nlutils.Thread.System.{NlThreadCtx, Call, unlock, kill, usleep, emit, System, later_answers}
use nlutils.Thread.Signal.{
  ebusy, iterate_loop, iterate_locked, nl_iterate_threads, nl_signal_one_thread, nl_signal_threads,
}
use nlutils.Thread.Locks.{unlocked, mutex_unlock-ok, at_unlocked}
use nlutils.Thread.Chain.{
  Tracked, info_of, Threads, Chain, IsContext, null_of_nil, uncons, load_info-ok, load_ctx-ok,
}
use nlutils.Thread.Timeout.{busy_tries, last_try, Answered, nl_timeout_lock-Tried}

abbrev pause_before : Threads → List Call
pause_before [] = []
pause_before (x ∷ xs) = usleep 25000 ∷ []

-- The signals to the threads of a list but the calling one, in order, with a pause behind each that is
-- not the last of the list.
unfoldable pub signals : (self signum : ℕ) → Threads → List Call
signals self signum [] = []
signals self signum ((_, d) ∷ xs) =
    if d.thread == self
    then signals self signum xs
    else kill d.thread signum ∷ pause_before xs ++ signals self signum xs

-- After a signal.
abbrev later : System → List ℕ → List Call → System
later s a calls = record s { answers = a; trace = s.trace ++ calls }

module _ (c : Ptr) (signum : ℕ) where
  one_calls : (s : System) (d : Tracked) → Threads → List Call
  one_calls s d xs = if d.thread == s.self then [] else kill d.thread signum ∷ pause_before xs

  pause :
      (s : System) (q : Ptr) (d : Tracked) (xs : Threads)
      → Chain s.infos c q xs
      → (if q == null then give tt else emit (usleep 25000))
          (later s (later_answers s.answers) (kill d.thread signum ∷ []))
        ≡ done tt (later s (later_answers s.answers) (kill d.thread signum ∷ pause_before xs))
  pause s q d [] k = let e : q ≡ null = null_of_nil k in rw e refl
  pause s q d ((a, _) ∷ xs) k =
      let (_, e, n, _, _, _) = uncons k in rw (e, not_null a n, append_assoc) refl

  one-ok :
      (s : System) (t q : Ptr) (d : Tracked) (xs : Threads)
      → s.infos t ≡ some (info_of c d q)
      → Chain s.infos c q xs
      → (a : List ℕ) × (nl_signal_one_thread signum t s ≡ done tt (later s a (one_calls s d xs)))
  unfolding nl_signal_one_thread one_calls
  one-ok s t q d xs at k = elim (Bool-cases (d.thread == s.self)) [
    | inl own ↦ (s.answers, rw (load_info-ok s t at, own, append-nil) refl)
    | inr other ↦ (later_answers s.answers, rw (load_info-ok s t at, other) (pause s q d xs k))
  ]

  signals-cons :
      (self : ℕ) (s : System) (t : Ptr) (d : Tracked) (xs : Threads)
      → s.self ≡ self
      → one_calls s d xs ++ signals self signum xs ≡ signals self signum ((t, d) ∷ xs)
  unfolding one_calls signals
  signals-cons self s t d xs e = elim (Bool-cases (d.thread == self)) [
    | inl own ↦ rw (e, own) refl
    | inr other ↦ rw (e, other) refl
  ]

  iterate-step :
      (s : System) (t q : Ptr) (d : Tracked) (xs : Threads) (fuel : ℕ) (a a' : List ℕ)
      → t ≢ null
      → s.infos t ≡ some (info_of c d q)
      → nl_signal_one_thread signum t s ≡ done tt (later s a (one_calls s d xs))
      → iterate_loop fuel (nl_signal_one_thread signum) q (later s a (one_calls s d xs))
        ≡ done tt (later (later s a (one_calls s d xs)) a' (signals s.self signum xs))
      → iterate_loop (suc fuel) (nl_signal_one_thread signum) t s
        ≡ done tt (later s a' (signals s.self signum ((t, d) ∷ xs)))
  unfolding iterate_loop
  iterate-step s t q d xs fuel a a' n at one run =
      let s1 = later s a (one_calls s d xs) in
      rw
        (
          not_null t n,
          one,
          load_info-ok s1 t at,
          run,
          append_assoc,
          signals-cons s.self s t d xs refl,
        )
        refl

  iterate_loop-signals :
      (fuel : ℕ) (s : System) (p : Ptr) (xs : Threads)
      → Chain s.infos c p xs
      → length xs < fuel
      → (a : List ℕ) × (iterate_loop fuel (nl_signal_one_thread signum) p s
          ≡ done tt (later s a (signals s.self signum xs)))
  iterate_loop-signals zero s p xs k small = absurd (omega arith)
  iterate_loop-signals (suc fuel) s p [] k small =
      let e : p ≡ null = null_of_nil k in
      (s.answers, unfold iterate_loop signals in rw (e, append-nil) refl)
  iterate_loop-signals (suc fuel) s p ((t, d) ∷ xs) k small =
      let (q, e, n, at, out, rest) = uncons k in
      let (a, one) = one-ok s t q d xs at rest in
      let s1 = later s a (one_calls s d xs) in
      let (a', run) = iterate_loop-signals fuel s1 q xs rest (omega arith) in
      (a', rw e (iterate-step s t q d xs fuel a a' n at one run))

-- The lock is taken, or the time for it is over.
abbrev pub goes_on : (ret : ℕ) → Bool
goes_on ret = ret == 0 || ret == ebusy

abbrev pub signals_if : Bool → (c : Ptr) (self signum : ℕ) → Threads → List Call
signals_if false c self signum xs = []
signals_if true c self signum xs = signals self signum xs ++ unlock c ∷ []

module _ (s : System) (c : Ptr) (signum : ℕ) (xs : Threads) (y : NlThreadCtx) (fuel : ℕ)
    (at : s.ctxs c ≡ some y) (k : Chain s.infos c y.threads xs) (small : length xs < fuel)
    (ret : ℕ) where
  abbrev Locked : Type 0
  Locked =
      (s' : System) × (z : NlThreadCtx) × (iterate_locked fuel c (pos 250000)
          (nl_signal_one_thread signum) ret s
        ≡ done tt s')
      × (s'.ctxs c ≡ some z)
      × (z.threads ≡ y.threads)
      × (s'.infos ≡ s.infos)
      × (s'.trace ≡ s.trace ++ signals_if (goes_on ret) c s.self signum xs)

  signalled : goes_on ret ≡ true → Locked
  unfolding iterate_locked
  signalled go =
      let (a, run) = iterate_loop-signals c signum fuel s y.threads xs k small in
      let s1 = later s a (signals s.self signum xs) in
      let on : (not (ret == 0) && not (ret == ebusy && true)) ≡ false = ground arith in
      (
        unlocked s1 c y,
        _,
        rw (on, load_ctx-ok s c at, run, mutex_unlock-ok s1 c y at) refl,
        at_unlocked s1 c y at,
        refl,
        refl,
        rw (go, append_assoc) refl,
      )

  refused : goes_on ret ≡ false → Locked
  unfolding iterate_locked
  refused stop =
      let off : (not (ret == 0) && not (ret == ebusy && true)) ≡ true = ground arith in
      (s, y, rw off refl, at, refl, refl, rw (stop, append-nil) refl)

  behind_lock : Locked
  behind_lock = elim (Bool-cases (goes_on ret)) [ inl go ↦ signalled go | inr stop ↦ refused stop ]

-- `nl_signal_threads` always returns, and leaves the list and its structures as they are. It tries the lock, a
-- millisecond apart, until a try is not answered with EBUSY, but at most 250 times. If the last answer is 0 or
-- EBUSY, it sends the signal once to each thread of the context but the calling one, in the order of the list, with a
-- pause behind each thread that is not the last, whether sending succeeds or not, and releases the lock. If it is
-- another error, it sends nothing.
pub nl_signal_threads-signals :
    (s : System) (c : Ptr) (xs : Threads) (signum fuel : ℕ)
    → IsContext s c xs
    → length xs < fuel
    → (ret : ℕ) × (n : ℕ) × (s' : System) × (nl_signal_threads fuel c signum s ≡ done tt s')
      × IsContext s' c xs
      × (s'.infos ≡ s.infos)
      × Answered s.answers n ret
      × (n ≤ 250)
      × ((ret ≢ ebusy) ⊎ (n ≡ 250))
      × (s'.trace
          ≡ s.trace
            ++ busy_tries c n
            ++ last_try c ret
            ++ signals_if (goes_on ret) c s.self signum xs)
unfolding nl_signal_threads nl_iterate_threads
nl_signal_threads-signals s c xs signum fuel v small =
    let (ret, n, s1, run, t) = nl_timeout_lock-Tried s c v.ctx 250000 v.at (omega arith) in
    let k : Chain s1.infos c v.ctx.threads xs = rw t.infos v.chain in
    let (s2, z, run2, at, same, infos, trace) =
      behind_lock s1 c signum xs _ fuel t.at k small ret in
    (
      ret,
      n,
      s2,
      rw (not_null c v.ne_null, run) run2,
      record { ne_null = v.ne_null; ctx = z; at = at; chain = rw (infos, same) k },
      infos ∙ t.infos,
      t.answered,
      omega (arith, t.in_time),
      elim t.given_up [ inl o ↦ inl o | inr late ↦ inr (omega (arith, t.in_time, late)) ],
      rw (trace, t.trace, t.self) refl,
    )
