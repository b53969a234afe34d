-- ===== src/Thread/Timeout.antt =====
-- `nl_timeout_lock` tries a bounded number of times.
use nlutils.Prelude.{
  ℕ, zero, suc, ◌+◌, ◌*◌, ◌≤◌, ◌<◌, ◌≡◌, ◌≢◌, refl, ◌∙◌, ◌⊎◌, inl, inr, true, false, some, List, [],
  ◌∷◌, ◌++◌, ◌==◌, ltb, ltb→lt, if◌then◌else◌, arith, Bool-cases, append_assoc, append-nil,
}
use nlutils.Prelude.Action.{done, give}
use nlutils.Prelude.Int.{pos}
use nlutils.Fifo.Store.{Ptr, update}
use nlutils.Thread.System.{
  NlThreadCtx, Call, trylock, usleep, System, first_answer, later_answers, mutex_trylock,
}
use nlutils.Thread.Signal.{ebusy, try_loop, nl_timeout_lock}
use nlutils.Thread.Locks.{taken}
use nlutils.Thread.Chain.{load_ctx-ok}

-- `n` tries that find the lock busy.
unfoldable pub busy_tries : Ptr → (n : ℕ) → List Call
busy_tries c zero = []
busy_tries c (suc n) = trylock c ∷ usleep 1000 ∷ busy_tries c n

abbrev pub last_try : Ptr → (ret : ℕ) → List Call
last_try c ret = if ret == ebusy then [] else trylock c ∷ []

-- The answers to the tries: `n` of them are that the lock is busy, and `ret` is the last answer.
pub data Answered : (answers : List ℕ) (n ret : ℕ) → Type 0 where
  other : {rest : List ℕ} {ret : ℕ} → first_answer rest ≡ ret → ret ≢ ebusy → Answered rest 0 ret
  over : {rest : List ℕ} {ret : ℕ} → first_answer rest ≡ ret → ret ≡ ebusy → Answered rest 1 ret
  busy :
      {rest : List ℕ} {n ret : ℕ}
      → first_answer rest ≡ ebusy
      → Answered (later_answers rest) n ret
      → Answered rest (suc n) ret

-- The lock is tried `n` times without success, a millisecond apart, and once more unless the time is
-- over. Only the lock changes.
pub record Tried (s s' : System) (c : Ptr) (y : NlThreadCtx) (slept timeout n ret : ℕ)
    : Type 0 where
  pub at : s'.ctxs c ≡ some (record y { held = taken ret y.held })
  pub infos : s'.infos ≡ s.infos
  pub self : s'.self ≡ s.self
  pub trace : s'.trace ≡ s.trace ++ busy_tries c n ++ last_try c ret
  pub answered : Answered s.answers n ret
  pub in_time : slept + n * 1000 < timeout + 1000
  pub given_up : (ret ≢ ebusy) ⊎ (timeout ≤ slept + n * 1000)

module _ (s : System) (c : Ptr) (y : NlThreadCtx) (at : s.ctxs c ≡ some y) where
  abbrev tried : System
  tried = record s {
    ctxs =
        if first_answer s.answers == 0
        then update s.ctxs c (some (record y { held = y.held + 1 }))
        else s.ctxs;
    answers = later_answers s.answers;
    trace = s.trace ++ trylock c ∷ [];
  }

  mutex_trylock-ok : mutex_trylock c s ≡ done (first_answer s.answers) tried
  unfolding mutex_trylock
  mutex_trylock-ok = rw (load_ctx-ok s c at) (ground arith)

  abbrev asleep : System
  asleep = record s {
    answers = later_answers s.answers;
    trace = (s.trace ++ trylock c ∷ []) ++ usleep 1000 ∷ [];
  }

  module _ (timeout slept fuel : ℕ) where
    -- The lock is not busy.
    free_lock :
        slept < timeout
        → (first_answer s.answers == ebusy) ≡ false
        → (ret : ℕ) × (n : ℕ) × (s' : System) × (try_loop (suc fuel) c timeout slept s
            ≡ done ret s')
          × Tried s s' c y slept timeout n ret
    unfolding try_loop busy_tries taken
    free_lock early free = (
      first_answer s.answers,
      0,
      tried,
      rw (mutex_trylock-ok, free) refl,
      record {
        at = ground arith;
        infos = refl;
        self = refl;
        trace = rw free (simp append-nil);
        answered = other refl (ground arith);
        in_time = omega arith;
        given_up = inl (ground arith);
      },
    )

    -- The lock is busy, and there is time left: the loop goes on from a later state.
    asleep-run :
        (first_answer s.answers == ebusy) ≡ true
        → try_loop (suc fuel) c timeout slept s
          ≡ (if ltb (slept + 1000) timeout
                then try_loop fuel c timeout (slept + 1000)
                else give ebusy)
              asleep
    unfolding try_loop
    asleep-run same =
        let e : first_answer s.answers ≡ ebusy = ground arith in rw mutex_trylock-ok (rw e refl)

    -- The lock is busy, and the time is over.
    expired :
        slept < timeout
        → (first_answer s.answers == ebusy) ≡ true
        → ltb (slept + 1000) timeout ≡ false
        → (ret : ℕ) × (n : ℕ) × (s' : System) × (try_loop (suc fuel) c timeout slept s
            ≡ done ret s')
          × Tried s s' c y slept timeout n ret
    unfolding busy_tries taken
    expired early same late = (
      ebusy,
      1,
      asleep,
      asleep-run same ∙ rw late refl,
      record {
        at = at;
        infos = refl;
        self = refl;
        trace = simp (append_assoc, append-nil);
        answered = over (ground arith) refl;
        in_time = omega arith;
        given_up = inr (ground arith);
      },
    )

    again :
        (first_answer s.answers == ebusy) ≡ true
        → ltb (slept + 1000) timeout ≡ true
        → (ret : ℕ) × (n : ℕ) × (s' : System) × (try_loop fuel c timeout (slept + 1000) asleep
            ≡ done ret s')
          × Tried asleep s' c y (slept + 1000) timeout n ret
        → (ret : ℕ) × (n : ℕ) × (s' : System) × (try_loop (suc fuel) c timeout slept s
            ≡ done ret s')
          × Tried s s' c y slept timeout n ret
    unfolding busy_tries
    again same early (ret, n, s', run, t) = (
      ret,
      suc n,
      s',
      asleep-run same ∙ rw early run,
      record {
        at = t.at;
        infos = t.infos;
        self = t.self;
        trace = rw t.trace (simp append_assoc);
        answered = busy (ground arith) t.answered;
        in_time = omega (arith, t.in_time);
        given_up = elim t.given_up [ inl o ↦ inl o | inr late ↦ inr (omega (arith, late)) ];
      },
    )

module _ (c : Ptr) (y : NlThreadCtx) (timeout : ℕ) where
  try_loop-Tried :
      (fuel slept : ℕ) (s : System)
      → s.ctxs c ≡ some y
      → slept < timeout
      → timeout ≤ slept + fuel * 1000
      → (ret : ℕ) × (n : ℕ) × (s' : System) × (try_loop fuel c timeout slept s ≡ done ret s')
        × Tried s s' c y slept timeout n ret
  try_loop-Tried zero slept s at early enough = absurd (omega arith)
  try_loop-Tried (suc fuel) slept s at early enough =
      elim (Bool-cases (first_answer s.answers == ebusy)) [
        | inr free ↦ free_lock s c y at timeout slept fuel early free
        | inl same ↦ elim (Bool-cases (ltb (slept + 1000) timeout)) [
          | inr late ↦ expired s c y at timeout slept fuel early same late
          | inl more ↦ again s c y at timeout slept fuel same more (
              try_loop-Tried fuel (slept + 1000) (asleep s c y at) at (ltb→lt _ _ more)
                (omega arith))
        ]
      ]

-- `nl_timeout_lock` with a positive timeout always returns: it tries the lock, a millisecond apart, as
-- long as it is busy, for less than a millisecond longer than the timeout, and returns EBUSY only when that
-- time is over. Otherwise it returns what the last try gave, and the lock is then taken once if that is 0.
pub nl_timeout_lock-Tried :
    (s : System) (c : Ptr) (y : NlThreadCtx) (timeout : ℕ)
    → s.ctxs c ≡ some y
    → 0 < timeout
    → (ret : ℕ) × (n : ℕ) × (s' : System) × (nl_timeout_lock c (pos timeout) s ≡ done ret s')
      × Tried s s' c y 0 timeout n ret
unfolding nl_timeout_lock
nl_timeout_lock-Tried s c y zero at h = absurd (omega arith)
nl_timeout_lock-Tried s c y (suc n) at h = try_loop-Tried c y (suc n) (suc n) 0 s at h (omega arith)
