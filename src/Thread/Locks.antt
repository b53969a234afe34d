-- ===== src/Thread/Locks.antt =====
-- What the calls on the lock of a context, and the freeing of memory, do to the state.
use nlutils.Prelude.{ℕ, ◌+◌, ◌-◌, ◌≡◌, ◌≢◌, none, some, [], ◌∷◌, ◌++◌, ◌==◌, if◌then◌else◌, arith}
use nlutils.Prelude.Action.{done}
use nlutils.Fifo.Store.{Ptr, update}
use nlutils.Thread.System.{
  NlThread, NlThreadCtx, lock, unlock, System, first_answer, later_answers, mutex_lock,
  mutex_unlock, free_info, free_ctx,
}
use nlutils.Thread.Chain.{load_info-ok, load_ctx-ok}

-- How often a lock is held after a call that returned `ret`.
unfoldable pub taken : (ret held : ℕ) → ℕ
taken ret held = if ret == 0 then held + 1 else held

unfoldable pub released : (ret held : ℕ) → ℕ
released ret held = if ret == 0 then held - 1 else held

module _ (s : System) (c : Ptr) (x : NlThreadCtx) where
  abbrev pub locked : System
  locked = record s {
    ctxs =
        if first_answer s.answers == 0
        then update s.ctxs c (some (record x { held = x.held + 1 }))
        else s.ctxs;
    answers = later_answers s.answers;
    trace = s.trace ++ lock c ∷ [];
  }

  abbrev pub unlocked : System
  unlocked = record s {
    ctxs =
        if first_answer s.answers == 0
        then update s.ctxs c (some (record x { held = x.held - 1 }))
        else s.ctxs;
    answers = later_answers s.answers;
    trace = s.trace ++ unlock c ∷ [];
  }

  module _ (h : s.ctxs c ≡ some x) where
    pub mutex_lock-ok : mutex_lock c s ≡ done (first_answer s.answers) locked
    unfolding mutex_lock
    mutex_lock-ok = rw (load_ctx-ok s c h) (ground arith)

    pub mutex_unlock-ok : mutex_unlock c s ≡ done (first_answer s.answers) unlocked
    unfolding mutex_unlock
    mutex_unlock-ok = rw (load_ctx-ok s c h) (ground arith)

    pub at_locked : locked.ctxs c ≡ some (record x { held = taken (first_answer s.answers) x.held })
    unfolding taken
    at_locked = ground arith

    pub at_unlocked :
        unlocked.ctxs c ≡ some (record x { held = released (first_answer s.answers) x.held })
    unfolding released
    at_unlocked = ground arith

  pub other_locked : (m : Ptr) → m ≢ c → locked.ctxs m ≡ s.ctxs m
  other_locked m n = ground arith

  pub other_unlocked : (m : Ptr) → m ≢ c → unlocked.ctxs m ≡ s.ctxs m
  other_unlocked m n = ground arith

pub free_info-ok :
    (s : System) (t : Ptr) {x : NlThread}
    → s.infos t ≡ some x
    → free_info t s ≡ done tt (record s { infos = update s.infos t none })
unfolding free_info
free_info-ok s t h = rw (load_info-ok s t h)

pub free_ctx-ok :
    (s : System) (c : Ptr) {x : NlThreadCtx}
    → s.ctxs c ≡ some x
    → free_ctx c s ≡ done tt (record s { ctxs = update s.ctxs c none })
unfolding free_ctx
free_ctx-ok s c h = rw (load_ctx-ok s c h)
