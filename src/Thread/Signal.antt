-- ===== src/Thread/Signal.antt =====
-- The functions of src/thread.c that go over the threads of a context: waiting for the lock,
-- iteration, and signals.
use nlutils.Prelude.{
  ℕ, zero, suc, ◌+◌, Bool, true, false, not, ◌&&◌, Option, none, some, ◌==◌, ltb, if◌then◌else◌,
}
use nlutils.Prelude.Action.{Action, give, diverge, get, ◌>>=◌, ◌>>◌}
use nlutils.Prelude.Int.{ℤ, pos, negsuc}
use nlutils.Fifo.Store.{Ptr, null}
use nlutils.Thread.System.{
  System, kill, usleep, setschedparam, emit, call, load_ctx, load_info, mutex_lock, mutex_trylock,
  mutex_unlock,
}

abbrev pub ebusy : ℕ
ebusy = 16

-- The loop of `nl_timeout_lock`, with the microseconds slept so far.
unfoldable pub try_loop : ℕ → (mutex : Ptr) → (timeout_us slept : ℕ) → Action System ℕ
try_loop zero mutex timeout_us slept = diverge
try_loop (suc fuel) mutex timeout_us slept = do
  ret ← mutex_trylock mutex
  if not (ret == ebusy) then give ret else do
    emit (usleep 1000)
    if ltb (slept + 1000) timeout_us
        then try_loop fuel mutex timeout_us (slept + 1000)
        else give ret

abbrev pub is_positive : ℤ → Bool
is_positive (pos zero) = false
is_positive (pos (suc n)) = true
is_positive (negsuc n) = false

abbrev pub magnitude : ℤ → ℕ
magnitude (pos n) = n
magnitude (negsuc n) = suc n

-- Every round sleeps a millisecond, so there are no more rounds than microseconds.
unfoldable pub nl_timeout_lock : Ptr → (timeout_us : ℤ) → Action System ℕ
nl_timeout_lock mutex timeout_us =
    if is_positive timeout_us
    then try_loop (magnitude timeout_us) mutex (magnitude timeout_us) 0
    else mutex_lock mutex

-- A callback, with its `cb_data`.
abbrev pub NlThreadIterator : Type 0
NlThreadIterator = Ptr → Action System (Unit {0})

unfoldable pub iterate_loop : ℕ → NlThreadIterator → Ptr → Action System (Unit {0})
iterate_loop zero cb t = diverge
iterate_loop (suc fuel) cb t =
    if t == null then give tt else do cb t; x ← load_info t; iterate_loop fuel cb x.next

-- Behind the lock: an error ends the function, unless it is a timeout.
unfoldable pub iterate_locked :
    (fuel : ℕ) (ctx : Ptr) (lock_timeout_us : ℤ) → NlThreadIterator → ℕ → Action System (Unit {0})
iterate_locked fuel ctx lock_timeout_us cb ret =
    if not (ret == 0) && not (ret == ebusy && is_positive lock_timeout_us)
    then give tt
    else do c ← load_ctx ctx; iterate_loop fuel cb c.threads; mutex_unlock ctx; give tt

unfoldable pub nl_iterate_threads :
    (fuel : ℕ) (ctx : Ptr) (lock_timeout_us : ℤ)
    → Option NlThreadIterator
    → Action System (Unit {0})
nl_iterate_threads fuel ctx lock_timeout_us none = give tt
nl_iterate_threads fuel ctx lock_timeout_us (some cb) = if ctx == null then give tt else do
  ret ← nl_timeout_lock ctx lock_timeout_us
  iterate_locked fuel ctx lock_timeout_us cb ret

unfoldable pub nl_signal_one_thread : (signum : ℕ) → NlThreadIterator
nl_signal_one_thread signum t = do
  s ← get
  x ← load_info t
  if x.thread == s.self
      then give tt
      else do call (kill x.thread signum); if x.next == null then give tt else emit (usleep 25000)

unfoldable pub nl_signal_threads : (fuel : ℕ) (ctx : Ptr) (signum : ℕ) → Action System (Unit {0})
nl_signal_threads fuel ctx signum =
    nl_iterate_threads fuel ctx (pos 250000) (some (nl_signal_one_thread signum))

-- A NULL thread is the calling one. The call returns 0 or its error.
unfoldable pub nl_set_thread_priority : Ptr → (sched_class prio : ℕ) → Action System ℕ
nl_set_thread_priority t sched_class prio =
    if t == null
    then get >>= (λ s. call (setschedparam s.self sched_class prio))
    else load_info t >>= (λ x. call (setschedparam x.thread sched_class prio))
