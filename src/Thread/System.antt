-- ===== src/Thread/System.antt =====
-- The memory of src/thread.c, and what it asks of pthreads: an answer to each call is given in advance,
-- and the calls are kept in order.
use nlutils.Prelude.{ℕ, ◌+◌, ◌-◌, Option, none, some, List, [], ◌∷◌, ◌++◌, ◌==◌, if◌then◌else◌}
use nlutils.Prelude.Action.{Action, done, faulted, give, modify, ◌>>=◌, ◌>>◌}
use nlutils.Prelude.Int.{ℤ}
use nlutils.Ctype.{Bytes}
use nlutils.Fifo.Store.{Ptr, update}

-- `struct nl_thread`
pub record NlThread : Type 0 where
  pub ctx : Ptr
  pub thread : ℕ
  pub name : Bytes
  pub func : Ptr
  pub arg : Ptr
  pub next : Ptr

-- `struct nl_thread_ctx`; `held` counts how often its recursive lock is held.
pub record NlThreadCtx : Type 0 where
  pub main_thread : ℕ
  pub threads : Ptr
  pub held : ℕ

-- A call that others can see.
pub data Call : Type 0 where
  lock trylock unlock mutex_destroy : Ptr → Call
  create join cancel : (thread : ℕ) → Call
  kill : (thread signum : ℕ) → Call
  setschedparam : (thread sched_class prio : ℕ) → Call
  usleep : ℕ → Call
  mutexattr_init mutexattr_setprotocol mutexattr_destroy mutex_init : Ptr → Call
  mutexattr_settype : Ptr → (kind : ℤ) → Call

pub record System : Type 0 where
  pub ctxs : Ptr → Option NlThreadCtx
  pub infos : Ptr → Option NlThread
  pub self : ℕ
  pub names : ℕ → Bytes
  pub answers : List ℕ
  pub trace : List Call

abbrev pub first_answer : List ℕ → ℕ
first_answer [] = 0
first_answer (a ∷ rest) = a

abbrev pub later_answers : List ℕ → List ℕ
later_answers [] = []
later_answers (a ∷ rest) = rest

-- The next answer: 0 or an error number, or an address. Without one it is 0.
abbrev pub ask : Action System ℕ
ask s = done (first_answer s.answers) (record s { answers = later_answers s.answers })

abbrev pub emit : Call → Action System (Unit {0})
emit c = modify λ s. record s { trace = s.trace ++ c ∷ [] }

unfoldable pub load_ctx : Ptr → Action System NlThreadCtx
load_ctx c s = elim (s.ctxs c) [ none ↦ faulted | some x ↦ done x s ]

unfoldable pub load_info : Ptr → Action System NlThread
load_info t s = elim (s.infos t) [ none ↦ faulted | some x ↦ done x s ]

abbrev pub put_ctx : Ptr → Option NlThreadCtx → Action System (Unit {0})
put_ctx c x = modify λ s. record s { ctxs = update s.ctxs c x }

abbrev pub put_info : Ptr → Option NlThread → Action System (Unit {0})
put_info t x = modify λ s. record s { infos = update s.infos t x }

-- `ctx->threads = t`
unfoldable pub set_threads : Ptr → Ptr → Action System (Unit {0})
set_threads c t = do x ← load_ctx c; put_ctx c (some (record x { threads = t }))

-- `info->next = q`
unfoldable pub set_next : Ptr → Ptr → Action System (Unit {0})
set_next t q = do x ← load_info t; put_info t (some (record x { next = q }))

unfoldable pub free_info : Ptr → Action System (Unit {0})
free_info t = do load_info t; put_info t none

unfoldable pub free_ctx : Ptr → Action System (Unit {0})
free_ctx c = do load_ctx c; put_ctx c none

-- A call on the lock that returns 0 takes or releases it once.
unfoldable pub mutex_lock : Ptr → Action System ℕ
mutex_lock c = do
  x ← load_ctx c
  emit (lock c)
  ret ← ask
  if ret == 0 then put_ctx c (some (record x { held = x.held + 1 })) >> give 0 else give ret

unfoldable pub mutex_trylock : Ptr → Action System ℕ
mutex_trylock c = do
  x ← load_ctx c
  emit (trylock c)
  ret ← ask
  if ret == 0 then put_ctx c (some (record x { held = x.held + 1 })) >> give 0 else give ret

unfoldable pub mutex_unlock : Ptr → Action System ℕ
mutex_unlock c = do
  x ← load_ctx c
  emit (unlock c)
  ret ← ask
  if ret == 0 then put_ctx c (some (record x { held = x.held - 1 })) >> give 0 else give ret

abbrev pub call : Call → Action System ℕ
call c = emit c >> ask
