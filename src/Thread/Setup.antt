-- ===== src/Thread/Setup.antt =====
-- The functions of src/thread.c that make a lock and a context, and name the running thread.
use nlutils.Prelude.{
  ℕ, zero, suc, ◌≡◌, refl, ◌∙◌, ◌⊎◌, inl, inr, not, Option, none, some, List, [], ◌∷◌, ◌++◌, ◌==◌,
  if◌then◌else◌, arith, Bool-cases, append_assoc, take,
}
use nlutils.Prelude.Action.{Outcome, Action, done, give, get, modify, ◌>>=◌, ◌>>◌}
use nlutils.Prelude.Int.{ℤ, pos, negsuc}
use nlutils.Ctype.{Bytes}
use nlutils.Fifo.Store.{Ptr, null, update}
use nlutils.Fifo.Segment.{update_self}
use nlutils.Thread.System.{
  NlThreadCtx, Call, mutexattr_init, mutexattr_settype, mutexattr_setprotocol, mutexattr_destroy,
  mutex_init, System, first_answer, later_answers, ask, load_info, put_ctx, put_info, free_ctx,
  call,
}
use nlutils.Thread.Ops.{efault, short_name}
use nlutils.Thread.Locks.{free_ctx-ok}
use nlutils.Thread.Chain.{nil, IsContext}
use nlutils.Thread.Track.{update_unused}

-- `PTHREAD_MUTEX_RECURSIVE`
abbrev pub recursive : ℤ
recursive = pos 1

abbrev pub kind_of : ℤ → ℤ
kind_of (negsuc zero) = recursive
kind_of (negsuc (suc n)) = negsuc (suc n)
kind_of (pos n) = pos n

-- A failed step behind the first destroys the attributes and is what the function returns.
abbrev pub step_or_undo : (mutex : Ptr) → Call → Action System ℕ → Action System ℕ
step_or_undo mutex c next = do
  ret ← call c
  if ret == 0 then next else call (mutexattr_destroy mutex) >> give ret

unfoldable pub nl_create_mutex : (mutex : Ptr) (kind : ℤ) → Action System ℕ
nl_create_mutex mutex kind = do
  ret ← call (mutexattr_init mutex)
  if not (ret == 0)
      then give ret
      else step_or_undo mutex (mutexattr_settype mutex (kind_of kind)) (
          step_or_undo mutex (mutexattr_setprotocol mutex)
            (step_or_undo mutex (mutex_init mutex) (call (mutexattr_destroy mutex))))

-- The allocator's answer is the first.
unfoldable pub nl_create_thread_context : Action System Ptr
nl_create_thread_context = do
  ctx ← ask
  if ctx == null then give null else do
    s ← get
    put_ctx ctx (some (record { main_thread = s.self; threads = null; held = 0 }))
    ret ← nl_create_mutex ctx (negsuc 0)
    if not (ret == 0) then free_ctx ctx >> give null else give ctx

-- `pthread_setname_np` and `pthread_getname_np`, for the running thread.
abbrev pub set_name : Bytes → Action System ℕ
set_name name = do
  ret ← ask
  s ← get
  (if ret == 0 then modify (λ s. record s { names = update s.names s.self name }) else give tt)
  give ret

-- `none` is NULL.
unfoldable pub nl_set_threadname : Option Bytes → Action System ℕ
nl_set_threadname none = give efault
nl_set_threadname (some name) = set_name (short_name name)

-- The result, and what the buffer then holds.
unfoldable pub nl_get_threadname : Option Bytes → Action System (ℕ × Option Bytes)
nl_get_threadname none = give (efault, none)
nl_get_threadname (some buf) = do
  ret ← ask
  s ← get
  give (ret, some (if ret == 0 then s.names s.self else buf))

abbrev pub or_empty : Option Bytes → Bytes
or_empty none = []
or_empty (some b) = b

-- `func` is what a call of a thread function does.
unfoldable pub nl_runthread_func :
    (func : Ptr → (arg : Ptr) → Action System Ptr) → (info : Ptr) → Action System Ptr
nl_runthread_func func info = do
  x ← load_info info
  (elim x.name [
    | [] ↦
        nl_get_threadname (some []) >>= λ r. put_info info (some (record x { name = or_empty r.1 }))
    | b ∷ rest ↦ nl_set_threadname (some (b ∷ rest)) >> give tt
  ])
  func x.func x.arg

-- Only the calls and the answers are new.
abbrev pub Calls : System → Outcome System ℕ → Type 0
Calls s r =
    (ret : ℕ) × (a : List ℕ) × (calls : List Call) × (r
      ≡ done ret (record s { answers = a; trace = s.trace ++ calls }))

call-Calls : (s : System) (c : Call) → Calls s (call c s)
call-Calls s c = (first_answer s.answers, later_answers s.answers, c ∷ [], refl)

step-Calls :
    (s : System) (mutex : Ptr) (c : Call) (next : Action System ℕ)
    → ((t : System) → Calls t (next t))
    → Calls s (step_or_undo mutex c next s)
step-Calls s mutex c next more = elim (Bool-cases (first_answer s.answers == 0)) [
  | inl ok ↦
      let (ret, a, calls, run) =
        more (record s { answers = later_answers s.answers; trace = s.trace ++ c ∷ [] }) in
      (ret, a, c ∷ calls, rw ok (run ∙ rw append_assoc refl))
  | inr bad ↦ (
    first_answer s.answers,
    later_answers (later_answers s.answers),
    c ∷ mutexattr_destroy mutex ∷ [],
    rw (bad, append_assoc) refl,
  )
]

nl_create_mutex-Calls :
    (s : System) (mutex : Ptr) (kind : ℤ) → Calls s (nl_create_mutex mutex kind s)
unfolding nl_create_mutex
nl_create_mutex-Calls s mutex kind = elim (Bool-cases (first_answer s.answers == 0)) [
  | inl ok ↦
      let (ret, a, calls, run) =
        let clear : Action System ℕ = call (mutexattr_destroy mutex) in
        let make : Action System ℕ = step_or_undo mutex (mutex_init mutex) clear in
        let protocol : Action System ℕ = step_or_undo mutex (mutexattr_setprotocol mutex) make in
        step-Calls
          (record s {
            answers = later_answers s.answers;
            trace = s.trace ++ mutexattr_init mutex ∷ [];
          })
          mutex (mutexattr_settype mutex (kind_of kind)) protocol
          λ s. step-Calls s mutex (mutexattr_setprotocol mutex) make λ s.
            step-Calls s mutex (mutex_init mutex) clear
              λ s. call-Calls s (mutexattr_destroy mutex) in
      (ret, a, mutexattr_init mutex ∷ calls, rw ok (run ∙ rw append_assoc refl))
  | inr bad ↦
      (first_answer s.answers, later_answers s.answers, mutexattr_init mutex ∷ [], rw bad refl)
]

-- `nl_create_thread_context` always returns: a new context without threads, or NULL with every context as before. The
-- allocator gives an address that is not in use, or NULL.
pub nl_create_thread_context-IsContext :
    (s : System)
    → s.ctxs (first_answer s.answers) ≡ none
    → (ret : Ptr) × (s' : System) × (nl_create_thread_context s ≡ done ret s')
      × (s'.infos ≡ s.infos)
      × (IsContext s' ret [] ⊎ ((ret ≡ null) × ((m : Ptr) → s'.ctxs m ≡ s.ctxs m)))
unfolding nl_create_thread_context
nl_create_thread_context-IsContext s unused =
    let p = first_answer s.answers in
    let x : NlThreadCtx = record { main_thread = s.self; threads = null; held = 0 } in
    let s1 : System = record s {
      answers = later_answers s.answers;
      ctxs = update s.ctxs p (some x);
    } in
    let (ret, a, calls, run) = nl_create_mutex-Calls s1 p (negsuc 0) in
    let s2 : System = record s1 { answers = a; trace = s1.trace ++ calls } in
    let at : s2.ctxs p ≡ some x = update_self s.ctxs p _ in
    elim (Bool-cases (p == null)) [
      | inl no_space ↦ (
        null,
        record s { answers = later_answers s.answers },
        rw no_space refl,
        refl,
        inr (refl, λ m. refl),
      )
      | inr space ↦ elim (Bool-cases (ret == 0)) [
        | inl ok ↦ (
          p,
          s2,
          rw (space, run, ok) refl,
          refl,
          inl (record { ne_null = ground arith; ctx = x; at = at; chain = nil }),
        )
        | inr bad ↦ (
          null,
          record s2 { ctxs = update s2.ctxs p none },
          rw (space, run, bad, free_ctx-ok s2 p at) refl,
          refl,
          inr (refl, update_unused s.ctxs p _ unused),
        )
      ]
    ]

-- The name that a thread has after `nl_set_threadname`, if that and `nl_get_threadname` return 0: the first 15 bytes.
pub nl_get_threadname-set :
    (s : System) (name buf : Bytes)
    → first_answer s.answers ≡ 0
    → first_answer (later_answers s.answers) ≡ 0
    → (nl_set_threadname (some name) >> nl_get_threadname (some buf)) s
      ≡ done
          (0, some (take 15 name))
          (record s {
            names = update s.names s.self (take 15 name);
            answers = later_answers (later_answers s.answers);
          })
unfolding nl_set_threadname nl_get_threadname
nl_get_threadname-set s name buf set_ok get_ok =
    rw (set_ok, get_ok, update_self s.names s.self (take 15 name)) refl
