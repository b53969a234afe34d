-- ===== src/Thread/Create.antt =====
-- `nl_create_thread` on every path: the thread is in the list exactly when the function returns 0.
use nlutils.Prelude.{
  ℕ, ◌≡◌, ◌≢◌, refl, ◌∙◌, Bool, true, false, not, Option, none, some, List, ◌∷◌, ◌==◌,
  if◌then◌else◌, arith, Bool-cases, inl, inr,
}
use nlutils.Prelude.Action.{done, give}
use nlutils.Ctype.{Bytes}
use nlutils.Fifo.Store.{Ptr, null, update}
use nlutils.Fifo.Segment.{update_self, update_other, not_null}
use nlutils.Thread.System.{first_answer, NlThread, NlThreadCtx, System}
use nlutils.Thread.Ops.{short_name_or_empty, start_thread, nl_create_thread}
use nlutils.Thread.Locks.{
  locked, unlocked, mutex_lock-ok, mutex_unlock-ok, at_locked, at_unlocked, other_locked,
  other_unlocked, free_info-ok,
}
use nlutils.Thread.Track.{
  with_answers, Created, fails, relist, update_unused, Ends, track_thread-Ends,
}
use nlutils.Thread.Chain.{Tracked, info_of, Threads, has, IsContext, not-has_of_none}

-- The result behind the lock, from the answers of the allocator, `errno` or `pthread_create`, and the release
-- of the lock; and what is stored in `*info`.
abbrev pub start_result : (t : Ptr) (e u : ℕ) → ℕ
start_result t e u = if t == null then e else if e == 0 then u else e

abbrev pub stored_info : (t : Ptr) (e : ℕ) → Option Ptr
stored_info t e = if t == null then none else if e == 0 then some t else none

module _ (c : Ptr) (xs : Threads) where
  -- The lock is held.
  module _ (s : System) (v : IsContext s c xs) (func arg : Ptr) (name : Option Bytes) (t e h u : ℕ)
      (rest : List ℕ) (unused : s.infos t ≡ none) where
    abbrev new : Tracked
    new = record { thread = h; name = short_name_or_empty name; func = func; arg = arg }

    abbrev blank_info : NlThread
    blank_info = info_of c (record new { thread = 0 }) null

    no_memory :
        (t == null) ≡ true
        → (e == 0) ≡ false
        → Ends c xs s
            (with_answers s (t ∷ e ∷ h ∷ u ∷ rest))
            t
            new
            e
            none
            (start_thread c func arg name)
    unfolding start_thread
    no_memory no_space set =
        let s1 = with_answers s (h ∷ u ∷ rest) in
        (
          unlocked s1 c v.ctx,
          rw (no_space, mutex_unlock-ok s1 c v.ctx v.at) refl,
          fails s _ c (t, new) xs e set
              (relist s _ c xs _ v (at_unlocked s1 c v.ctx v.at) refl (λ a i. refl)) (λ a. refl)
              (other_unlocked s1 c v.ctx),
        )

    not_started :
        (t == null) ≡ false
        → (e == 0) ≡ false
        → Ends c xs s
            (with_answers s (t ∷ e ∷ h ∷ u ∷ rest))
            t
            new
            e
            none
            (start_thread c func arg name)
    unfolding start_thread
    not_started space bad =
        let s1 : System = record s {
          infos = update s.infos t (some blank_info);
          answers = h ∷ u ∷ rest;
        } in
        let s2 : System = record s1 { infos = update s1.infos t none } in
        (
          unlocked s2 c v.ctx,
          rw
              (
                space,
                bad,
                free_info-ok s1 t (update_self s.infos t _),
                mutex_unlock-ok s2 c v.ctx v.at,
              )
              refl,
          fails s _ c (t, new) xs e bad
              (relist s _ c xs _ v (at_unlocked s2 c v.ctx v.at) refl
                (λ a i. update_unused s.infos t _ unused a))
              (update_unused s.infos t _ unused) (other_unlocked s2 c v.ctx),
        )

    started :
        (t == null) ≡ false
        → (e == 0) ≡ true
        → Ends c xs s
            (with_answers s (t ∷ e ∷ h ∷ u ∷ rest))
            t
            new
            u
            (some t)
            (start_thread c func arg name)
    unfolding start_thread
    started space ok =
        let s1 : System = record s { infos = update s.infos t (some blank_info) } in
        let out : has t xs ≡ false = not-has_of_none t v.chain unused in
        let (s', run, w) =
          track_thread-Ends c xs s s1
            (relist s s1 c xs v.ctx v v.at refl λ a i. update_other s.infos t a _ (λ e. cc)) t u
            rest new (λ i. ground arith) out (update_self s.infos t _) unused
            (λ a n. update_other s.infos t a _ n) (λ m n. refl) in
        (s', rw (space, ok) run, w)

    start_thread-Ends :
        (t ≡ null → e ≢ 0)
        → Ends c xs s
            (with_answers s (t ∷ e ∷ h ∷ u ∷ rest))
            t
            new
            (start_result t e u)
            (stored_info t e)
            (start_thread c func arg name)
    start_thread-Ends errno = elim (Bool-cases (t == null)) [
      | inl no_space ↦
          let n : e ≢ 0 = errno (ground arith) in rw no_space (no_memory no_space (not_null e n))
      | inr space ↦ elim (Bool-cases (e == 0)) [
        | inl ok ↦ rw (space, ok) (started space ok)
        | inr bad ↦ rw (space, bad) (not_started space bad)
      ]
    ]

-- What the caller asks for.
abbrev pub request : (func arg : Ptr) → Option Bytes → (handle : ℕ) → Tracked
request func arg name h = record {
  thread = h;
  name = short_name_or_empty name;
  func = func;
  arg = arg;
}

go_on :
    {A : Type 0} (b : Bool) (f g : System → A) (s : System)
    → b ≡ true
    → (if not b then f else g) s ≡ g s
go_on b f g s h = rw h refl

-- Up to the answer of the lock.
start :
    (s : System) (c : Ptr) (y : NlThreadCtx) (func arg : Ptr) (name : Option Bytes)
    → c ≢ null
    → s.ctxs c ≡ some y
    → func ≢ null
    → nl_create_thread c func arg name s
      ≡ (if not (first_answer s.answers == 0)
            then give (first_answer s.answers, none)
            else start_thread c func arg name)
          (locked s c y)
unfolding nl_create_thread
start s c y func arg name nc at nf =
    rw (not_null c nc, not_null func nf, mutex_lock-ok s c y at) refl

-- `nl_create_thread` always returns. The result is the first of these that is not 0: the answer of the lock, the error
-- number of the allocator if it gives no memory, else the answer of `pthread_create`, and the answer of the release of the
-- lock; it is 0 if all of them are. The new thread is put in front of the list of its context exactly when the result is 0, with
-- the handle from `pthread_create` and at most 15 bytes of the name; otherwise the list, the memory and the other
-- contexts are as before. The thread's address is stored exactly when `pthread_create` has started it. The
-- allocator gives an address that is not in use, or NULL with an error number.
pub nl_create_thread-Created :
    (s : System) (c : Ptr) (xs : Threads) (func arg : Ptr) (name : Option Bytes) (l t e h u : ℕ)
    (rest : List ℕ)
    → IsContext s c xs
    → func ≢ null
    → s.infos t ≡ none
    → (t ≡ null → e ≢ 0)
    → (s' : System) × (nl_create_thread c func arg name (with_answers s (l ∷ t ∷ e ∷ h ∷ u ∷ rest))
        ≡ done
            (if l == 0 then start_result t e u else l, if l == 0 then stored_info t e else none)
            s')
      × Created s s' c (t, request func arg name h) xs (if l == 0 then start_result t e u else l)
unfolding nl_create_thread
nl_create_thread-Created s c xs func arg name l t e h u rest v nf unused errno =
    let s0 = with_answers s (l ∷ t ∷ e ∷ h ∷ u ∷ rest) in
    let s1 = locked s0 c v.ctx in
    let v1 : IsContext s1 c xs =
      relist s s1 c xs _ v (at_locked s0 c v.ctx v.at) refl λ a i. refl in
    elim (Bool-cases (l == 0)) [
      | inl ok ↦
          let (s', run, w) = start_thread-Ends c xs s1 v1 func arg name t e h u rest unused errno in
          rw ok (
            s',
            start s0 c v.ctx func arg name v.ne_null v.at nf ∙ go_on (l == 0) _ _ s1 ok ∙ run,
            record {
              context = w.context;
              infos_same = w.infos_same;
              ctxs_same = λ m n. w.ctxs_same m n ∙ other_locked s0 c v.ctx m n;
            },
          )
      | inr miss ↦ rw miss (
        s1,
        rw (not_null c v.ne_null, not_null func nf, mutex_lock-ok s0 c v.ctx v.at, miss) refl,
        fails s s1 c _ xs l miss v1 (λ a. refl) (other_locked s0 c v.ctx),
      )
    ]
