-- ===== src/UrlReq/Finish.antt =====
-- `check_process`: the end of a request.
use nlutils.Prelude.{
  ℕ, ◌≡◌, ◌≢◌, refl, ◌∙◌, ◌⊎◌, inl, inr, Bool, true, false, ◌||◌, not, zero, suc, none, some, List,
  [], ◌∷◌, ◌++◌, ◌==◌, if◌then◌else◌, arith, Bool-cases, append-nil,
}
use nlutils.Prelude.Action.{done, give}
use nlutils.Prelude.Int.{ℤ, pos, negsuc}
use nlutils.UrlReq.Headers.{is_zero}
use nlutils.Ctype.{Bytes}
use nlutils.Fifo.Store.{Ptr, null, update}
use nlutils.Fifo.Segment.{update_self, update_other}
use nlutils.UrlReq.State.{
  UrlResult, UrlReq, called, kill, Loop, first_answer, later_answers, emit, without,
}
use nlutils.UrlReq.Process.{
  kill_req_and_wait, with_status, read_output, bytes_of, is_finished, finish, check_process,
}
use nlutils.UrlReq.Alive.{calls_of, calls_of-append, calls_of-silent}
use nlutils.UrlReq.Connected.{load_req-ok}
use nlutils.UrlReq.Frees.{free_req-Frees}
use nlutils.UrlReq.Handle.{Piped, done-Stopped, last_done}

-- The request without its process.
abbrev pub waited : UrlReq → UrlReq
waited r = record r { pid = 0 }

-- The callback's call, if there is a callback.
abbrev pub report : Ptr → (has_cb : Bool) → UrlResult → List (Ptr × UrlResult)
report p true r = (p, r) ∷ []
report p false r = []

-- The exit status of the process, if there is one; behind it, libevent's answer to the terminating zero
-- bytes.
abbrev pub status_of : Loop → UrlReq → ℤ
status_of s r = if r.pid == 0 then pos 0 else first_answer s.answers

abbrev pub answers_behind : Loop → UrlReq → List ℤ
answers_behind s r = if r.pid == 0 then s.answers else later_answers s.answers

abbrev pub buffered_of : Loop → UrlReq → ℤ
buffered_of s r = first_answer (answers_behind s r)

-- An exit status that is no error: success, and curl's own timeout.
abbrev pub is_fine : ℤ → Bool
is_fine (pos n) = n == 0 || n == 28
is_fine (negsuc n) = false

abbrev pub is_timeout : ℤ → Bool
is_timeout (pos n) = n == 28
is_timeout (negsuc n) = false

-- What a result says of the end of the request `r`.
pub record Reported (r : UrlReq) (status buffered : ℤ) (q : UrlResult) : Type 0 where
  pub error : q.error ≡ (r.result.error || not (is_fine status) || not (is_zero buffered))
  pub timeout : q.timeout ≡ (r.result.timeout || is_timeout status)
  pub body :
      q.response_body ≡ (if is_zero buffered then bytes_of r.outbuf else r.result.response_body)

with_status-Reported :
    (strsignal : ℕ → Bytes) (status : ℤ) (q : UrlResult)
    → ((with_status strsignal status q).error ≡ (q.error || not (is_fine status)))
      × ((with_status strsignal status q).timeout ≡ (q.timeout || is_timeout status))
      × ((with_status strsignal status q).response_body ≡ q.response_body)
unfolding with_status
with_status-Reported strsignal (negsuc zero) q = (ground arith, ground arith, refl)
with_status-Reported strsignal (negsuc (suc n)) q = (ground arith, ground arith, refl)
with_status-Reported strsignal (pos zero) q = (ground arith, ground arith, refl)
with_status-Reported strsignal (pos (suc n)) q = (ground arith, ground arith, ground arith)

module _ (p : Ptr) (strsignal : ℕ → Bytes) (stores : List Bool) where
  finish-Reported :
      (r : UrlReq) (status buffered : ℤ)
      → Reported r status buffered (finish strsignal stores status buffered r).result
  unfolding read_output
  finish-Reported r status buffered =
      let (e, t, b) = with_status-Reported strsignal status r.result in
      elim (Bool-cases (is_zero buffered)) [
        | inl stored ↦ record {
          error = rw (stored, e) (ground arith);
          timeout = rw (stored, t) refl;
          body = rw stored refl;
        }
        | inr refused ↦ record {
          error = rw refused (ground arith);
          timeout = rw (refused, t) refl;
          body = rw (refused, b) refl;
        }
      ]

  -- The request is gone, its callback has been called once, and the loop ends with the last request if
  -- that was asked for.
  pub record Ended (s t : Loop) (r : UrlReq) : Type 0 where
    pub result : UrlResult
    pub whole :
        result ≡ (finish strsignal stores (status_of s r) (buffered_of s r) (waited r)).result
    pub says : Reported r (status_of s r) (buffered_of s r) result
    pub calls : calls_of t.events ≡ calls_of s.events ++ report p r.has_cb result
    pub gone : t.reqs p ≡ none
    pub others : (q : Ptr) → q ≢ p → t.reqs q ≡ s.reqs q
    pub list : t.ctx.reqlist ≡ without p s.ctx.reqlist
    pub held : t.ctx.held ≡ s.ctx.held
    pub pipe : Piped s t
    pub stopping : t.ctx.stopping ≡ (s.ctx.stopping || last_done p s.ctx)

  module _ (s : Loop) (r : UrlReq) (at : s.reqs p ≡ some r) where
    killed :
        (t : Loop) × (kill_req_and_wait p s ≡ done (status_of s r) t)
        × (t.answers ≡ answers_behind s r)
        × (t.reqs p ≡ some (waited r))
        × (t.ctx ≡ s.ctx)
        × (calls_of t.events ≡ calls_of s.events)
        × ((q : Ptr) → q ≢ p → t.reqs q ≡ s.reqs q)
    unfolding kill_req_and_wait calls_of
    killed = elim (Bool-cases (r.pid == 0)) [
      | inl idle ↦
          let e : r.pid ≡ 0 = ground arith in
          (
            s,
            rw (load_req-ok p s r at, idle) refl,
            rw idle refl,
            at ∙ rw (← e) refl,
            refl,
            refl,
            λ q n. refl,
          )
      | inr running ↦ (
        record s {
          reqs = update s.reqs p (some (waited r));
          answers = later_answers s.answers;
          events = s.events ++ kill r.pid ∷ [];
        },
        rw (load_req-ok p s r at, running) refl,
        rw running refl,
        update_self s.reqs p _,
        refl,
        calls_of-silent s.events (kill r.pid) refl,
        λ q n. update_other s.reqs p q _ n,
      )
    ]

  -- Behind the process: the result is put together and reported.
  reported :
      (s : Loop) (x : UrlReq)
      → s.reqs p ≡ some x
      → (t : Loop) × ((if x.has_cb then emit (called p x.result) else give tt) s ≡ done tt t)
        × (t.reqs ≡ s.reqs)
        × (t.ctx ≡ s.ctx)
        × (calls_of t.events ≡ calls_of s.events ++ report p x.has_cb x.result)
  unfolding calls_of
  reported s x at = elim (Bool-cases x.has_cb) [
    | inl yes_cb ↦ (
      record s { events = s.events ++ called p x.result ∷ [] },
      rw yes_cb refl,
      refl,
      refl,
      rw yes_cb (calls_of-append s.events (called p x.result ∷ [])),
    )
    | inr no_cb ↦ (s, rw no_cb refl, refl, refl, rw (no_cb, append-nil) refl)
  ]

  module _ (s : Loop) (r : UrlReq) (n : p ≢ null) (at : s.reqs p ≡ some r) where
    ended :
        is_finished r ≡ true
        → (t : Loop) × (check_process strsignal stores p s ≡ done tt t) × Ended s t r
    unfolding check_process
    ended fin =
        let (s1, run1, left, at1, ctx1, calls1, others1) = killed s r at in
        let status = status_of s r in
        let buffered = first_answer s1.answers in
        let f = finish-Reported (waited r) status buffered in
        let s2 : Loop = record s1 { answers = later_answers s1.answers } in
        let x = finish strsignal stores status buffered (waited r) in
        let s3 : Loop = record s2 { reqs = update s2.reqs p (some x) } in
        let here : s3.reqs p ≡ some x = update_self s2.reqs p _ in
        let (s4, run4, reqs4, ctx4, calls4) = reported s3 x here in
        let at4 : s4.reqs p ≡ some x = rw reqs4 here in
        let (s5, run5, freed) = free_req-Frees p n s4 x at4 in
        let (t, run6, q) = done-Stopped s5 in
        let ctx5 : s5.ctx ≡ record s.ctx { reqlist = without p s.ctx.reqlist } =
          freed.ctx ∙ rw (ctx4, ctx1) refl in
        (
          t,
          rw (load_req-ok p s r at, fin, run1, load_req-ok p s2 (waited r) at1, run4, run5) run6,
          record {
            result = x.result;
            whole = rw left refl;
            says = rw (← left) (record { error = f.error; timeout = f.timeout; body = f.body });
            calls = q.calls ∙ freed.calls ∙ rw (calls4, calls1) refl;
            gone = rw q.reqs freed.gone;
            others = λ m k.
                rw (q.reqs, freed.others m k, reqs4, update_other s2.reqs p m _ k) (others1 m k);
            list = q.list ∙ rw ctx5 refl;
            held = q.held ∙ rw ctx5 refl;
            stopping = q.stopping ∙ rw ctx5 refl;
            pipe = elim q.pipe [ inl e ↦ inl (e ∙ rw ctx5 refl) | inr e ↦ inr (e ∙ rw ctx5 refl) ];
          },
        )

    -- `check_process` leaves a request alone that neither timed out nor failed, as long as one of its two
    -- outputs is open. Otherwise it always ends: the callback, if there is one, is called once for the
    -- request, with a result that is an error if it was one, or the exit status is neither 0 nor 28, or its output
    -- could not be buffered; that is timed out if it was, or the status is 28; and that has the output as its body if
    -- it could be buffered. Without a process the status counts as 0. The request is freed and out of the list; no other
    -- request changes; the lock is held as often as before; and the loop is stopping if it was, or if this was the last
    -- request, the shutdown was asked for and there is a loop.
    pub check_process-Ended :
        ((is_finished r ≡ false) × (check_process strsignal stores p s ≡ done tt s))
        ⊎ ((is_finished r ≡ true)
            × ((t : Loop) × (check_process strsignal stores p s ≡ done tt t) × Ended s t r))
    unfolding check_process
    check_process-Ended = elim (Bool-cases (is_finished r)) [
      | inl fin ↦ inr (fin, ended fin)
      | inr more ↦ inl (more, rw (load_req-ok p s r at, more) refl)
    ]
