-- ===== src/UrlReq/Preserved.antt =====
-- The functions of src/url_req.c that the steps of the request loop run keep a consistent state consistent.
use nlutils.Prelude.{
  ℕ, ◌+◌, ◌-◌, ◌≡◌, ◌≢◌, refl, sym, subst, ◌∙◌, inl, inr, Bool, true, false, not, ◌&&◌, Option,
  none, some, List, [], ◌∷◌, ◌==◌, arith, Bool-cases,
}
use nlutils.Prelude.Action.{done, faulted}
use nlutils.Ctype.{Bytes}
use nlutils.Fifo.Store.{Ptr, null}
use nlutils.UrlReq.State.{
  UrlParams, UrlReq, Loop, ctx_lock, ctx_unlock, first_answer, later_answers, is_empty,
}
use nlutils.UrlReq.Headers.{is_zero}
use nlutils.UrlReq.Process.{check_process}
use nlutils.UrlReq.Add.{AddAlloc, is_null, nl_url_req_add}
use nlutils.UrlReq.Control.{handle_request, handle_shutdown, handle_pointer, control_pipe_handler}
use nlutils.UrlReq.Handle.{handle_request-Ends, stop-Stopped}
use nlutils.UrlReq.Finish.{check_process-Ended}
use nlutils.UrlReq.Adds.{Added, refused, no_memory, accepted, given_up, nl_url_req_add-Added}
use nlutils.UrlReq.Consistent.{
  IsConsistent, same_list, Stopped-IsConsistent, live_not_null, taken_away, With-IsConsistent,
  Accepted-IsConsistent, same_state,
}
use nlutils.UrlReq.Listed.{listed, pending}

there : (o : Option UrlReq) → not (is_null o) ≡ true → (r : UrlReq) × (o ≡ some r)
there none h = absurd (cc)
there (some r) h = (r, refl)

Added-IsConsistent :
    (a : AddAlloc) (cb : Bool) (p : UrlParams) (s t : Loop) (ret : ℕ)
    → s.reqs a.req ≡ none
    → IsConsistent s
    → Added a cb p s ret t
    → IsConsistent t
Added-IsConsistent a cb p s t ret unused v (refused bad e same) = subst IsConsistent (sym same) v
Added-IsConsistent a cb p s t ret unused v (no_memory good n e same) =
    subst IsConsistent (sym same) v
Added-IsConsistent a cb p s t ret unused v (accepted good n all e w c) =
    Accepted-IsConsistent s t a.req v n unused w
Added-IsConsistent a cb p s t ret unused v (given_up good n one e d) =
    same_list s t v d.reqs d.list (rw d.pipe v.waiting)

pub add-IsConsistent :
    (a : AddAlloc) (cb : Bool) (p : UrlParams) (s t : Loop) (ret : ℕ)
    → s.reqs a.req ≡ none
    → nl_url_req_add a cb p s ≡ done ret t
    → IsConsistent s
    → IsConsistent t
add-IsConsistent a cb p s t ret unused run v =
    let out : listed a.req s.ctx.reqlist ≡ false = v.listed_live a.req ∙ rw unused refl in
    let (b, u, run', end) = nl_url_req_add-Added a cb p s unused out in
    subst IsConsistent (same_state s _ ret b t u run run')
      (Added-IsConsistent a cb p s u b unused v end)

pub check-IsConsistent :
    (strsignal : ℕ → Bytes) (stores : List Bool) (p : Ptr) (s t : Loop) (r : UrlReq)
    → s.reqs p ≡ some r
    → listed p s.ctx.pipe ≡ false
    → check_process strsignal stores p s ≡ done tt t
    → IsConsistent s
    → IsConsistent t
check-IsConsistent strsignal stores p s t r at out run v =
    elim (check_process-Ended p strsignal stores s r (live_not_null s s p v r at) at) [
      | inl (more, run') ↦ subst IsConsistent (same_state s _ tt tt t s run run') v
      | inr (fin, (u, run', e)) ↦
          subst IsConsistent (same_state s _ tt tt t u run run')
            (taken_away s u p v r at e.gone e.others e.list out e.pipe)
    ]

-- A request that is taken out of the pipe.
handle-IsConsistent :
    (p : Ptr) (s t : Loop) (r : UrlReq)
    → s.reqs p ≡ some r
    → listed p s.ctx.pipe ≡ false
    → handle_request p s ≡ done tt t
    → IsConsistent s
    → IsConsistent t
handle-IsConsistent p s t r at out run v =
    let (ret, u, run0, end) = handle_request-Ends p s r (live_not_null s s p v r at) at in
    elim end [
      | inl (e, (w, run', inl (all, (started, c)))) ↦
          subst IsConsistent (same_state s _ tt tt t w run run')
            (With-IsConsistent s w p v r at started)
      | inl (e, (w, run', inr (one, f))) ↦
          subst IsConsistent (same_state s _ tt tt t w run run')
            (taken_away s w p v r at f.gone f.others (rw f.ctx refl) out (inl (rw f.ctx refl)))
      | inr (e, f, bad) ↦ let wrong : faulted ≡ done tt t = sym bad ∙ run in absurd (cc)
    ]

shutdown-IsConsistent :
    (s t : Loop) → handle_shutdown s ≡ done tt t → IsConsistent s → IsConsistent t
unfolding handle_shutdown ctx_lock ctx_unlock
shutdown-IsConsistent s t run v =
    let s1 : Loop = record s {
      ctx = record s.ctx { held = s.ctx.held + 1; shutdown_when_done = true };
    } in
    let v1 : IsConsistent s1 = same_list s s1 v (λ q. refl) refl v.waiting in
    elim (Bool-cases (is_empty s.ctx.reqlist)) [
      | inl last ↦
          let (u, stopped, q) = stop-Stopped s1 in
          let w : IsConsistent u = Stopped-IsConsistent s1 u _ v1 q in
          let u1 : Loop = record u { ctx = record u.ctx { held = u.ctx.held - 1 } } in
          let run' : handle_shutdown s ≡ done tt u1 = rw (last, stopped) refl in
          subst IsConsistent (same_state s _ tt tt t u1 run run')
            (same_list u u1 w (λ q. refl) refl w.waiting)
      | inr more ↦
          let u1 : Loop = record s1 { ctx = record s1.ctx { held = s1.ctx.held - 1 } } in
          let run' : handle_shutdown s ≡ done tt u1 = rw more refl in
          subst IsConsistent (same_state s _ tt tt t u1 run run')
            (same_list s1 u1 v1 (λ q. refl) refl v1.waiting)
    ]

-- The state behind the reading of the pipe.
abbrev pub popped : Loop → List Ptr → Loop
popped s rest = record s { answers = later_answers s.answers; ctx = record s.ctx { pipe = rest } }

module _ (s t : Loop) (v : IsConsistent s) where
  popped-IsConsistent :
      (p : Ptr) (rest : List Ptr) → s.ctx.pipe ≡ p ∷ rest → IsConsistent (popped s rest)
  unfolding pending
  popped-IsConsistent p rest e =
      let h : pending s.ctx.reqlist (p ∷ rest) ≡ true =
        subst (λ q. pending s.ctx.reqlist q ≡ true) e v.waiting in
      same_list s (popped s rest) v (λ q. refl) refl (ground (arith, h))

  pub waiting_live :
      (p : Ptr) (rest : List Ptr)
      → s.ctx.pipe ≡ p ∷ rest
      → p ≢ null
      → ((r : UrlReq) × (s.reqs p ≡ some r)) × (listed p rest ≡ false)
  unfolding pending
  waiting_live p rest e n =
      let h : pending s.ctx.reqlist (p ∷ rest) ≡ true =
        subst (λ q. pending s.ctx.reqlist q ≡ true) e v.waiting in
      let both : (listed p s.ctx.reqlist && not (listed p rest)) ≡ true = ground (arith, h) in
      let live : not (is_null (s.reqs p)) ≡ true = sym (v.listed_live p) ∙ ground (arith, both) in
      (there (s.reqs p) live, ground (arith, both))

  pointer-IsConsistent :
      (p : Ptr) (rest : List Ptr)
      → s.ctx.pipe ≡ p ∷ rest
      → handle_pointer p (popped s rest) ≡ done tt t
      → IsConsistent t
  unfolding handle_pointer ctx_lock ctx_unlock
  pointer-IsConsistent p rest e run =
      let v1 = popped-IsConsistent p rest e in
      elim (Bool-cases (p == null)) [
        | inl stop ↦
            let run' : handle_shutdown (popped s rest) ≡ done tt t = sym (rw stop refl) ∙ run in
            shutdown-IsConsistent (popped s rest) t run' v1
        | inr given ↦
            let ((r, at), out) = waiting_live p rest e (ground arith) in
            let s2 : Loop = record (popped s rest) {
              ctx = record (popped s rest).ctx { held = s.ctx.held + 1 - 1 };
            } in
            let run' : handle_request p s2 ≡ done tt t = sym (rw given refl) ∙ run in
            handle-IsConsistent p s2 t r at out run'
              (same_list (popped s rest) s2 v1 (λ q. refl) refl v1.waiting)
      ]

  read :
      is_zero (first_answer s.answers) ≡ true
      → control_pipe_handler s ≡ done tt t
      → (pipe : List Ptr) → s.ctx.pipe ≡ pipe
      → IsConsistent t
  unfolding control_pipe_handler
  read ok run [] e =
      let run' : control_pipe_handler s ≡ done tt (popped s s.ctx.pipe) = rw (ok, e) refl in
      subst IsConsistent (same_state s _ tt tt t (popped s s.ctx.pipe) run run')
        (same_list s (popped s s.ctx.pipe) v (λ q. refl) refl v.waiting)
  read ok run (p ∷ rest) e =
      let run' : handle_pointer p (popped s rest) ≡ done tt t = sym (rw (ok, e) refl) ∙ run in
      pointer-IsConsistent p rest e run'

  pub handler-IsConsistent : control_pipe_handler s ≡ done tt t → IsConsistent t
  unfolding control_pipe_handler
  handler-IsConsistent run = elim (Bool-cases (is_zero (first_answer s.answers))) [
    | inr failed ↦
        let run' : control_pipe_handler s ≡ done tt (popped s s.ctx.pipe) = rw failed refl in
        subst IsConsistent (same_state s _ tt tt t (popped s s.ctx.pipe) run run')
          (same_list s (popped s s.ctx.pipe) v (λ q. refl) refl v.waiting)
    | inl ok ↦ read ok run s.ctx.pipe refl
  ]
