-- ===== src/UrlReq/Runs.antt =====
-- The request loop of src/url_req.c as a state machine: its steps are the calls of the program and the events of
-- libevent, in any order.
use nlutils.Prelude.{
  ℕ, ◌≡◌, refl, sym, subst, ◌∙◌, inl, inr, Bool, false, none, some, Option-cases, List, [],
}
use nlutils.Prelude.Action.{done, faulted}
use nlutils.Prelude.Int.{ℤ}
use nlutils.Ctype.{Bytes}
use nlutils.Fifo.Store.{Ptr, null, update}
use nlutils.Fifo.Segment.{update_self, update_other}
use nlutils.UrlReq.State.{UrlParams, Loop}
use nlutils.UrlReq.Process.{
  nl_url_req_stop, nl_url_req_shutdown, Report, Buffer, reported, check_process, bufev_error,
}
use nlutils.UrlReq.Add.{AddAlloc, nl_url_req_add}
use nlutils.UrlReq.Control.{control_pipe_handler}
use nlutils.UrlReq.Alive.{With}
use nlutils.UrlReq.Connected.{load_req-ok}
use nlutils.UrlReq.Handle.{load_req-gone, stop-Stopped, shutdown-Stopped}
use nlutils.UrlReq.Listed.{listed, unique, pending}
use nlutils.UrlReq.Consistent.{
  IsConsistent, same_list, Stopped-IsConsistent, With-IsConsistent, same_state,
}
use nlutils.UrlReq.Preserved.{add-IsConsistent, check-IsConsistent, handler-IsConsistent}

-- A step of the program or the event thread that returns. The allocator gives an address that is not in use;
-- libevent reports only on a request that was taken out of the pipe; what the system answers may change at any time.
pub data Step (s : Loop) : Loop → Type 0 where
  adds :
      (a : AddAlloc) (has_cb : Bool) (p : UrlParams) (ret : ℕ) (t : Loop)
      → s.reqs a.req ≡ none
      → nl_url_req_add a has_cb p s ≡ done ret t
      → Step s t
  takes : (t : Loop) → control_pipe_handler s ≡ done tt t → Step s t
  reports :
      (strsignal : ℕ → Bytes) (stores : List Bool) (report : Report) (buf : Buffer) (p : Ptr)
      (t : Loop)
      → listed p s.ctx.pipe ≡ false
      → bufev_error strsignal stores report buf p s ≡ done tt t
      → Step s t
  shuts_down : (t : Loop) → nl_url_req_shutdown s ≡ done tt t → Step s t
  stops : (t : Loop) → nl_url_req_stop s ≡ done tt t → Step s t
  answers : (xs : List ℤ) → Step s (record s { answers = xs })

-- The states that a context without requests reaches.
pub data IsReached : Loop → Type 0 where
  begun :
      (s : Loop)
      → s.ctx.reqlist ≡ []
      → s.ctx.pipe ≡ []
      → ((p : Ptr) → s.reqs p ≡ none)
      → IsReached s
  stepped : (s t : Loop) → IsReached s → Step s t → IsReached t

report-IsConsistent :
    (strsignal : ℕ → Bytes) (stores : List Bool) (report : Report) (buf : Buffer) (p : Ptr)
    (s t : Loop)
    → listed p s.ctx.pipe ≡ false
    → bufev_error strsignal stores report buf p s ≡ done tt t
    → IsConsistent s
    → IsConsistent t
unfolding bufev_error
report-IsConsistent strsignal stores report buf p s t out run v = elim (Option-cases (s.reqs p)) [
  | inl gone ↦
      let bad : bufev_error strsignal stores report buf p s ≡ faulted =
        rw (load_req-gone p s gone) refl in
      let wrong : faulted ≡ done tt t = sym bad ∙ run in absurd (cc)
  | inr (r, at) ↦
      let x = reported report buf r in
      let u : Loop = record s { reqs = update s.reqs p (some x) } in
      let w : With p s u = record {
        req = x;
        there = update_self s.reqs p _;
        ctx = refl;
        calls = refl;
        others = λ q n. update_other s.reqs p q _ n;
      } in
      let run' : check_process strsignal stores p u ≡ done tt t =
        sym (rw (load_req-ok p s r at) refl) ∙ run in
      check-IsConsistent strsignal stores p u t x w.there out run'
        (With-IsConsistent s u p v r at w)
]

Step-IsConsistent : (s t : Loop) → IsConsistent s → Step s t → IsConsistent t
Step-IsConsistent s t v (adds a has_cb p ret _ unused run) =
    add-IsConsistent a has_cb p s t ret unused run v
Step-IsConsistent s t v (takes _ run) = handler-IsConsistent s t v run
Step-IsConsistent s t v (reports strsignal stores report buf p _ out run) =
    report-IsConsistent strsignal stores report buf p s t out run v
Step-IsConsistent s t v (shuts_down _ run) =
    let (u, run', q) = shutdown-Stopped s in
    subst IsConsistent (same_state s _ tt tt t u run run') (Stopped-IsConsistent s u _ v q)
Step-IsConsistent s t v (stops _ run) =
    let (u, run', q) = stop-Stopped s in
    subst IsConsistent (same_state s _ tt tt t u run run') (Stopped-IsConsistent s u _ v q)
Step-IsConsistent s t v (answers xs) = same_list s _ v (λ q. refl) refl v.waiting

empty-IsConsistent :
    (s : Loop)
    → s.ctx.reqlist ≡ []
    → s.ctx.pipe ≡ []
    → ((p : Ptr) → s.reqs p ≡ none)
    → IsConsistent s
unfolding listed unique pending
empty-IsConsistent s list pipe reqs = record {
  null_free = reqs null;
  listed_live = λ q. rw (list, reqs q) refl;
  once = rw list refl;
  waiting = rw (list, pipe) refl;
}

-- In every state that a context without requests reaches by steps that return, in any order, the list holds exactly the requests
-- that are in the memory, each once, and whatever waits in the control pipe is NULL or a request of the list that
-- waits only once: no request is lost, and none is freed while it is listed or waits to be started.
pub reached-IsConsistent : (s : Loop) → IsReached s → IsConsistent s
reached-IsConsistent s (begun _ list pipe reqs) = empty-IsConsistent s list pipe reqs
reached-IsConsistent t (stepped s _ before step) =
    Step-IsConsistent s t (reached-IsConsistent s before) step
