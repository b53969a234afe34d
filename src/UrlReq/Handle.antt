-- ===== src/UrlReq/Handle.antt =====
-- What the event thread does with a request from the control pipe, and with one that has finished.
use nlutils.Prelude.{
  ℕ, zero, suc, List, false, ◌+◌, ◌-◌, ◌≡◌, ◌≢◌, refl, ◌∙◌, ◌⊎◌, inl, inr, Bool, true, not, ◌&&◌,
  ◌||◌, none, some, [], ◌∷◌, ◌++◌, arith, Bool-cases,
}
use nlutils.Prelude.Action.{done, faulted}
use nlutils.Prelude.Int.{ℤ}
use nlutils.Fifo.Store.{Ptr, null}
use nlutils.UrlReq.Headers.{is_zero}
use nlutils.UrlReq.State.{
  UrlReq, UrlCtx, Loop, first_answer, later_answers, loopexit, ctx_lock, ctx_unlock, load_req,
  without, is_empty,
}
use nlutils.UrlReq.Process.{stop_when_done, nl_url_req_stop, nl_url_req_shutdown}
use nlutils.UrlReq.Start.{start_curl}
use nlutils.UrlReq.Control.{all_succeed, handle_request}
use nlutils.UrlReq.Alive.{calls_of, calls_of-silent, With}
use nlutils.UrlReq.Frees.{IsStarted, Freed-after, Freed, free_req-Frees, start_curl-Ends}

-- The first `n` answers are all 0.
unfoldable pub all_zero : (n : ℕ) → List ℤ → Bool
all_zero zero answers = true
all_zero (suc n) answers = is_zero (first_answer answers) && all_zero n (later_answers answers)

-- The calls of libevent answer, and nothing else happens.
all_succeed-all_zero :
    (n : ℕ) (s : Loop)
    → (rest : List ℤ) × (all_succeed n s
        ≡ done (all_zero n s.answers) (record s { answers = rest }))
unfolding all_succeed all_zero
all_succeed-all_zero zero s = (s.answers, refl)
all_succeed-all_zero (suc n) s =
    let (rest, run) = all_succeed-all_zero n (record s { answers = later_answers s.answers }) in
    elim (Bool-cases (is_zero (first_answer s.answers))) [
      | inl ok ↦ (rest, rw ok run)
      | inr bad ↦ (later_answers s.answers, rw bad refl)
    ]

pub load_req-gone : (p : Ptr) (s : Loop) → s.reqs p ≡ none → load_req p s ≡ faulted
unfolding load_req
load_req-gone p s gone = rw (gone, load_req) refl

module _ (p : Ptr) (s : Loop) (r : UrlReq) (n : p ≢ null) (at : s.reqs p ≡ some r) where
  -- Behind the start: libevent accepts the buffers, or the request is freed.
  abbrev pub Handled : Loop → Type 0
  Handled t =
      (u : Loop) × (handle_request p s ≡ done tt u)
      × (((all_zero 4 t.answers ≡ true) × IsStarted p s u)
          ⊎ ((all_zero 4 t.answers ≡ false) × Freed p s u))

  handled : (t : Loop) → start_curl p s ≡ done 0 t → IsStarted p s t → Handled t
  unfolding handle_request
  handled t run (w, c) =
      let (rest, run') = all_succeed-all_zero 4 t in
      let v : Loop = record t { answers = rest } in
      let both : With p s v = record {
        req = w.req;
        there = w.there;
        ctx = w.ctx;
        calls = w.calls;
        others = w.others;
      } in
      elim (Bool-cases (all_zero 4 t.answers)) [
        | inl all ↦ (v, rw (run, run', all) refl, inl (all, (both, c)))
        | inr one ↦
            let (u, run'', f) = free_req-Frees p n v both.req both.there in
            (u, rw (run, run', one) run'', inr (one, Freed-after p s v u both f))
      ]

  twice : (t : Loop) → start_curl p s ≡ done 16 t → t.reqs p ≡ none → handle_request p s ≡ faulted
  unfolding handle_request
  twice t run gone = rw (run, load_req-gone p t gone) refl

  -- When the event thread takes a request that is there and `start_curl` returns 0, the request and the list stay, with
  -- empty buffers for both outputs of its process, if libevent accepts them by answering four calls with 0; if one of
  -- the answers is another, the request is freed and out of the list. If the process cannot be started, `start_curl`
  -- has freed the request, and the thread then reads and frees it again: an access to freed memory.
  pub handle_request-Ends :
      (ret : ℕ) × (t : Loop) × (start_curl p s ≡ done ret t)
      × (((ret ≡ 0) × Handled t) ⊎ ((ret ≡ 16) × Freed p s t × (handle_request p s ≡ faulted)))
  handle_request-Ends =
      let (ret, t, run, end) = start_curl-Ends p s r n at in
      (
        ret,
        t,
        run,
        elim end [
          | inl (e, w) ↦ inl (e, handled t (rw e at run) w)
          | inr (e, f) ↦ inr (e, f, twice t (rw e at run) f.gone)
        ],
      )

-- At most one request to shut down is put in the pipe.
abbrev pub Piped : Loop → Loop → Type 0
Piped s t = (t.ctx.pipe ≡ s.ctx.pipe) ⊎ (t.ctx.pipe ≡ s.ctx.pipe ++ null ∷ [])

-- What stopping does: a flag is set, and neither the requests nor the list nor the callbacks change.
pub record Stopped (s t : Loop) (stop : Bool) : Type 0 where
  pub reqs : t.reqs ≡ s.reqs
  pub list : t.ctx.reqlist ≡ s.ctx.reqlist
  pub held : t.ctx.held ≡ s.ctx.held
  pub calls : calls_of t.events ≡ calls_of s.events
  pub stopping : t.ctx.stopping ≡ stop
  pub pipe : Piped s t

pub shutdown-Stopped :
    (s : Loop) → (t : Loop) × (nl_url_req_shutdown s ≡ done tt t) × Stopped s t s.ctx.stopping
unfolding nl_url_req_shutdown ctx_lock ctx_unlock
shutdown-Stopped s =
    let held : s.ctx.held + 1 - 1 ≡ s.ctx.held = omega arith in
    elim (Bool-cases (is_zero (first_answer s.answers))) [
      | inl ok ↦ (
        record s {
          answers = later_answers s.answers;
          ctx = record s.ctx { held = s.ctx.held + 1 - 1; pipe = s.ctx.pipe ++ null ∷ [] };
        },
        rw ok refl,
        record {
          reqs = refl;
          list = refl;
          held = held;
          calls = refl;
          stopping = refl;
          pipe = inr refl;
        },
      )
      | inr bad ↦ (
        record s {
          answers = later_answers s.answers;
          ctx = record s.ctx { held = s.ctx.held + 1 - 1 };
        },
        rw bad refl,
        record {
          reqs = refl;
          list = refl;
          held = held;
          calls = refl;
          stopping = refl;
          pipe = inl refl;
        },
      )
    ]

abbrev pub stops : UrlCtx → Bool
stops c = c.has_evloop && not c.stopping

pub stop-Stopped :
    (s : Loop)
    → (t : Loop) × (nl_url_req_stop s ≡ done tt t) × Stopped s t (s.ctx.stopping || stops s.ctx)
unfolding nl_url_req_stop ctx_lock ctx_unlock calls_of
stop-Stopped s =
    let held : s.ctx.held + 1 - 1 ≡ s.ctx.held = omega arith in
    elim (Bool-cases (stops s.ctx)) [
      | inl go ↦
          let s1 : Loop = record s {
            ctx = record s.ctx { held = s.ctx.held + 1; stopping = true };
          } in
          let (t, run, q) = shutdown-Stopped s1 in
          (
            record t {
              events = t.events ++ loopexit ∷ [];
              ctx = record t.ctx { held = t.ctx.held - 1 };
            },
            rw (go, run) refl,
            record {
              reqs = q.reqs;
              list = q.list;
              held = rw q.held held;
              calls = calls_of-silent t.events loopexit refl ∙ q.calls;
              stopping = q.stopping ∙ ground (arith, go);
              pipe = q.pipe;
            },
          )
      | inr stay ↦ (
        record s { ctx = record s.ctx { held = s.ctx.held + 1 - 1 } },
        rw stay refl,
        record {
          reqs = refl;
          list = refl;
          held = held;
          calls = refl;
          stopping = ground (arith, stay);
          pipe = inl refl;
        },
      )
    ]

-- Whether the end of the request `p` ends the loop.
abbrev pub last_done : Ptr → UrlCtx → Bool
last_done p c = c.shutdown_when_done && is_empty (without p c.reqlist) && stops c

pub done-Stopped :
    (s : Loop)
    → (t : Loop) × (stop_when_done s ≡ done tt t)
      × Stopped s t
          (s.ctx.stopping || s.ctx.shutdown_when_done && is_empty s.ctx.reqlist && stops s.ctx)
unfolding stop_when_done ctx_lock ctx_unlock
done-Stopped s =
    let held : s.ctx.held + 1 - 1 ≡ s.ctx.held = omega arith in
    elim (Bool-cases (s.ctx.shutdown_when_done && is_empty s.ctx.reqlist)) [
      | inl go ↦
          let s1 : Loop = record s { ctx = record s.ctx { held = s.ctx.held + 1 } } in
          let (t, run, q) = stop-Stopped s1 in
          (
            record t { ctx = record t.ctx { held = t.ctx.held - 1 } },
            rw (go, run) refl,
            record {
              reqs = q.reqs;
              list = q.list;
              held = rw q.held held;
              calls = q.calls;
              stopping = q.stopping ∙ rw go refl;
              pipe = q.pipe;
            },
          )
      | inr stay ↦ (
        record s { ctx = record s.ctx { held = s.ctx.held + 1 - 1 } },
        rw stay refl,
        record {
          reqs = refl;
          list = refl;
          held = held;
          calls = refl;
          stopping = rw stay (ground arith);
          pipe = inl refl;
        },
      )
    ]
