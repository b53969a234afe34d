-- ===== src/UrlReq/Connected.antt =====
-- When the start of curl succeeds, both outputs of the process are connected to the request.
use nlutils.Prelude.{◌≡◌, ◌≢◌, refl, ◌∙◌, some, [], Bool-cases, inl, inr}
use nlutils.Prelude.Action.{Action, done, ◌>>=◌}
use nlutils.Fifo.Store.{Ptr, update}
use nlutils.Fifo.Segment.{update_self, update_other}
use nlutils.UrlReq.Headers.{is_zero}
use nlutils.UrlReq.State.{UrlReq, Loop, first_answer, later_answers, load_req}
use nlutils.UrlReq.Steps.{
  Locals, Progress, Steps, after, ◌then_step◌, failed, going, connect_output,
}
use nlutils.UrlReq.Start.{send_request, start_steps}
use nlutils.UrlReq.Alive.{With, Keeps, Keeps-load}
use nlutils.UrlReq.Starts.{before_output-Keeps, before_request-Keeps}

pub load_req-ok : (p : Ptr) (s : Loop) (r : UrlReq) → s.reqs p ≡ some r → load_req p s ≡ done r s
unfolding load_req
load_req-ok p s r at = rw (at, load_req) refl

pub With-trans : (p : Ptr) (s t u : Loop) → With p s t → With p t u → With p s u
With-trans p s t u w w' = record {
  req = w'.req;
  there = w'.there;
  ctx = w'.ctx ∙ w.ctx;
  calls = w'.calls ∙ w.calls;
  others = λ q n. w'.others q n ∙ w.others q n;
}

module _ (p : Ptr) where
  -- The buffers of a request that is going on.
  abbrev pub Connected : Progress → Loop → Type 0
  Connected (failed l) t = Unit {0}
  Connected (going l) t =
      (q : UrlReq) × (t.reqs p ≡ some q) × (q.outbuf ≡ some []) × (q.errbuf ≡ some [])

  -- A command that ends so whenever the request is there.
  abbrev pub Connects : Steps → Type 0
  Connects m =
      (s : Loop) (r : UrlReq)
      → s.reqs p ≡ some r
      → (x : Progress) × (t : Loop) × (m s ≡ done x t) × With p s t × Connected x t

  Connects-bind :
      {A : Type 0} (m : Action Loop A) (k : A → Steps)
      → Keeps p m
      → ((a : A) → Connects (k a))
      → Connects (m >>= k)
  Connects-bind m k first next s r at =
      let (a, t, run, w) = first s r at in
      let (x, u, run', w', c) = next a t w.req w.there in
      (x, u, rw run run', With-trans p s t u w w', c)

  after-Connects :
      (x : Progress) (k : Locals → Steps) → ((l : Locals) → Connects (k l)) → Connects (after x k)
  after-Connects (going l) k next s r at = next l s r at
  after-Connects (failed l) k next s r at = (
    failed l,
    s,
    refl,
    record { req = r; there = at; ctx = refl; calls = refl; others = λ q n. refl },
    tt,
  )

  then-Connects :
      (m : Steps) (k : Locals → Steps)
      → Keeps p m
      → ((l : Locals) → Connects (k l))
      → Connects (m then_step k)
  then-Connects m k first next = Connects-bind m _ first λ x. after-Connects x k next

  module _ (l : Locals) (s : Loop) (r : UrlReq) (at : s.reqs p ≡ some r) where
    abbrev s1 : Loop
    s1 = record s { answers = later_answers s.answers }

    abbrev with_out : UrlReq
    with_out = record r { outbuf = some [] }

    abbrev s2 : Loop
    s2 = record s1 { reqs = update s.reqs p (some with_out); answers = later_answers s1.answers }

    abbrev with_both : UrlReq
    with_both = record with_out { errbuf = some [] }

    abbrev s3 : Loop
    s3 = record s2 { reqs = update s2.reqs p (some with_both); answers = later_answers s2.answers }

    abbrev s4 : Loop
    s4 = record s3 { answers = later_answers s3.answers }

    at2 : s2.reqs p ≡ some with_out
    at2 = update_self s.reqs p _

    at3 : s3.reqs p ≡ some with_both
    at3 = update_self s2.reqs p _

    others3 : (q : Ptr) → q ≢ p → s3.reqs q ≡ s.reqs q
    others3 q n = update_other s2.reqs p q _ n ∙ update_other s.reqs p q _ n

    pub connect_output-ends :
        (x : Progress) × (t : Loop) × (connect_output p l s ≡ done x t) × With p s t × Connected x t
    unfolding connect_output
    connect_output-ends = elim (Bool-cases (is_zero (first_answer s.answers))) [
      | inr bad ↦ (
        failed l,
        s1,
        rw bad refl,
        record { req = r; there = at; ctx = refl; calls = refl; others = λ q n. refl },
        tt,
      )
      | inl ok ↦ elim (Bool-cases (is_zero (first_answer s1.answers))) [
        | inr bad ↦ (
          failed l,
          s2,
          rw (ok, load_req-ok p s1 r at, bad) refl,
          record {
            req = with_out;
            there = at2;
            ctx = refl;
            calls = refl;
            others = λ q n. update_other s.reqs p q _ n;
          },
          tt,
        )
        | inl ok1 ↦
            let w3 : With p s s3 = record {
              req = with_both;
              there = at3;
              ctx = refl;
              calls = refl;
              others = others3;
            } in
            let w4 : With p s s4 = record {
              req = with_both;
              there = at3;
              ctx = refl;
              calls = refl;
              others = others3;
            } in
            elim (Bool-cases (is_zero (first_answer s2.answers))) [
              | inr bad ↦ (
                failed l,
                s3,
                rw (ok, load_req-ok p s1 r at, ok1, load_req-ok p s2 with_out at2, bad) refl,
                w3,
                tt,
              )
              | inl ok2 ↦ elim (Bool-cases (is_zero (first_answer s3.answers))) [
                | inr bad ↦ (
                  failed l,
                  s4,
                  rw (ok, load_req-ok p s1 r at, ok1, load_req-ok p s2 with_out at2, ok2, bad) refl,
                  w4,
                  tt,
                )
                | inl ok3 ↦ (
                  going l,
                  s4,
                  rw (ok, load_req-ok p s1 r at, ok1, load_req-ok p s2 with_out at2, ok2, ok3) refl,
                  w4,
                  (with_both, at3, refl, refl),
                )
              ]
            ]
      ]
    ]

  send_request-Connects : (l : Locals) → Connects (send_request p l)
  unfolding send_request
  send_request-Connects l =
      Connects-bind _ _ (Keeps-load p)
        λ r. then-Connects _ _ (before_output-Keeps p r l) λ l s q at. connect_output-ends l s q at

  pub start_steps-Connects : Connects (start_steps p)
  unfolding start_steps
  start_steps-Connects = then-Connects _ _ (before_request-Keeps p) send_request-Connects
