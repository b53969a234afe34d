-- ===== src/UrlReq/Adds.antt =====
-- `nl_url_req_add` on every path.
use nlutils.Prelude.{
  ℕ, ◌+◌, ◌-◌, ◌≡◌, ◌≢◌, refl, sym, ◌∙◌, ◌⊎◌, inl, inr, Bool, true, false, not, ◌&&◌, Option,
  Option-cases, none, some, [], ◌∷◌, ◌++◌, ◌==◌, arith, Bool-cases,
}
use nlutils.Prelude.Action.{done}
use nlutils.Fifo.Store.{Ptr, null, update}
use nlutils.Fifo.Segment.{update_self, update_other, not_null}
use nlutils.Url.Encode.{nl_url_encode}
use nlutils.UrlReq.Headers.{is_zero}
use nlutils.UrlReq.State.{
  UrlParams, UrlReq, UrlCtx, Loop, first_answer, later_answers, ctx_lock, ctx_unlock, without,
}
use nlutils.UrlReq.Add.{
  ebusy, enomem, refusal, AddAlloc, clone_params, new_req, is_null, add_error, submit,
  nl_url_req_add,
}
use nlutils.UrlReq.Frees.{free_req-Frees}
use nlutils.UrlReq.Accepts.{
  is_acceptable, add_error_of, refusal-acceptable, copies, IsCopy, clone_params-copies,
  clone_params-IsCopy,
}
use nlutils.UrlReq.Listed.{listed, without-new, without-last}

-- The request is there, in the list and in the control pipe.
pub record Accepted (p : Ptr) (s t : Loop) : Type 0 where
  pub req : UrlReq
  pub there : t.reqs p ≡ some req
  pub others : (q : Ptr) → q ≢ p → t.reqs q ≡ s.reqs q
  pub list : t.ctx.reqlist ≡ s.ctx.reqlist ++ p ∷ []
  pub pipe : t.ctx.pipe ≡ s.ctx.pipe ++ p ∷ []
  pub held : t.ctx.held ≡ s.ctx.held

-- The request is freed, and the lock is left held.
pub record Dropped (p : Ptr) (s t : Loop) : Type 0 where
  pub reqs : (q : Ptr) → t.reqs q ≡ s.reqs q
  pub list : t.ctx.reqlist ≡ s.ctx.reqlist
  pub pipe : t.ctx.pipe ≡ s.ctx.pipe
  pub held : t.ctx.held ≡ s.ctx.held + 1

-- The request gets into the list, and its address into the pipe.
abbrev pub is_sent : AddAlloc → Loop → Bool
is_sent a t = a.elem_ok && is_zero (first_answer t.answers)

module _ (a : AddAlloc) (s : Loop) (n : a.req ≢ null) (unused : s.reqs a.req ≡ none)
    (fresh : listed a.req s.ctx.reqlist ≡ false) where
  -- The error path, from a state with the lock held once more and the request there.
  dropped :
      (t : Loop) (x : UrlReq) (c : UrlCtx)
      → t.reqs a.req ≡ some x
      → ((q : Ptr) → q ≢ a.req → t.reqs q ≡ s.reqs q)
      → t.ctx ≡ c
      → without a.req c.reqlist ≡ s.ctx.reqlist
      → c.pipe ≡ s.ctx.pipe
      → c.held ≡ s.ctx.held + 1
      → (u : Loop) × (add_error a.req t ≡ done ebusy u) × Dropped a.req s u
  dropped t x c at others ctx list pipe held =
      let (u, run, f) = free_req-Frees a.req n t x at in
      let e : u.ctx ≡ record c { reqlist = without a.req c.reqlist } = f.ctx ∙ rw ctx refl in
      (
        u,
        rw run refl,
        record {
          reqs = λ q. elim (Bool-cases (q == a.req)) [
            | inl same ↦ let i : q ≡ a.req = ground arith in rw i (f.gone ∙ sym unused)
            | inr other ↦ let i : q ≢ a.req = ground arith in f.others q i ∙ others q i
          ];
          list = rw e list;
          pipe = rw e pipe;
          held = rw e held;
        },
      )

  module _ (t : Loop) (x : UrlReq) (at : t.reqs a.req ≡ some x)
      (others : (q : Ptr) → q ≢ a.req → t.reqs q ≡ s.reqs q)
      (ctx : t.ctx ≡ record s.ctx { held = s.ctx.held + 1 }) where
    Submits : Type 0
    Submits =
        ((u : Loop) × (submit a t ≡ done 0 u)
          × (is_sent a t ≡ true)
          × ((w : Accepted a.req s u) × (w.req ≡ x)))
        ⊎ ((u : Loop) × (submit a t ≡ done ebusy u) × (is_sent a t ≡ false) × Dropped a.req s u)

    submitted : Submits
    unfolding submit Submits ctx_unlock dropped
    submitted = elim (Bool-cases a.elem_ok) [
      | inr no_elem ↦
          let (u, run, d) = dropped t x _ at others ctx (without-new a.req _ fresh) refl refl in
          inr (u, rw no_elem run, rw no_elem refl, d)
      | inl elem ↦
          let t1 : Loop = record t {
            ctx = record t.ctx { reqlist = t.ctx.reqlist ++ a.req ∷ [] };
            answers = later_answers t.answers;
          } in
          elim (Bool-cases (is_zero (first_answer t.answers))) [
            | inr failed ↦
                let (u, run, d) =
                  dropped t1 x _ at others refl (rw ctx (without-last a.req _ fresh)) (rw ctx refl)
                    (rw ctx refl) in
                inr (u, rw (elem, failed) run, rw (elem, failed) refl, d)
            | inl ok ↦ inl (
              record t1 {
                ctx = record t1.ctx { pipe = t1.ctx.pipe ++ a.req ∷ []; held = t1.ctx.held - 1 };
              },
              rw (elem, ok) refl,
              rw (elem, ok) refl,
              (
                record {
                  req = x;
                  there = at;
                  others = others;
                  list = rw ctx refl;
                  pipe = rw ctx refl;
                  held = rw ctx (omega arith);
                },
                refl,
              ),
            )
          ]
    ]

-- All that a request needs behind its structure: its URL, the copies, an element of the list, and the write to
-- the pipe.
abbrev pub succeeds : AddAlloc → UrlParams → Loop → Bool
succeeds a p s = a.url_ok && copies a p && is_sent a s

-- What a call that returns `ret` has done.
pub data Added (a : AddAlloc) (has_cb : Bool) (p : UrlParams) (s : Loop) (ret : ℕ) (t : Loop)
    : Type 0 where
  refused :
      is_acceptable s.ctx p ≡ false → ret ≡ add_error_of s.ctx p → t ≡ s → Added a has_cb p s ret t
  no_memory :
      is_acceptable s.ctx p ≡ true → a.req ≡ null → ret ≡ enomem → t ≡ s → Added a has_cb p s ret t
  accepted :
      is_acceptable s.ctx p ≡ true
      → a.req ≢ null
      → succeeds a p s ≡ true
      → ret ≡ 0
      → (w : Accepted a.req s t) → IsCopy a has_cb p w.req
      → Added a has_cb p s ret t
  given_up :
      is_acceptable s.ctx p ≡ true
      → a.req ≢ null
      → succeeds a p s ≡ false
      → ret ≡ ebusy
      → Dropped a.req s t
      → Added a has_cb p s ret t

module _ (a : AddAlloc) (has_cb : Bool) (p : UrlParams) (s : Loop) where
  abbrev Adds : Type 0
  Adds =
      (ret : ℕ) × (t : Loop) × (nl_url_req_add a has_cb p s ≡ done ret t) × Added a has_cb p s ret t

  abbrev first_req : UrlReq
  first_req = new_req has_cb (nl_url_encode a.url_ok p.url true true) p

  abbrev in_memory : UrlReq → Loop
  in_memory x = record s {
    ctx = record s.ctx { held = s.ctx.held + 1 };
    reqs = update s.reqs a.req (some x);
  }

  abbrev stored_first : Ptr → Option UrlReq
  stored_first = update s.reqs a.req (some first_req)

  -- The state with the cloned parameters.
  abbrev cloned : Loop
  cloned = record s {
    ctx = record s.ctx { held = s.ctx.held + 1 };
    reqs = update stored_first a.req (some (clone_params a p first_req).1);
  }

  module _ (n : a.req ≢ null) (unused : s.reqs a.req ≡ none)
      (fresh : listed a.req s.ctx.reqlist ≡ false) (valid : refusal s.ctx p ≡ 0)
      (good : is_acceptable s.ctx p ≡ true) where
    -- The URL can be encoded exactly if there is memory.
    encodes : is_null first_req.result.url ≡ not a.url_ok
    unfolding is_acceptable nl_url_encode
    encodes = elim (Option-cases p.url) [
      | inl gone ↦
          let bad : is_acceptable s.ctx p ≡ false = rw gone (ground arith) in
          let wrong : false ≡ true = sym bad ∙ good in absurd (cc)
      | inr (u, e) ↦ rw e (ground arith)
    ]

    no_url : is_null first_req.result.url ≡ true → Adds
    unfolding nl_url_req_add ctx_lock
    no_url bad =
        let (u, run, d) =
          dropped a s n unused fresh (in_memory first_req) first_req _ (update_self s.reqs a.req _)
            (λ q k. update_other s.reqs a.req q _ k) refl (without-new a.req _ fresh) refl refl in
        (
          ebusy,
          u,
          rw (valid, not_null a.req n, bad) run,
          given_up good n (ground (arith, encodes, bad)) refl d,
        )

    others_cloned : (q : Ptr) → q ≢ a.req → cloned.reqs q ≡ s.reqs q
    others_cloned q k =
        update_other stored_first a.req q _ k ∙ update_other s.reqs a.req q (some first_req) k

    here_cloned : cloned.reqs a.req ≡ some (clone_params a p first_req).1
    here_cloned = update_self stored_first a.req _

    not_cloned :
        is_null first_req.result.url ≡ false → (clone_params a p first_req).0 ≡ false → Adds
    unfolding nl_url_req_add ctx_lock
    not_cloned ok bad =
        let (u, run, d) =
          dropped a s n unused fresh cloned _ _ here_cloned others_cloned refl
            (without-new a.req _ fresh) refl refl in
        (
          ebusy,
          u,
          rw (valid, not_null a.req n, ok, bad) run,
          given_up good n (ground (arith, clone_params-copies a p first_req, bad)) refl d,
        )

    behind_clone :
        is_null first_req.result.url ≡ false → (clone_params a p first_req).0 ≡ true → Adds
    unfolding nl_url_req_add ctx_lock Submits
    behind_clone ok all =
        elim (submitted a s n unused fresh cloned _ here_cloned others_cloned refl) [
          | inl (u, run, sent, (w, same)) ↦
              let url : a.url_ok ≡ true = ground (arith, encodes, ok) in
              let copied : copies a p ≡ true = sym (clone_params-copies a p first_req) ∙ all in
              (
                0,
                u,
                rw (valid, not_null a.req n, ok, all) run,
                accepted good n (ground (arith, url, copied, sent)) refl w
                    (rw same (clone_params-IsCopy a has_cb p url copied)),
              )
          | inr (u, run, sent, d) ↦ (
            ebusy,
            u,
            rw (valid, not_null a.req n, ok, all) run,
            given_up good n (ground (arith, sent)) refl d,
          )
        ]

  not_taken : is_acceptable s.ctx p ≡ false → Adds
  unfolding nl_url_req_add add_error_of
  not_taken bad =
      let e : refusal s.ctx p ≡ add_error_of s.ctx p = refusal-acceptable s.ctx p ∙ rw bad refl in
      let nonzero : (add_error_of s.ctx p == 0) ≡ false = ground arith in
      (add_error_of s.ctx p, s, rw (e, nonzero) refl, refused bad refl refl)

  without_memory :
      refusal s.ctx p ≡ 0 → (a.req == null) ≡ true → nl_url_req_add a has_cb p s ≡ done enomem s
  unfolding nl_url_req_add
  without_memory valid no_space = rw (valid, no_space) refl

  pub nl_url_req_add-Added :
      s.reqs a.req ≡ none
      → listed a.req s.ctx.reqlist ≡ false
      → (ret : ℕ) × (t : Loop) × (nl_url_req_add a has_cb p s ≡ done ret t)
        × Added a has_cb p s ret t
  nl_url_req_add-Added unused fresh =
      let e = refusal-acceptable s.ctx p in
      elim (Bool-cases (is_acceptable s.ctx p)) [
        | inr bad ↦ not_taken bad
        | inl good ↦
            let valid : refusal s.ctx p ≡ 0 = e ∙ rw good refl in
            elim (Bool-cases (a.req == null)) [
              | inl no_space ↦ (
                enomem,
                s,
                without_memory valid no_space,
                no_memory good (ground arith) refl refl,
              )
              | inr space ↦
                  let n : a.req ≢ null = ground arith in
                  elim (Bool-cases (is_null first_req.result.url)) [
                    | inl bad ↦ no_url n unused fresh valid good bad
                    | inr ok ↦ elim (Bool-cases (clone_params a p first_req).0) [
                      | inl all ↦ behind_clone n unused fresh valid good ok all
                      | inr bad ↦ not_cloned n unused fresh valid good ok bad
                    ]
                  ]
            ]
      ]
