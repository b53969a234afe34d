-- ===== src/UrlReq/Consistent.antt =====
-- Which states of src/url_req.c are consistent, and the changes that keep them so.
use nlutils.Prelude.{
  ◌≡◌, ◌≢◌, refl, sym, ap, subst, ◌∙◌, inl, inr, Bool, true, false, not, none, some, List, ◌==◌,
  arith, Bool-cases,
}
use nlutils.Prelude.Action.{Outcome, done}
use nlutils.Fifo.Store.{Ptr, null}
use nlutils.UrlReq.State.{UrlReq, Loop, without}
use nlutils.UrlReq.Add.{is_null}
use nlutils.UrlReq.Alive.{With}
use nlutils.UrlReq.Handle.{Piped, Stopped}
use nlutils.UrlReq.Adds.{Accepted}
use nlutils.UrlReq.Listed.{
  listed, listed-append, unique, unique-append, listed-without, unique-without, pending,
  pending-listed, pending-null, pending-append, pending-without,
}

-- The requests in the list are those in the memory, each once, and what waits in the pipe is NULL or one of them, which
-- waits only once.
pub record IsConsistent (s : Loop) : Type 0 where
  pub null_free : s.reqs null ≡ none
  pub listed_live : (q : Ptr) → listed q s.ctx.reqlist ≡ not (is_null (s.reqs q))
  pub once : unique s.ctx.reqlist ≡ true
  pub waiting : pending s.ctx.reqlist s.ctx.pipe ≡ true

pub same_list :
    (s t : Loop)
    → IsConsistent s
    → ((q : Ptr) → t.reqs q ≡ s.reqs q)
    → t.ctx.reqlist ≡ s.ctx.reqlist
    → pending s.ctx.reqlist t.ctx.pipe ≡ true
    → IsConsistent t
same_list s t v reqs list pipe = record {
  null_free = reqs null ∙ v.null_free;
  listed_live = λ q. rw (list, reqs q) (v.listed_live q);
  once = rw list v.once;
  waiting = rw list pipe;
}

piped :
    (s t : Loop) (l : List Ptr)
    → pending l s.ctx.pipe ≡ true
    → Piped s t
    → pending l t.ctx.pipe ≡ true
piped s t l h (inl e) = rw e h
piped s t l h (inr e) = rw e (pending-null l s.ctx.pipe h)

pub Stopped-IsConsistent :
    (s t : Loop) (stop : Bool) → IsConsistent s → Stopped s t stop → IsConsistent t
Stopped-IsConsistent s t stop v q =
    same_list s t v (λ x. rw q.reqs refl) q.list (piped s t s.ctx.reqlist v.waiting q.pipe)

module _ (s t : Loop) (p : Ptr) (v : IsConsistent s) where
  pub live_not_null : (r : UrlReq) → s.reqs p ≡ some r → p ≢ null
  live_not_null r at e =
      let at' : s.reqs null ≡ some r = subst (λ x. s.reqs x ≡ some r) e at in
      let bad : none ≡ some r = sym v.null_free ∙ at' in absurd (cc)

  -- A request that does not wait in the pipe is taken away.
  pub taken_away :
      (r : UrlReq)
      → s.reqs p ≡ some r
      → t.reqs p ≡ none
      → ((q : Ptr) → q ≢ p → t.reqs q ≡ s.reqs q)
      → t.ctx.reqlist ≡ without p s.ctx.reqlist
      → listed p s.ctx.pipe ≡ false
      → Piped s t
      → IsConsistent t
  taken_away r at gone others list out pipe = record {
    null_free = others null (λ e. live_not_null r at (sym e)) ∙ v.null_free;
    listed_live = λ q. elim (Bool-cases (q == p)) [
      | inl hit ↦
          let e : q ≡ p = ground arith in
          rw (list, listed-without q p s.ctx.reqlist v.once, e, gone) (ground arith)
      | inr miss ↦
          let n : q ≢ p = ground arith in
          rw (list, listed-without q p s.ctx.reqlist v.once, others q n, v.listed_live q, miss)
            (ground arith)
    ];
    once = rw list (unique-without p s.ctx.reqlist v.once);
    waiting = rw list (
        piped s t (without p s.ctx.reqlist)
          (pending-without p s.ctx.reqlist s.ctx.pipe v.waiting v.once out) pipe);
  }

  pub With-IsConsistent : (r : UrlReq) → s.reqs p ≡ some r → With p s t → IsConsistent t
  With-IsConsistent r at w = record {
    null_free = w.others null (λ e. live_not_null r at (sym e)) ∙ v.null_free;
    listed_live = λ q. elim (Bool-cases (q == p)) [
      | inl hit ↦
          let e : q ≡ p = ground arith in rw (e, w.ctx, w.there) (v.listed_live p ∙ rw at refl)
      | inr miss ↦ let n : q ≢ p = ground arith in rw (w.ctx, w.others q n) (v.listed_live q)
    ];
    once = rw w.ctx v.once;
    waiting = rw w.ctx v.waiting;
  }

  pub Accepted-IsConsistent : p ≢ null → s.reqs p ≡ none → Accepted p s t → IsConsistent t
  Accepted-IsConsistent n unused w =
      let out : listed p s.ctx.reqlist ≡ false = v.listed_live p ∙ rw unused refl in
      record {
        null_free = w.others null (λ e. n (sym e)) ∙ v.null_free;
        listed_live = λ q. elim (Bool-cases (q == p)) [
          | inl hit ↦
              let e : q ≡ p = ground arith in
              rw (e, w.list, listed-append p p s.ctx.reqlist, w.there) (ground arith)
          | inr miss ↦
              let k : q ≢ p = ground arith in
              rw (w.list, listed-append q p s.ctx.reqlist, w.others q k, v.listed_live q)
                (ground arith)
        ];
        once = rw w.list (unique-append p s.ctx.reqlist v.once out);
        waiting =
            rw (w.list, w.pipe)
              (pending-append p s.ctx.reqlist s.ctx.pipe v.waiting
                (pending-listed p s.ctx.reqlist s.ctx.pipe v.waiting n out));
      }

-- The state behind a run that returns.
abbrev pub state_of : {A : Type 0} → Loop → Outcome Loop A → Loop
state_of s (done a t) = t
state_of s _ = s

pub same_state :
    {A : Type 0} (s : Loop) (m : Outcome Loop A) (a b : A) (t u : Loop)
    → m ≡ done a t
    → m ≡ done b u
    → u ≡ t
same_state s m a b t u e f = ap (state_of s) (sym f ∙ e)
