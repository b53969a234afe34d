-- ===== src/UrlReq/Alive.antt =====
-- What the functions of src/url_req.c that start and end a request do to the memory: which requests are there,
-- and which are in the list of active ones.
use nlutils.Prelude.{
  ℕ, ◌≡◌, ◌≢◌, refl, ◌∙◌, Bool, true, false, some, List, [], ◌∷◌, ◌++◌, if◌then◌else◌, append-nil,
}
use nlutils.Prelude.Action.{Action, done, give, ◌>>=◌}
use nlutils.Ctype.{Bytes}
use nlutils.Fifo.Store.{Ptr, update}
use nlutils.Fifo.Segment.{update_self, update_other}
use nlutils.UrlReq.State.{
  UrlResult, UrlReq, Event, called, kill, close, loopexit, mkdir, mkfifo, unlink, rmdir, body, Loop,
  ask, emit, load_req, put_req,
}

-- The callbacks that have been called.
unfoldable pub calls_of : List Event → List (Ptr × UrlResult)
calls_of [] = []
calls_of (called p r ∷ es) = (p, r) ∷ calls_of es
calls_of (kill pid ∷ es) = calls_of es
calls_of (close fd ∷ es) = calls_of es
calls_of (body b ∷ es) = calls_of es
calls_of (loopexit ∷ es) = calls_of es
calls_of (mkdir ∷ es) = calls_of es
calls_of (mkfifo ∷ es) = calls_of es
calls_of (unlink ∷ es) = calls_of es
calls_of (rmdir ∷ es) = calls_of es

pub calls_of-append : (es fs : List Event) → calls_of (es ++ fs) ≡ calls_of es ++ calls_of fs
unfolding calls_of
calls_of-append [] fs = refl
calls_of-append (called p r ∷ es) fs = rw (calls_of-append es fs) refl
calls_of-append (kill pid ∷ es) fs = calls_of-append es fs
calls_of-append (close fd ∷ es) fs = calls_of-append es fs
calls_of-append (body b ∷ es) fs = calls_of-append es fs
calls_of-append (loopexit ∷ es) fs = calls_of-append es fs
calls_of-append (mkdir ∷ es) fs = calls_of-append es fs
calls_of-append (mkfifo ∷ es) fs = calls_of-append es fs
calls_of-append (unlink ∷ es) fs = calls_of-append es fs
calls_of-append (rmdir ∷ es) fs = calls_of-append es fs

pub calls_of-silent :
    (es : List Event) (e : Event) → calls_of (e ∷ []) ≡ [] → calls_of (es ++ e ∷ []) ≡ calls_of es
calls_of-silent es e h = rw (calls_of-append es (e ∷ []), h, append-nil) refl

-- A state with the request `p`, with the context, the other requests and the callbacks as in `s`.
pub record With (p : Ptr) (s t : Loop) : Type 0 where
  pub req : UrlReq
  pub there : t.reqs p ≡ some req
  pub ctx : t.ctx ≡ s.ctx
  pub calls : calls_of t.events ≡ calls_of s.events
  pub others : (q : Ptr) → q ≢ p → t.reqs q ≡ s.reqs q

-- A command that ends in such a state whenever the request is there.
abbrev pub Keeps : (p : Ptr) → {A : Type 0} → Action Loop A → Type 0
Keeps p {A} m =
    (s : Loop) (r : UrlReq)
    → s.reqs p ≡ some r
    → (a : A) × (t : Loop) × (m s ≡ done a t) × With p s t

module _ (p : Ptr) where
  same :
      (s t : Loop) (r : UrlReq)
      → s.reqs p ≡ some r
      → t.reqs ≡ s.reqs
      → t.ctx ≡ s.ctx
      → calls_of t.events ≡ calls_of s.events
      → With p s t
  same s t r at reqs ctx calls = record {
    calls = calls;
    req = r;
    there = rw reqs at;
    ctx = ctx;
    others = λ q n. rw reqs refl;
  }

  pub Keeps-give : {A : Type 0} (a : A) → Keeps p (give a)
  Keeps-give a s r at = (a, s, refl, same s s r at refl refl refl)

  pub Keeps-ask : Keeps p ask
  Keeps-ask s r at = (_, _, refl, same s _ r at refl refl refl)

  pub Keeps-emit : (e : Event) → calls_of (e ∷ []) ≡ [] → Keeps p (emit e)
  Keeps-emit e h s r at = (tt, _, refl, same s _ r at refl refl (calls_of-silent s.events e h))

  pub Keeps-kill : (pid : ℕ) → Keeps p (emit (kill pid))
  unfolding calls_of
  Keeps-kill pid = Keeps-emit (kill pid) refl

  pub Keeps-close : (fd : ℕ) → Keeps p (emit (close fd))
  unfolding calls_of
  Keeps-close fd = Keeps-emit (close fd) refl

  pub Keeps-body : (b : Bytes) → Keeps p (emit (body b))
  unfolding calls_of
  Keeps-body b = Keeps-emit (body b) refl

  pub Keeps-mkdir : Keeps p (emit mkdir)
  unfolding calls_of
  Keeps-mkdir = Keeps-emit mkdir refl

  pub Keeps-mkfifo : Keeps p (emit mkfifo)
  unfolding calls_of
  Keeps-mkfifo = Keeps-emit mkfifo refl

  pub Keeps-unlink : Keeps p (emit unlink)
  unfolding calls_of
  Keeps-unlink = Keeps-emit unlink refl

  pub Keeps-rmdir : Keeps p (emit rmdir)
  unfolding calls_of
  Keeps-rmdir = Keeps-emit rmdir refl

  pub Keeps-load : Keeps p (load_req p)
  unfolding load_req
  Keeps-load s r at = (r, s, rw (at, load_req) refl, same s s r at refl refl refl)

  pub Keeps-put : (x : UrlReq) → Keeps p (put_req p (some x))
  Keeps-put x s r at = (
    tt,
    record s { reqs = update s.reqs p (some x) },
    refl,
    record {
      req = x;
      there = update_self s.reqs p _;
      ctx = refl;
      calls = refl;
      others = λ q n. update_other s.reqs p q _ n;
    },
  )

  pub Keeps-bind :
      {A B : Type 0} (m : Action Loop A) (k : A → Action Loop B)
      → Keeps p m
      → ((a : A) → Keeps p (k a))
      → Keeps p (m >>= k)
  Keeps-bind m k first next s r at =
      let (a, t, run, w) = first s r at in
      let (b, u, run', w') = next a t w.req w.there in
      (
        b,
        u,
        rw run run',
        record {
          req = w'.req;
          there = w'.there;
          ctx = w'.ctx ∙ w.ctx;
          calls = w'.calls ∙ w.calls;
          others = λ q n. w'.others q n ∙ w.others q n;
        },
      )

  pub Keeps-if :
      {A : Type 0} (b : Bool) (m n : Action Loop A)
      → Keeps p m
      → Keeps p n
      → Keeps p (if b then m else n)
  Keeps-if true m n h k = h
  Keeps-if false m n h k = k

pub ruleset keeps = (
  Keeps-give, Keeps-ask, Keeps-kill, Keeps-close, Keeps-body, Keeps-mkdir, Keeps-mkfifo,
  Keeps-unlink, Keeps-rmdir, Keeps-load, Keeps-put, Keeps-bind, Keeps-if,
)
