-- ===== src/UrlReq/Frees.antt =====
-- `free_req`, and what ends with it: the request is gone from the memory and from the list.
use nlutils.Prelude.{ℕ, ◌+◌, ◌-◌, ◌≡◌, ◌≢◌, refl, ◌∙◌, ◌⊎◌, inl, inr, Option, none, some, [], arith}
use nlutils.Prelude.Action.{Action, done, give, ◌>>=◌, ◌>>◌}
use nlutils.Fifo.Store.{Ptr, null, update}
use nlutils.Fifo.Segment.{update_self, update_other, not_null}
use nlutils.UrlReq.State.{UrlReq, Loop, ctx_lock, ctx_unlock, without}
use nlutils.UrlReq.Process.{kill_req_and_wait, close_fd, end_process, free_req}
use nlutils.UrlReq.Steps.{Locals, Progress, failed, going}
use nlutils.UrlReq.Start.{close_some, start_failed, finish_start, start_curl}
use nlutils.UrlReq.Alive.{
  calls_of, Keeps-close, Keeps-unlink, Keeps-rmdir, With, Keeps, Keeps-give, Keeps-load, Keeps-put,
  Keeps-if, keeps,
}
use nlutils.UrlReq.Connected.{Connected, load_req-ok, start_steps-Connects}

-- The request is gone, and nothing else of the memory or the context has changed.
pub record Freed (p : Ptr) (s t : Loop) : Type 0 where
  pub gone : t.reqs p ≡ none
  pub ctx : t.ctx ≡ record s.ctx { reqlist = without p s.ctx.reqlist }
  pub calls : calls_of t.events ≡ calls_of s.events
  pub others : (q : Ptr) → q ≢ p → t.reqs q ≡ s.reqs q

pub Freed-after : (p : Ptr) (s t u : Loop) → With p s t → Freed p t u → Freed p s u
Freed-after p s t u w f = record {
  gone = f.gone;
  ctx = f.ctx ∙ rw w.ctx refl;
  calls = f.calls ∙ w.calls;
  others = λ q n. f.others q n ∙ w.others q n;
}

-- A command that ends so, with the result `a`, whenever the request is there.
abbrev pub Frees : (p : Ptr) → {A : Type 0} → A → Action Loop A → Type 0
Frees p a m =
    (s : Loop) (r : UrlReq) → s.reqs p ≡ some r → (t : Loop) × (m s ≡ done a t) × Freed p s t

-- The request is there with empty buffers for both outputs, and nothing else has changed.
abbrev pub IsStarted : Ptr → Loop → Loop → Type 0
IsStarted p s t =
    With p s t × ((q : UrlReq) × (t.reqs p ≡ some q) × (q.outbuf ≡ some []) × (q.errbuf ≡ some []))

module _ (p : Ptr) where
  pub Frees-bind :
      {A B : Type 0} {b : B} (m : Action Loop A) (k : A → Action Loop B)
      → Keeps p m
      → ((a : A) → Frees p b (k a))
      → Frees p b (m >>= k)
  Frees-bind m k first next s r at =
      let (a, t, run, w) = first s r at in
      let (u, run', f) = next a t w.req w.there in (u, rw run run', Freed-after p s t u w f)

  pub Frees-give :
      {A B : Type 0} {a : A} (m : Action Loop A) (b : B) → Frees p a m → Frees p b (m >> give b)
  Frees-give m b first s r at = let (t, run, f) = first s r at in (t, rw run refl, f)

  pub kill-Keeps : Keeps p (kill_req_and_wait p)
  unfolding kill_req_and_wait
  kill-Keeps = search (keeps) depth 12

  close_fd-Keeps : (fd : Option ℕ) → Keeps p (close_fd fd)
  close_fd-Keeps none = Keeps-give p tt
  close_fd-Keeps (some fd) = Keeps-close p fd

  end_process-Keeps : Keeps p (end_process p)
  unfolding end_process
  end_process-Keeps = search (keeps, kill-Keeps, close_fd-Keeps) depth 12

  -- Behind the freeing of the process.
  freed_from : Loop → Loop
  freed_from t = record t {
    ctx = record t.ctx { reqlist = without p t.ctx.reqlist; held = t.ctx.held - 1 };
    reqs = update t.reqs p none;
  }

  free_req-run :
      (s t : Loop) (r : UrlReq)
      → p ≢ null
      → s.reqs p ≡ some r
      → end_process p (record s { ctx = record s.ctx { held = s.ctx.held + 1 } }) ≡ done tt t
      → free_req p s ≡ done tt (freed_from t)
  unfolding free_req ctx_lock ctx_unlock freed_from
  free_req-run s t r n at run = rw (not_null p n, load_req-ok p s r at, run) refl

  pub free_req-Frees : p ≢ null → Frees p tt (free_req p)
  unfolding freed_from
  free_req-Frees n s r at =
      let s1 : Loop = record s { ctx = record s.ctx { held = s.ctx.held + 1 } } in
      let (_, t, run, w) = end_process-Keeps s1 r at in
      let held : s.ctx.held + 1 - 1 ≡ s.ctx.held = omega arith in
      (
        freed_from t,
        free_req-run s t r n at run,
        record {
          gone = update_self t.reqs p none;
          ctx = rw (w.ctx, held) refl;
          calls = w.calls;
          others = λ q m. update_other t.reqs p q none m ∙ w.others q m;
        },
      )

  close_some-Keeps : (fd : Option ℕ) → Keeps p (close_some fd)
  close_some-Keeps none = Keeps-give p tt
  close_some-Keeps (some fd) = Keeps-close p fd

  start_failed-Frees : (l : Locals) → p ≢ null → Frees p 16 (start_failed p l)
  unfolding start_failed
  start_failed-Frees l n =
      let end = Frees-give (free_req p) 16 (free_req-Frees n) in
      Frees-bind _ _ (Keeps-load p) λ r. Frees-bind _ _ (Keeps-put p _) λ _.
        Frees-bind _ _ (close_some-Keeps l.writefd) λ _.
          Frees-bind _ _ (close_some-Keeps l.bodyfd) λ _.
            Frees-bind _ _ (Keeps-if p l.opt_fifo _ _ (Keeps-unlink p) (Keeps-give p tt)) λ _.
              Frees-bind _ _ (Keeps-if p l.temp_dir _ _ (Keeps-rmdir p) (Keeps-give p tt))
                λ _. Frees-bind _ _ kill-Keeps λ _. end

  finish_start-Ends :
      (s t : Loop) (progress : Progress)
      → p ≢ null
      → With p s t
      → Connected p progress t
      → (ret : ℕ) × (u : Loop) × (finish_start p progress t ≡ done ret u)
        × (((ret ≡ 0) × IsStarted p s u) ⊎ ((ret ≡ 16) × Freed p s u))
  finish_start-Ends s t (going l) n w c = (0, t, refl, inl (refl, (w, c)))
  finish_start-Ends s t (failed l) n w c =
      let (u, run, f) = start_failed-Frees l n t w.req w.there in
      (16, u, run, inr (refl, Freed-after p s t u w f))

  -- `start_curl` always ends: it returns 0, and the request is as it was in the list and has buffers for both
  -- outputs of the process, or EBUSY, and the request is freed and out of the list. No callback is called, and no
  -- other request changes.
  pub start_curl-Ends :
      (s : Loop) (r : UrlReq)
      → p ≢ null
      → s.reqs p ≡ some r
      → (ret : ℕ) × (t : Loop) × (start_curl p s ≡ done ret t)
        × (((ret ≡ 0) × IsStarted p s t) ⊎ ((ret ≡ 16) × Freed p s t))
  unfolding start_curl
  start_curl-Ends s r n at =
      let (progress, t, run, w, c) = start_steps-Connects p s r at in
      let (ret, u, run', end) = finish_start-Ends s t progress n w c in (ret, u, rw run run', end)
