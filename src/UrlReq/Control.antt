-- ===== src/UrlReq/Control.antt =====
-- `control_pipe_handler` of src/url_req.c takes one request from the control pipe and starts it.
use nlutils.Prelude.{ℕ, zero, suc, Bool, true, false, not, [], ◌∷◌, ◌==◌, if◌then◌else◌}
use nlutils.Prelude.Action.{Action, give, get, ◌>>=◌, ◌>>◌}
use nlutils.Fifo.Store.{Ptr, null}
use nlutils.UrlReq.Headers.{is_zero}
use nlutils.UrlReq.State.{Loop, ask, set_ctx, load_req, ctx_lock, ctx_unlock, is_empty}
use nlutils.UrlReq.Process.{free_req, nl_url_req_stop}
use nlutils.UrlReq.Start.{start_curl}

-- Calls of libevent up to the first that fails; whether all of them succeed.
unfoldable pub all_succeed : ℕ → Action Loop Bool
all_succeed zero = give true
all_succeed (suc n) = do ret ← ask; if is_zero ret then all_succeed n else give false

-- The request is started, and its two buffers are set up by two calls each. The messages name the URL of the
-- request.
unfoldable pub handle_request : Ptr → Action Loop (Unit {0})
handle_request p = do
  ret ← start_curl p
  if not (ret == 0)
      then (do load_req p; free_req p)
      else do ok ← all_succeed 4; if ok then give tt else free_req p

-- A NULL request asks for the shutdown.
unfoldable pub handle_shutdown : Action Loop (Unit {0})
handle_shutdown = do
  ctx_lock
  set_ctx (λ c. record c { shutdown_when_done = true })
  s ← get
  (if is_empty s.ctx.reqlist then nl_url_req_stop else give tt)
  ctx_unlock

unfoldable pub handle_pointer : Ptr → Action Loop (Unit {0})
handle_pointer p = if p == null then handle_shutdown else do ctx_lock; ctx_unlock; handle_request p

-- The answer says whether the whole pointer is read.
unfoldable pub control_pipe_handler : Action Loop (Unit {0})
control_pipe_handler = do
  ret ← ask
  s ← get
  if not (is_zero ret) then give tt else elim s.ctx.pipe [
    | [] ↦ give tt
    | p ∷ rest ↦ do set_ctx (λ c. record c { pipe = rest }); handle_pointer p
  ]
