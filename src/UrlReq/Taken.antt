-- ===== src/UrlReq/Taken.antt =====
-- `control_pipe_handler` of src/url_req.c on the states that the request loop reaches.
use nlutils.Prelude.{◌+◌, ◌-◌, ◌≡◌, List, ◌∷◌}
use nlutils.Prelude.Action.{done}
use nlutils.Fifo.Store.{Ptr}
use nlutils.UrlReq.State.{Loop}
use nlutils.UrlReq.Add.{ebusy}
use nlutils.UrlReq.Start.{start_curl}
use nlutils.UrlReq.Preserved.{popped}

-- The state in which a request that was taken out of the pipe is started.
abbrev pub taken : Loop → List Ptr → Loop
taken s rest = record (popped s rest) {
  ctx = record (popped s rest).ctx { held = s.ctx.held + 1 - 1 };
}

-- The request at the head of the pipe could not be started.
pub record FailedStart (s : Loop) : Type 0 where
  pub req : Ptr
  pub rest : List Ptr
  pub after : Loop
  pub head : s.ctx.pipe ≡ req ∷ rest
  pub start : start_curl req (taken s rest) ≡ done ebusy after
