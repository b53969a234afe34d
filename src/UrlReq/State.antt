-- ===== src/UrlReq/State.antt =====
-- The memory of src/url_req.c. The list of active requests is the queue of items that the fifo holds. What
-- the system and libevent answer is given in advance, and what others can see is kept in order. A lock
-- that fails aborts the program, so that a run goes on only behind a lock that was taken.
use nlutils.Prelude.{
  ℕ, ◌+◌, ◌-◌, Bool, true, false, Option, none, some, List, [], ◌∷◌, ◌++◌, ◌==◌, if◌then◌else◌,
}
use nlutils.Prelude.Action.{Action, done, faulted, modify}
use nlutils.Prelude.Int.{ℤ, pos}
use nlutils.Ctype.{Bytes}
use nlutils.Fifo.Store.{Ptr, update}

-- The keys and values of a hash, and the calls that fill it, in order.
abbrev pub Pairs : Type 0
Pairs = List (Bytes × Bytes)

-- `struct nl_url_params`. A hash and a body are NULL or what they hold; `form_type` is the number of its value.
pub record UrlParams : Type 0 where
  pub method : Option Bytes
  pub url : Option Bytes
  pub body_size : ℕ
  pub body_data : Option Bytes
  pub headers : Option Pairs
  pub form : Option Pairs
  pub form_type : ℤ
  pub connect_timeout : ℤ
  pub request_timeout : ℤ

-- `struct nl_url_result`
pub record UrlResult : Type 0 where
  pub method : Bytes
  pub url : Option Bytes
  pub code : ℤ
  pub errmsg : Bytes
  pub timeout : Bool
  pub error : Bool
  pub request_headers : Pairs
  pub response_headers : Pairs
  pub response_body : Bytes

-- `struct nl_url_req`. No process is 0, and no file is `none`; `outbuf` and `errbuf` hold what libevent
-- has read from curl.
pub record UrlReq : Type 0 where
  pub read_timeout : ℤ
  pub has_cb : Bool
  pub pid : ℕ
  pub readfd : Option ℕ
  pub errfd : Option ℕ
  pub outbuf : Option Bytes
  pub errbuf : Option Bytes
  pub params : UrlParams
  pub result : UrlResult
  pub has_body : Bool
  pub out_eof : Bool
  pub err_eof : Bool

-- `struct nl_url_ctx`, with what stands in the control pipe and how often the recursive lock is held.
pub record UrlCtx : Type 0 where
  pub held : ℕ
  pub has_evloop : Bool
  pub pipe : List Ptr
  pub reqlist : List Ptr
  pub running : Bool
  pub stopping : Bool
  pub shutdown_when_done : Bool

-- What others see.
pub data Event : Type 0 where
  called : (req : Ptr) → UrlResult → Event
  kill : (pid : ℕ) → Event
  close : (fd : ℕ) → Event
  loopexit mkdir mkfifo unlink rmdir : Event
  body : Bytes → Event

-- `sent` is what has been written to the options of curl.
pub record Loop : Type 0 where
  pub ctx : UrlCtx
  pub reqs : Ptr → Option UrlReq
  pub answers : List ℤ
  pub events : List Event
  pub sent : Bytes

abbrev pub first_answer : List ℤ → ℤ
first_answer [] = pos 0
first_answer (a ∷ rest) = a

abbrev pub later_answers : List ℤ → List ℤ
later_answers [] = []
later_answers (a ∷ rest) = rest

-- The next answer; without one it is 0.
abbrev pub ask : Action Loop ℤ
ask s = done (first_answer s.answers) (record s { answers = later_answers s.answers })

abbrev pub emit : Event → Action Loop (Unit {0})
emit e = modify λ s. record s { events = s.events ++ e ∷ [] }

abbrev pub set_ctx : (UrlCtx → UrlCtx) → Action Loop (Unit {0})
set_ctx f = modify λ s. record s { ctx = f s.ctx }

unfoldable pub load_req : Ptr → Action Loop UrlReq
load_req p s = elim (s.reqs p) [ none ↦ faulted | some r ↦ done r s ]

abbrev pub put_req : Ptr → Option UrlReq → Action Loop (Unit {0})
put_req p r = modify λ s. record s { reqs = update s.reqs p r }

unfoldable pub ctx_lock : Action Loop (Unit {0})
ctx_lock = set_ctx λ c. record c { held = c.held + 1 }

unfoldable pub ctx_unlock : Action Loop (Unit {0})
ctx_unlock = set_ctx λ c. record c { held = c.held - 1 }

-- The queue without the first `p`: what `nl_fifo_remove` leaves.
unfoldable pub without : Ptr → List Ptr → List Ptr
without p [] = []
without p (q ∷ qs) = if q == p then qs else q ∷ without p qs

abbrev pub is_empty : List Ptr → Bool
is_empty [] = true
is_empty (p ∷ ps) = false
