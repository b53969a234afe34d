-- ===== src/UrlReq/Process.antt =====
-- The functions of src/url_req.c that end a request: the process is waited for, the result is given
-- to the callback, and the request is freed.
use nlutils.Prelude.{
  ℕ, zero, suc, ◌-◌, Bool, true, false, not, ◌&&◌, ◌||◌, Option, none, some, List, [], ◌∷◌, ◌++◌,
  ◌==◌, if◌then◌else◌,
}
use nlutils.Prelude.Action.{Action, give, get, ◌>>=◌, ◌>>◌}
use nlutils.Prelude.Int.{ℤ, pos, negsuc}
use nlutils.Ctype.{Bytes, codes}
use nlutils.Ctype.Signed.{decimal}
use nlutils.Str.Lines.{nl_split_lines}
use nlutils.Fifo.Store.{Ptr, null}
use nlutils.UrlReq.State.{
  UrlResult, UrlReq, called, kill, close, loopexit, Loop, ask, emit, set_ctx, load_req, put_req,
  ctx_lock, ctx_unlock, without, is_empty,
}
use nlutils.UrlReq.Headers.{HeaderState, header_line_callback, is_zero}

-- The text for an exit status of curl, if it has one of its own.
unfoldable pub curl_error : (retcode : ℕ) → Option Bytes
curl_error r =
    if r == 1
    then some (codes "Unsupported protocol")
    else if r == 3
    then some (codes "Malformed URL")
    else if r == 5 || r == 6
    then some (codes "Hostname not found")
    else if r == 7 || r == 35
    then some (codes "Connection failed")
    else if r == 18
    then some (codes "Transfer stopped before finished")
    else if r == 47
    then some (codes "Too many HTTP redirects")
    else if r == 51 || r == 60
    then some (codes "Certificate validation failed")
    else if r == 52
    then some (codes "Empty response received")
    else if r == 55 || r == 56
    then some (codes "Network error")
    else if r == 67
    then some (codes "Login failed")
    else none

-- The sizes of the messages are below that of `errmsg`, so nothing is cut off.
unfoldable pub store_curl_error : (retcode : ℕ) → Bytes
store_curl_error r = elim (curl_error r) [
  | some msg ↦ msg
  | none ↦ codes "Request failed with unknown curl error " ++ decimal r
]

-- The answer is the return value of `nl_wait_get_return`.
unfoldable pub kill_req_and_wait : Ptr → Action Loop ℤ
kill_req_and_wait p = do
  r ← load_req p
  if r.pid == 0
      then give (pos 0)
      else do emit (kill r.pid); ret ← ask; put_req p (some (record r { pid = 0 })); give ret

-- What the exit status says of the request. `strsignal` names a signal.
unfoldable pub with_status : (strsignal : ℕ → Bytes) → ℤ → UrlResult → UrlResult
with_status strsignal (negsuc zero) r = record r { error = true }
with_status strsignal (negsuc (suc n)) r = record r {
  error = true;
  errmsg =
      let sig = suc (suc n) - 100 in
      codes "Request interrupted by signal "
      ++ decimal sig
      ++ codes " ("
      ++ strsignal sig
      ++ codes ")";
}
with_status strsignal (pos zero) r = r
with_status strsignal (pos (suc n)) r =
    if suc n == 28
    then record r { timeout = true; errmsg = codes "Request timed out" }
    else record r { error = true; errmsg = store_curl_error (suc n) }

-- `free_req`. A close that fails is only logged.
abbrev pub close_fd : Option ℕ → Action Loop (Unit {0})
close_fd none = give tt
close_fd (some fd) = emit (close fd)

-- The process and its files.
unfoldable pub end_process : Ptr → Action Loop (Unit {0})
end_process p = do kill_req_and_wait p; r ← load_req p; close_fd r.readfd; close_fd r.errfd

unfoldable pub free_req : Ptr → Action Loop (Unit {0})
free_req p = if p == null then give tt else do
  load_req p
  ctx_lock
  end_process p
  set_ctx (λ c. record c { reqlist = without p c.reqlist })
  ctx_unlock
  put_req p none

-- A NULL request in the control pipe asks for the shutdown; a write that fails is only logged.
unfoldable pub nl_url_req_shutdown : Action Loop (Unit {0})
nl_url_req_shutdown = do
  ctx_lock
  ret ← ask
  (if is_zero ret then set_ctx (λ c. record c { pipe = c.pipe ++ null ∷ [] }) else give tt)
  ctx_unlock

unfoldable pub nl_url_req_stop : Action Loop (Unit {0})
nl_url_req_stop = do
  ctx_lock
  s ← get
  (if s.ctx.has_evloop && not s.ctx.stopping
      then (do set_ctx (λ c. record c { stopping = true }); nl_url_req_shutdown; emit loopexit)
      else give tt)
  ctx_unlock

abbrev pub bytes_of : Option Bytes → Bytes
bytes_of none = []
bytes_of (some b) = b

abbrev pub header_state : UrlResult → List Bool → HeaderState
header_state r stores = record {
  request_headers = r.request_headers;
  response_headers = r.response_headers;
  code = r.code;
  stores = stores;
  overrun = false;
}

abbrev pub with_headers : HeaderState → (body : Bytes) → UrlResult → UrlResult
with_headers h body r = record r {
  request_headers = h.request_headers;
  response_headers = h.response_headers;
  code = h.code;
  response_body = body;
}

-- The lines that curl logged are read, and the body is stored.
unfoldable pub read_output : List Bool → (out err : Bytes) → UrlResult → UrlResult
read_output stores out err r =
    with_headers (nl_split_lines (some err) (some header_line_callback) (header_state r stores)).1
      out r

abbrev pub is_finished : UrlReq → Bool
is_finished r = r.result.timeout || r.result.error || r.out_eof && r.err_eof

-- `buffered` is the answer of libevent to the terminating zero bytes.
abbrev pub finish : (strsignal : ℕ → Bytes) → List Bool → (status buffered : ℤ) → UrlReq → UrlReq
finish strsignal stores status buffered r = record r {
  result =
      let q = with_status strsignal status r.result in
      if is_zero buffered
      then read_output stores (bytes_of r.outbuf) (bytes_of r.errbuf) q
      else record q { error = true };
}

-- Behind the freeing of a request: the loop ends with the last one, if that was asked for.
unfoldable pub stop_when_done : Action Loop (Unit {0})
stop_when_done = do
  ctx_lock
  s ← get
  (if s.ctx.shutdown_when_done && is_empty s.ctx.reqlist then nl_url_req_stop else give tt)
  ctx_unlock

-- `strsignal` names a signal, and `stores` says which headers can be stored.
unfoldable pub check_process :
    (strsignal : ℕ → Bytes) (stores : List Bool) → Ptr → Action Loop (Unit {0})
check_process strsignal stores p = do
  r ← load_req p
  if not (is_finished r) then give tt else do
    status ← kill_req_and_wait p
    buffered ← ask
    r ← load_req p
    let r' = finish strsignal stores status buffered r
    put_req p (some r')
    (if r'.has_cb then emit (called p r'.result) else give tt)
    free_req p
    stop_when_done

-- What libevent reports of a request's output.
pub data Report : Type 0 where
  eof timed_out other : Report

pub data Buffer : Type 0 where
  out err unknown : Buffer

unfoldable pub reported : Report → Buffer → UrlReq → UrlReq
reported eof out r = record r { out_eof = true }
reported eof err r = record r { err_eof = true }
reported eof unknown r = r
reported timed_out buf r = record r {
  result = record r.result { timeout = true; errmsg = codes "Reading data timed out" };
}
reported other buf r = record r { result = record r.result { error = true } }

unfoldable pub bufev_error :
    (strsignal : ℕ → Bytes) (stores : List Bool) → Report → Buffer → Ptr → Action Loop (Unit {0})
bufev_error strsignal stores report buf p = do
  r ← load_req p
  put_req p (some (reported report buf r))
  check_process strsignal stores p
