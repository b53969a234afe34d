-- ===== src/UrlReq/Start.antt =====
-- `start_curl` of src/url_req.c: a curl process is started and given its options, and what the start
-- opened is closed on every path.
use nlutils.Prelude.{ℕ, true, Option, none, some, [], ◌∷◌, if◌then◌else◌}
use nlutils.Prelude.Action.{Action, give, ◌>>=◌, ◌>>◌}
use nlutils.Ctype.{Bytes, codes}
use nlutils.Fifo.Store.{Ptr}
use nlutils.UrlReq.State.{close, unlink, rmdir, Loop, emit, load_req, put_req}
use nlutils.UrlReq.Options.{write_option}
use nlutils.UrlReq.Process.{kill_req_and_wait, free_req}
use nlutils.UrlReq.Steps.{
  Locals, start_locals, Progress, Steps, ◌then_step◌, check_ok, make_fifo, run_curl, open_fifo,
  send_times, send_form, send_headers, announce_body, close_options, send_body, close_body,
  remove_fifo, connect_output, failed, going,
}

-- The steps that have the request's parameters.
unfoldable pub send_request : Ptr → Locals → Steps
send_request p l = do
  r ← load_req p
  send_form r.params.form_type r.params.form l
      then_step send_headers r.params.headers
      then_step announce_body r.has_body r.params.body_size
      then_step close_options
      then_step send_body (if r.has_body then r.params.body_data else none)
      then_step close_body
      then_step remove_fifo
      then_step connect_output p

abbrev pub url_of : Option Bytes → Bytes
url_of none = []
url_of (some u) = u

unfoldable pub send_url : Ptr → Locals → Steps
send_url p l = do
  r ← load_req p
  ok ← write_option (codes "url") ((true, url_of r.result.url) ∷ [])
  check_ok ok l

unfoldable pub start_steps : Ptr → Steps
start_steps p =
    make_fifo start_locals
    then_step run_curl p
    then_step open_fifo
    then_step send_url p
    then_step send_times p
    then_step send_request p

abbrev pub close_some : Option ℕ → Action Loop (Unit {0})
close_some none = give tt
close_some (some fd) = emit (close fd)

-- The error path; what curl wrote to its errors is logged.
unfoldable pub start_failed : Ptr → Locals → Action Loop ℕ
start_failed p l = do
  r ← load_req p
  put_req p (some (record r { result = record r.result { error = true } }))
  close_some l.writefd
  close_some l.bodyfd
  (if l.opt_fifo then emit unlink else give tt)
  (if l.temp_dir then emit rmdir else give tt)
  kill_req_and_wait p
  free_req p
  give 16

abbrev pub finish_start : Ptr → Progress → Action Loop ℕ
finish_start p (failed l) = start_failed p l
finish_start p (going l) = give 0

-- 0, or EBUSY.
unfoldable pub start_curl : Ptr → Action Loop ℕ
start_curl p = start_steps p >>= finish_start p
