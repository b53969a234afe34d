-- ===== src/UrlReq/Examples.antt =====
-- Concrete runs of the functions on requests.
use nlutils.Prelude.{
  ℕ, ◌+◌, ◌≡◌, ◌⊎◌, refl, arith, true, false, none, some, [], ◌∷◌, ◌++◌, ◌==◌, if◌then◌else◌,
}
use nlutils.Prelude.Int.{pos}
use nlutils.Prelude.Action.{done, faulted}
use nlutils.Ctype.{Bytes, codes}
use nlutils.Escape.RoundTrip.{escaped}
use nlutils.Escape.String.{nl_count_escapes}
use nlutils.Escape.Unescape.{nl_unescape_string, dequote}
use nlutils.UrlReq.State.{UrlParams, UrlReq, Loop}
use nlutils.UrlReq.Headers.{
  HeaderState, response, header_line, Headed, header_line_callback, header_line_callback-header,
}
use nlutils.UrlReq.Options.{write_option, quiet, sending, write_option-unescape}
use nlutils.UrlReq.Process.{is_finished, check_process}
use nlutils.UrlReq.Start.{start_curl}
use nlutils.UrlReq.Control.{handle_request}
use nlutils.UrlReq.Add.{AddAlloc, new_req, no_params, nl_url_req_add}
use nlutils.Str.Compare.{nl_strstart, strncmp}
use nlutils.UrlReq.State.{ctx_lock, ctx_unlock}
use nlutils.Url.Encode.{nl_url_encode}
use nlutils.UrlReq.Add.{refusal, clone_params, submit}
use nlutils.UrlReq.Consistent.{IsConsistent, state_of}
use nlutils.UrlReq.Runs.{IsReached, adds, begun, stepped, reached-IsConsistent}
use nlutils.UrlReq.Frees.{Freed}
use nlutils.UrlReq.Handle.{Handled, handle_request-Ends}
use nlutils.UrlReq.Finish.{Ended, check_process-Ended}

abbrev params : UrlParams
params = record no_params { url = some (codes "http://a/") }

abbrev started : UrlReq
started = record (new_req true (some (codes "http://a/")) params) {
  pid = 9;
  out_eof = true;
  err_eof = true;
  outbuf = some (codes "body");
  errbuf = some (codes "< HTTP/1.1 200 OK");
}

-- One request, which is at 50 and has come to its end.
abbrev loop : Loop
loop = record {
  ctx = record {
    held = 0;
    has_evloop = true;
    pipe = [];
    reqlist = 50 ∷ [];
    running = true;
    stopping = false;
    shutdown_when_done = true;
  };
  reqs = λ p. if p == 50 then some started else none;
  answers = [];
  events = [];
  sent = [];
}

abbrev signal_name : ℕ → Bytes
signal_name n = codes "signal"

abbrev some_headers : HeaderState
some_headers = record {
  request_headers = [];
  response_headers = (codes "Ab", codes "old") ∷ [];
  code = pos 200;
  stores = true ∷ [];
  overrun = false;
}

header_line_callback-header_example :
    (t : HeaderState) × (header_line_callback
        (header_line response (codes "Ab") 1 (codes "x: y"))
        some_headers
      ≡ (false, t))
    × Headed response (codes "Ab") (codes "x: y") some_headers t
header_line_callback-header_example =
    header_line_callback-header (codes "Ab") (codes "x: y") 1 some_headers response
      ((omega arith, omega arith), ((omega arith, omega arith), tt)) (refl, (refl, tt)) refl
      (refl, (refl, (refl, (refl, tt)))) tt
      (((omega arith, omega arith), ((omega arith, omega arith), tt)), tt) refl

write_option-unescape_example :
    (line : Bytes) × (write_option (codes "url") ((true, codes "a") ∷ []) (quiet loop)
      ≡ done true (sending (escaped (codes "url") ++ b'=' ∷ line ++ 10 ∷ []) loop))
    × (nl_unescape_string (some line) true dequote
        ≡ (pos (nl_count_escapes (codes "a") + 2), some (codes "a")))
write_option-unescape_example =
    write_option-unescape (codes "url") (codes "a") loop ((omega arith, omega arith), tt)

handle_request-Ends_example :
    (ret : ℕ) × (t : Loop) × (start_curl 50 loop ≡ done ret t)
    × (((ret ≡ 0) × Handled 50 loop started (omega arith) refl t)
        ⊎ ((ret ≡ 16) × Freed 50 loop t × (handle_request 50 loop ≡ faulted)))
handle_request-Ends_example = handle_request-Ends 50 loop started (omega arith) refl

check_process-Ended_example :
    ((is_finished started ≡ false) × (check_process signal_name [] 50 loop ≡ done tt loop))
    ⊎ ((is_finished started ≡ true)
        × ((t : Loop) × (check_process signal_name [] 50 loop ≡ done tt t)
            × Ended 50 signal_name [] loop t started))
check_process-Ended_example = check_process-Ended 50 signal_name [] loop started (omega arith) refl

abbrev memory : AddAlloc
memory = record {
  req = 60;
  url_ok = true;
  body_ok = true;
  headers_ok = true;
  form_ok = true;
  elem_ok = true;
}

-- No request yet.
abbrev idle : Loop
idle = record loop { ctx = record loop.ctx { reqlist = [] }; reqs = λ p. none }

abbrev queued : Loop
queued = state_of idle (nl_url_req_add memory true params idle)

queued-IsReached : IsReached queued
unfolding nl_url_req_add refusal nl_strstart strncmp ctx_lock nl_url_encode clone_params submit
    ctx_unlock
queued-IsReached =
    stepped idle queued (begun idle refl refl λ p. refl)
      (adds memory true params 0 queued refl refl)

reached-IsConsistent_example : IsConsistent queued
reached-IsConsistent_example = reached-IsConsistent queued queued-IsReached
