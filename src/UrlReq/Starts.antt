-- ===== src/UrlReq/Starts.antt =====
-- `start_curl` always ends: the request is started, or it is freed.
use nlutils.Prelude.{ℕ, refl, Bool, true, false, Option, none, some, if◌then◌else◌, [], ◌∷◌, ◌++◌}
use nlutils.Prelude.Action.{Action, modify}
use nlutils.Prelude.Int.{ℤ}
use nlutils.Ctype.{Bytes}
use nlutils.Fifo.Store.{Ptr}
use nlutils.UrlReq.Headers.{is_zero}
use nlutils.UrlReq.State.{Pairs, UrlReq, Loop}
use nlutils.UrlReq.Options.{
  write, duplicate, write_duplicate, Parts, write_parts, write_option, write_time_option,
  header_hash_callback, form_text, value_text, write_form, form_hash_callback, iterate_pairs,
}
use nlutils.UrlReq.Steps.{
  Locals, Steps, Progress, start_locals, after, ◌then_step◌, failed, going, temp_fifo, make_fifo,
  run_curl, open_fifo, send_times, send_pairs, send_form, send_headers, announce_body,
  close_options, send_body, close_body, remove_fifo, connect_output,
}
use nlutils.UrlReq.Start.{send_url}
use nlutils.UrlReq.Alive.{Keeps, Keeps-give, Keeps-bind, Keeps-if, keeps}

module _ (p : Ptr) where
  Keeps-sent : (b : Bytes) → Keeps p (modify (λ s. record s { sent = s.sent ++ b }))
  Keeps-sent b s r at =
      (tt, _, refl, record { req = r; there = at; ctx = refl; calls = refl; others = λ q n. refl })

  write-Keeps : (b : Bytes) → Keeps p (write b)
  unfolding write
  write-Keeps b = search (keeps, Keeps-sent)

  duplicate-Keeps : (e : Bool) → (b : Bytes) → Keeps p (duplicate e b)
  unfolding duplicate
  duplicate-Keeps e b = search (keeps)

  write_duplicate-Keeps : (d : Option Bytes) → Keeps p (write_duplicate d)
  write_duplicate-Keeps none = search (keeps)
  write_duplicate-Keeps (some b) = write-Keeps b

  write_parts-Keeps : (ps : Parts) → Keeps p (write_parts ps)
  unfolding write_parts
  write_parts-Keeps [] = search (keeps)
  write_parts-Keeps ((e, v) ∷ ps) =
      let rest = write_parts-Keeps ps in
      search (keeps, duplicate-Keeps, write_duplicate-Keeps, rest)

  write_option-Keeps : (key : Bytes) → (ps : Parts) → Keeps p (write_option key ps)
  unfolding write_option
  write_option-Keeps key ps =
      search (keeps, duplicate-Keeps, write_duplicate-Keeps, write-Keeps, write_parts-Keeps) depth
        24

  write_time_option-Keeps : (key : Bytes) → (ms : ℕ) → Keeps p (write_time_option key ms)
  unfolding write_time_option
  write_time_option-Keeps key ms = search (keeps, write_option-Keeps)

  header-Keeps :
      (fd : ℕ) → (key : Bytes) → (value : Bytes) → Keeps p (header_hash_callback fd key value)
  unfolding header_hash_callback
  header-Keeps fd key value = search (keeps, write_option-Keeps)

  form_text-Keeps : (raw : Bool) (b : Bytes) → Keeps p (form_text raw b)
  form_text-Keeps true b = search (keeps)
  form_text-Keeps false b = search (keeps)

  value_text-Keeps : (k : Option Bytes) (raw : Bool) (b : Bytes) → Keeps p (value_text k raw b)
  value_text-Keeps none raw b = search (keeps)
  value_text-Keeps (some k) raw b = form_text-Keeps raw b

  write_form-Keeps : (f : Bytes) (k v : Option Bytes) → Keeps p (write_form f k v)
  write_form-Keeps f none v = search (keeps)
  write_form-Keeps f (some k) none = search (keeps)
  write_form-Keeps f (some k) (some v) = write_option-Keeps f _

  form-Keeps :
      (fd : ℕ)
      → (f : Bytes) → (raw : Bool) → (key : Bytes) → (value : Bytes)
      → Keeps p (form_hash_callback fd f raw key value)
  unfolding form_hash_callback
  form-Keeps fd f raw key value =
      search (keeps, form_text-Keeps, value_text-Keeps, write_form-Keeps) depth 24

  iterate-Keeps :
      (cb : Bytes → Bytes → Action Loop Bool) (pairs : Pairs)
      → ((key value : Bytes) → Keeps p (cb key value))
      → Keeps p (iterate_pairs cb pairs)
  unfolding iterate_pairs
  iterate-Keeps cb [] h = search (keeps)
  iterate-Keeps cb ((key, value) ∷ pairs) h =
      let rest = iterate-Keeps cb pairs h in search (keeps, h, rest)

  after-Keeps :
      (k : Locals → Steps) → ((l : Locals) → Keeps p (k l)) → (q : Progress) → Keeps p (after q k)
  after-Keeps k next (failed l) = Keeps-give p _
  after-Keeps k next (going l) = next l

  then-Keeps :
      (m : Steps) (k : Locals → Steps)
      → Keeps p m
      → ((l : Locals) → Keeps p (k l))
      → Keeps p (m then_step k)
  then-Keeps m k h next = Keeps-bind p m _ h λ q. after-Keeps k next q

  temp_fifo-Keeps : Keeps p (temp_fifo)
  unfolding temp_fifo
  temp_fifo-Keeps = search (keeps) depth 24

  make_fifo-Keeps : (l : Locals) → Keeps p (make_fifo l)
  unfolding make_fifo
  make_fifo-Keeps l = search (keeps, temp_fifo-Keeps)

  run_curl-Keeps : (l : Locals) → Keeps p (run_curl p l)
  unfolding run_curl
  run_curl-Keeps l = search (keeps) depth 24

  open_fifo-Keeps : (l : Locals) → Keeps p (open_fifo l)
  unfolding open_fifo
  open_fifo-Keeps l = search (keeps)

  send_times-Keeps : (l : Locals) → Keeps p (send_times p l)
  unfolding send_times
  send_times-Keeps l = search (keeps, write_time_option-Keeps) depth 24

  send_url-Keeps : (l : Locals) → Keeps p (send_url p l)
  unfolding send_url
  send_url-Keeps l = search (keeps, write_option-Keeps)

  send_pairs-Keeps : (ft : ℤ) → (pairs : Pairs) → (l : Locals) → Keeps p (send_pairs ft pairs l)
  unfolding send_pairs
  send_pairs-Keeps ft pairs l = search (keeps, iterate-Keeps, form-Keeps)

  close_options-Keeps : (l : Locals) → Keeps p (close_options l)
  unfolding close_options
  close_options-Keeps l = search (keeps)

  close_body-Keeps : (l : Locals) → Keeps p (close_body l)
  unfolding close_body
  close_body-Keeps l = search (keeps)

  remove_fifo-Keeps : (l : Locals) → Keeps p (remove_fifo l)
  unfolding remove_fifo
  remove_fifo-Keeps l = search (keeps)

  connect_output-Keeps : (l : Locals) → Keeps p (connect_output p l)
  unfolding connect_output
  connect_output-Keeps l = search (keeps) depth 24

  send_form-Keeps : (ft : ℤ) (f : Option Pairs) (l : Locals) → Keeps p (send_form ft f l)
  unfolding send_form
  send_form-Keeps ft none l = search (keeps)
  send_form-Keeps ft (some pairs) l =
      Keeps-if p (is_zero ft) _ _
        (then-Keeps _ _ (search (keeps, write_option-Keeps)) (send_pairs-Keeps ft pairs))
        (send_pairs-Keeps ft pairs l)

  send_headers-Keeps : (h : Option Pairs) (l : Locals) → Keeps p (send_headers h l)
  unfolding send_headers
  send_headers-Keeps none l = search (keeps)
  send_headers-Keeps (some pairs) l = search (keeps, iterate-Keeps, header-Keeps)

  announce-Keeps : (has : Bool) (size : ℕ) (l : Locals) → Keeps p (announce_body has size l)
  unfolding announce_body
  announce-Keeps false size l = search (keeps)
  announce-Keeps true size l = search (keeps, header-Keeps, write_option-Keeps)

  send_body-Keeps : (b : Option Bytes) (l : Locals) → Keeps p (send_body b l)
  unfolding send_body
  send_body-Keeps none l = search (keeps)
  send_body-Keeps (some b) l = search (keeps)

  -- What `send_request` does before it connects the output.
  abbrev pub before_output : UrlReq → Locals → Steps
  before_output r l =
      send_form r.params.form_type r.params.form l
      then_step send_headers r.params.headers
      then_step announce_body r.has_body r.params.body_size
      then_step close_options
      then_step send_body (if r.has_body then r.params.body_data else none)
      then_step close_body
      then_step remove_fifo

  pub before_output-Keeps : (r : UrlReq) (l : Locals) → Keeps p (before_output r l)
  before_output-Keeps r l =
      let form = send_form-Keeps r.params.form_type r.params.form l in
      let headers = then-Keeps _ _ form (send_headers-Keeps r.params.headers) in
      let length = then-Keeps _ _ headers (announce-Keeps r.has_body r.params.body_size) in
      let closed = then-Keeps _ _ length close_options-Keeps in
      let sent = then-Keeps _ _ closed (send_body-Keeps _) in
      let body_closed = then-Keeps _ _ sent close_body-Keeps in
      then-Keeps _ _ body_closed remove_fifo-Keeps

  -- What `start_curl` does before it sends the request's parameters.
  abbrev pub before_request : Steps
  before_request =
      make_fifo start_locals
      then_step run_curl p
      then_step open_fifo
      then_step send_url p
      then_step send_times p

  pub before_request-Keeps : Keeps p before_request
  before_request-Keeps =
      search
        (
          keeps, then-Keeps, make_fifo-Keeps, run_curl-Keeps, open_fifo-Keeps, send_url-Keeps,
          send_times-Keeps,
        )
        depth 24
