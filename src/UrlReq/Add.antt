-- ===== src/UrlReq/Add.antt =====
-- `nl_url_req_add` and `control_pipe_handler` of src/url_req.c: a request is checked, put in the list and handed to the
-- event thread, which starts it.
use nlutils.Prelude.{
  ℕ, Bool, true, false, not, ◌&&◌, ◌||◌, Option, none, some, [], ◌∷◌, ◌++◌, ◌==◌, ltb,
  if◌then◌else◌, take,
}
use nlutils.Prelude.Action.{Action, give, get, ◌>>=◌, ◌>>◌}
use nlutils.Prelude.Int.{ℤ, pos, negsuc}
use nlutils.Ctype.{Bytes, codes}
use nlutils.Str.Compare.{nl_strstart}
use nlutils.Url.Encode.{nl_url_encode}
use nlutils.Fifo.Store.{Ptr, null}
use nlutils.UrlReq.Headers.{is_zero}
use nlutils.UrlReq.State.{
  Pairs, UrlParams, UrlReq, UrlCtx, Loop, ask, set_ctx, put_req, ctx_lock, ctx_unlock,
}
use nlutils.UrlReq.Process.{free_req}

abbrev pub efault : ℕ
efault = 14

abbrev pub enomem : ℕ
enomem = 12

abbrev pub ebusy : ℕ
ebusy = 16

abbrev pub einval : ℕ
einval = 22

abbrev pub is_negative : ℤ → Bool
is_negative (pos n) = false
is_negative (negsuc n) = true

abbrev pub is_null : {A : Type 0} → Option A → Bool
is_null none = true
is_null (some _) = false

-- `NL_ON_URL` is 0, and `NL_FORM_TYPE_MAX` is 2.
abbrev pub form_type_max : ℕ
form_type_max = 2

abbrev pub is_form_type : ℤ → Bool
is_form_type (pos n) = not (ltb form_type_max n)
is_form_type (negsuc n) = false

abbrev pub has_scheme : Bytes → Bool
has_scheme url =
    is_zero (nl_strstart url (codes "http://"))
    || is_zero (nl_strstart url (codes "https://"))
    || is_zero (nl_strstart url (codes "ftp://"))

-- The checks of `nl_url_req_add` in their order; 0 if all of them pass.
unfoldable pub refusal : UrlCtx → UrlParams → ℕ
refusal c p = if not c.running || c.stopping then einval else elim p.url [
  | none ↦ efault
  | some url ↦
      if not (has_scheme url)
      then einval
      else if is_negative p.connect_timeout || is_negative p.request_timeout
      then einval
      else if not (p.body_size == 0) && is_null p.body_data
      then einval
      else if not (is_null p.body_data) && not (is_null p.form) && not (is_zero p.form_type)
      then einval
      else if not (is_form_type p.form_type)
      then einval
      else 0
]

-- What the allocator gives to one call: the request, its URL, body and hashes, and the fifo's element.
pub record AddAlloc : Type 0 where
  pub req : Ptr
  pub url_ok : Bool
  pub body_ok : Bool
  pub headers_ok : Bool
  pub form_ok : Bool
  pub elem_ok : Bool

abbrev pub size_max : ℕ
size_max = 18446744073709551615

-- `nl_copy_data`, whose failure is not looked at.
abbrev pub copy_body : (ok : Bool) → UrlParams → UrlParams → UrlParams
copy_body ok p q = elim p.body_data [
  | none ↦ q
  | some b ↦
      if p.body_size == 0
      then record q { body_size = 0; body_data = none }
      else if ok
      then record q { body_size = p.body_size; body_data = some (take p.body_size b) }
      else record q { body_size = size_max; body_data = none }
]

abbrev pub copy_failed : (ok : Bool) → Option Pairs → Bool
copy_failed ok none = false
copy_failed ok (some h) = not ok

abbrev pub no_params : UrlParams
no_params = record {
  method = none;
  url = none;
  body_size = 0;
  body_data = none;
  headers = none;
  form = none;
  form_type = pos 0;
  connect_timeout = pos 0;
  request_timeout = pos 0;
}

-- The request with its own parameters, and whether all of them are there.
unfoldable pub clone_params : AddAlloc → UrlParams → UrlReq → Bool × UrlReq
clone_params a p r =
    let named = record no_params { method = some r.result.method; url = r.result.url } in
    let with_body = record r {
      has_body = not (is_null p.body_data);
      params = copy_body a.body_ok p named;
    } in
    let with_headers = record with_body {
      params = record with_body.params { headers = p.headers };
    } in
    let with_form = record with_headers { params = record with_headers.params { form = p.form } } in
    if copy_failed a.headers_ok p.headers
    then (false, with_body)
    else if copy_failed a.form_ok p.form
    then (false, with_headers)
    else (
      true,
      record with_form {
        params = record with_form.params {
          form_type = p.form_type;
          connect_timeout = p.connect_timeout;
          request_timeout = p.request_timeout;
        };
      },
    )

abbrev pub method_of : Option Bytes → Bytes
method_of none = codes "GET"
method_of (some m) = take 15 m

-- The request behind `calloc`, with its URL.
abbrev pub new_req : (has_cb : Bool) → (url : Option Bytes) → UrlParams → UrlReq
new_req has_cb url p = record {
  read_timeout = pos 0;
  has_cb = has_cb;
  pid = 0;
  readfd = none;
  errfd = none;
  outbuf = none;
  errbuf = none;
  params = no_params;
  result = record {
    method = method_of p.method;
    url = url;
    code = pos 0;
    errmsg = [];
    timeout = false;
    error = false;
    request_headers = [];
    response_headers = [];
    response_body = [];
  };
  has_body = false;
  out_eof = false;
  err_eof = false;
}

abbrev pub add_error : Ptr → Action Loop ℕ
add_error req = free_req req >> give ebusy

-- The request is put in the list, and its address in the control pipe.
unfoldable pub submit : AddAlloc → Action Loop ℕ
submit a = if not a.elem_ok then add_error a.req else do
  set_ctx (λ c. record c { reqlist = c.reqlist ++ a.req ∷ [] })
  ret ← ask
  if not (is_zero ret)
      then add_error a.req
      else do set_ctx (λ c. record c { pipe = c.pipe ++ a.req ∷ [] }); ctx_unlock; give 0

-- The answer to the write is 0 if the address is written.
unfoldable pub nl_url_req_add : AddAlloc → (has_cb : Bool) → UrlParams → Action Loop ℕ
nl_url_req_add a has_cb p = do
  s ← get
  if not (refusal s.ctx p == 0)
      then give (refusal s.ctx p)
      else if a.req == null
      then give enomem
      else do
        ctx_lock
        let r = new_req has_cb (nl_url_encode a.url_ok p.url true true) p
        put_req a.req (some r)
        if is_null r.result.url then add_error a.req else do
          put_req a.req (some (clone_params a p r).1)
          if not (clone_params a p r).0 then add_error a.req else submit a
