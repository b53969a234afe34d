-- ===== src/UrlReq/Accepts.antt =====
-- Which requests `nl_url_req_add` of src/url_req.c takes, said without its order of checks, and what it keeps of
-- them.
use nlutils.Prelude.{
  ℕ, ◌≡◌, refl, Bool, true, false, not, ◌&&◌, ◌||◌, Option, none, some, [], ◌∷◌, ◌==◌, take,
  if◌then◌else◌, length, arith, Bool-cases, Option-cases, inl, inr,
}
use nlutils.Prelude.Int.{ℤ, pos, negsuc, sub_ℕ}
use nlutils.Ctype.{Bytes, codes, All}
use nlutils.Str.Compare.{nl_strstart, strncmp}
use nlutils.Url.Encode.{nl_url_encode}
use nlutils.UrlReq.Headers.{is_zero}
use nlutils.UrlReq.State.{Pairs, UrlParams, UrlReq, UrlCtx}
use nlutils.UrlReq.Add.{
  efault, einval, is_null, is_negative, is_form_type, has_scheme, refusal, AddAlloc, copy_body,
  copy_failed, clone_params, new_req,
}

unfoldable pub begins : (front str : Bytes) → Bool
begins [] str = true
begins (d ∷ front) [] = false
begins (d ∷ front) (c ∷ str) = c == d && begins front str

abbrev pub is_known_url : Option Bytes → Bool
is_known_url none = false
is_known_url (some url) =
    begins (codes "http://") url || begins (codes "https://") url || begins (codes "ftp://") url

abbrev pub is_count : ℤ → Bool
is_count (pos n) = true
is_count (negsuc n) = false

abbrev pub is_known_form : ℤ → Bool
is_known_form (pos n) = n == 0 || n == 1 || n == 2
is_known_form (negsuc n) = false

-- The context runs, the URL has one of the three schemes, the timeouts are not negative, a body that is not empty is
-- there, a body and a form do not stand in each other's way, and the form has a known type.
unfoldable pub is_acceptable : UrlCtx → UrlParams → Bool
is_acceptable c p =
    (c.running && not c.stopping)
    && is_known_url p.url
    && (is_count p.connect_timeout && is_count p.request_timeout)
    && (p.body_size == 0 || not (is_null p.body_data))
    && (is_null p.body_data || is_null p.form || is_zero p.form_type)
    && is_known_form p.form_type

-- The error of a request that is not taken: EFAULT for a NULL URL in a context that runs.
unfoldable pub add_error_of : UrlCtx → UrlParams → ℕ
add_error_of c p = if c.running && not c.stopping && is_null p.url then efault else einval

sub_nonzero : (c d : ℕ) → (c == d) ≡ false → is_zero (sub_ℕ c d) ≡ false
sub_nonzero c d h = ground arith

begins-strncmp :
    (front str : Bytes)
    → All (λ c. (c == 0) ≡ false) front
    → is_zero (strncmp str front (length front)) ≡ begins front str
unfolding begins strncmp
begins-strncmp [] str h = refl
begins-strncmp (d ∷ front) [] h = sub_nonzero 0 d (ground (arith, h.0))
begins-strncmp (d ∷ front) (c ∷ str) h = elim (Bool-cases (c == d)) [
  | inl same ↦ rw same (begins-strncmp front str h.1)
  | inr other ↦ rw other (sub_nonzero c d other)
]

has_scheme-known : (url : Bytes) → has_scheme url ≡ is_known_url (some url)
unfolding nl_strstart
has_scheme-known url =
    rw
      (
        begins-strncmp (codes "http://") url
            (refl, (refl, (refl, (refl, (refl, (refl, (refl, tt))))))),
        begins-strncmp (codes "https://") url
            (refl, (refl, (refl, (refl, (refl, (refl, (refl, (refl, tt)))))))),
        begins-strncmp (codes "ftp://") url (refl, (refl, (refl, (refl, (refl, (refl, tt)))))),
      )
      refl

count-negative : (a : ℤ) → is_negative a ≡ not (is_count a)
count-negative (pos n) = refl
count-negative (negsuc n) = refl

form-known : (a : ℤ) → is_form_type a ≡ is_known_form a
form-known (pos n) = ground arith
form-known (negsuc n) = refl

pub refusal-acceptable :
    (c : UrlCtx) (p : UrlParams) → refusal c p ≡ (if is_acceptable c p then 0 else add_error_of c p)
unfolding refusal is_acceptable add_error_of
refusal-acceptable c p = elim (Option-cases p.url) [
  | inl gone ↦ rw gone (ground arith)
  | inr (url, e) ↦
      rw
        (
          e,
          has_scheme-known url,
          count-negative p.connect_timeout,
          count-negative p.request_timeout,
          form-known p.form_type,
        )
        (ground arith)
]

-- What the allocator has to give for the copies.
abbrev pub copies : AddAlloc → UrlParams → Bool
copies a p = (a.headers_ok || is_null p.headers) && (a.form_ok || is_null p.form)

-- The bytes of a body; a copy that fails is not noticed.
abbrev pub kept_body : (ok : Bool) (size : ℕ) → Option Bytes → Option Bytes
kept_body ok size none = none
kept_body ok size (some b) = if size == 0 || not ok then none else some (take size b)

-- The stored request has the parameters of the call, and the URL in its encoded form.
pub record IsCopy (a : AddAlloc) (has_cb : Bool) (p : UrlParams) (r : UrlReq) : Type 0 where
  pub callback : r.has_cb ≡ has_cb
  pub idle : r.pid ≡ 0
  pub url : r.result.url ≡ nl_url_encode true p.url true true
  pub has_body : r.has_body ≡ not (is_null p.body_data)
  pub body : r.params.body_data ≡ kept_body a.body_ok p.body_size p.body_data
  pub headers : r.params.headers ≡ p.headers
  pub form : r.params.form ≡ p.form
  pub form_type : r.params.form_type ≡ p.form_type
  pub connect_timeout : r.params.connect_timeout ≡ p.connect_timeout
  pub request_timeout : r.params.request_timeout ≡ p.request_timeout

pub clone_params-copies :
    (a : AddAlloc) (p : UrlParams) (r : UrlReq) → (clone_params a p r).0 ≡ copies a p
unfolding clone_params
clone_params-copies a p r = elim (Option-cases p.headers) [
  | inl no_h ↦ elim (Option-cases p.form) [
    | inl no_f ↦ rw (no_h, no_f) (ground arith)
    | inr (f, ef) ↦ rw (no_h, ef) (ground arith)
  ]
  | inr (h, eh) ↦ elim (Option-cases p.form) [
    | inl no_f ↦ rw (eh, no_f) (ground arith)
    | inr (f, ef) ↦ rw (eh, ef) (ground arith)
  ]
]

not_failed : (ok : Bool) (h : Option Pairs) → (ok || is_null h) ≡ true → copy_failed ok h ≡ false
not_failed ok none e = refl
not_failed ok (some h) e = ground (arith, e)

body-kept :
    (ok : Bool) (p q : UrlParams)
    → q.body_data ≡ none
    → (copy_body ok p q).body_data ≡ kept_body ok p.body_size p.body_data
body-kept ok p q e = elim (Option-cases p.body_data) [
  | inl gone ↦ rw gone e
  | inr (b, here) ↦ rw here (ground arith)
]

pub clone_params-IsCopy :
    (a : AddAlloc) (has_cb : Bool) (p : UrlParams)
    → a.url_ok ≡ true
    → copies a p ≡ true
    → IsCopy a has_cb p
        (clone_params a p (new_req has_cb (nl_url_encode a.url_ok p.url true true) p)).1
unfolding clone_params
clone_params-IsCopy a has_cb p u c =
    let h : copy_failed a.headers_ok p.headers ≡ false =
      not_failed a.headers_ok p.headers (ground (arith, c)) in
    let f : copy_failed a.form_ok p.form ≡ false =
      not_failed a.form_ok p.form (ground (arith, c)) in
    record {
      callback = rw (h, f) refl;
      idle = rw (h, f) refl;
      url = rw (h, f, u) refl;
      has_body = rw (h, f) refl;
      body = rw (h, f) (body-kept a.body_ok p _ refl);
      headers = rw (h, f) refl;
      form = rw (h, f) refl;
      form_type = rw (h, f) refl;
      connect_timeout = rw (h, f) refl;
      request_timeout = rw (h, f) refl;
    }
