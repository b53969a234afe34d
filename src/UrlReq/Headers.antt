-- ===== src/UrlReq/Headers.antt =====
-- `header_line_callback` of src/url_req.c: what curl logs on its standard error is read line by line.
use nlutils.Prelude.{
  ℕ, zero, suc, ◌+◌, ◌≡◌, ◌≢◌, refl, Bool-cases, inl, inr, Bool, true, false, ◌&&◌, Option, none,
  some, List, [], ◌∷◌, ◌++◌, ◌==◌, if◌then◌else◌, take, drop, replicate, take-append, length, arith,
}
use nlutils.Prelude.Int.{ℤ, pos, negsuc}
use nlutils.Ctype.{Bytes, codes, All, IsCString}
use nlutils.Ctype.Signed.{strtol10, int_of_long}
use nlutils.Hash.Ops.{same_key}
use nlutils.Hash.Find.{same_key-equal, same_key-differ}
use nlutils.Str.Compare.{nl_strstart}
use nlutils.Str.Copy.{text_in}
use nlutils.UrlReq.State.{Pairs}

-- What the callback changes: the two hashes, by the calls that fill them, and the response code. It is
-- given in advance whether a header can be stored. `overrun` is a search behind the end of a line.
pub record HeaderState : Type 0 where
  pub request_headers : Pairs
  pub response_headers : Pairs
  pub code : ℤ
  pub stores : List Bool
  pub overrun : Bool

-- Which hash a line is about.
pub data Side : Type 0 where
  request response neither : Side

unfoldable pub side_of : Bytes → Side
side_of [] = neither
side_of (c ∷ line) = if c == b'>' then request else if c == b'<' then response else neither

unfoldable pub memchr : Bytes → ℕ → Option ℕ
memchr [] c = none
memchr (b ∷ s) c =
    let rest = memchr s c in
    if b == c then some 0 else elim rest [ none ↦ none | some i ↦ some (suc i) ]

-- `while(*value == ' ' && ...)`
unfoldable pub skip_spaces : Bytes → Bytes
skip_spaces [] = []
skip_spaces (c ∷ s) = let rest = skip_spaces s in if c == b' ' then rest else c ∷ s

abbrev pub first_store : List Bool → Bool
first_store [] = false
first_store (b ∷ bs) = b

abbrev pub later_stores : List Bool → List Bool
later_stores [] = []
later_stores (b ∷ bs) = bs

-- `nl_hash_set`: the value of the first entry with the key is replaced, or an entry is added at the end.
unfoldable pub set_pair : (key value : Bytes) → Pairs → Pairs
set_pair key value [] = (key, value) ∷ []
set_pair key value ((k, v) ∷ ps) =
    let rest = set_pair key value ps in if same_key k key then (k, value) ∷ ps else (k, v) ∷ rest

abbrev pub put_header : Side → (key value : Bytes) → HeaderState → HeaderState
put_header request key value s = record s {
  request_headers = set_pair key value s.request_headers;
  stores = later_stores s.stores;
}
put_header response key value s = record s {
  response_headers = set_pair key value s.response_headers;
  stores = later_stores s.stores;
}
put_header neither key value s = s

-- The strings are duplicated, which ends them at a zero byte, and stored; whether to stop.
unfoldable pub add_header : Side → (key value : Bytes) → HeaderState → Bool × HeaderState
add_header side key value s =
    if first_store s.stores
    then (false, put_header side (text_in key) (text_in value) s)
    else (true, record s { stores = later_stores s.stores })

abbrev pub is_zero : ℤ → Bool
is_zero (pos n) = n == 0
is_zero (negsuc n) = false

-- `atoi`
unfoldable pub atoi : Bytes → ℤ
atoi s = int_of_long (strtol10 s).0

-- A line without a colon, which may be the status line.
unfoldable pub status_line : Bytes → HeaderState → HeaderState
status_line line s =
    if is_zero (nl_strstart line (codes "< HTTP/")) && is_zero s.code
    then elim (memchr (drop 2 line) b' ') [
      | none ↦ s
      | some i ↦ record s { code = atoi (drop (2 + i) line) }
    ]
    else s

-- Behind the first two characters, unless there is only one.
unfoldable pub header_fields : Side → Bytes → HeaderState → Bool × HeaderState
header_fields side line s =
    if length line == 1
    then (false, record s { overrun = true })
    else elim (memchr (drop 2 line) b':') [
      | none ↦ (false, status_line line s)
      | some i ↦ add_header side (take i (drop 2 line)) (skip_spaces (drop (suc i) (drop 2 line))) s
    ]

unfoldable pub header_line_callback : Bytes → HeaderState → Bool × HeaderState
header_line_callback line s = elim (side_of line) [
  | neither ↦ (false, s)
  | request ↦ header_fields request line s
  | response ↦ header_fields response line s
]

-- A header as curl logs it: the mark of its side, the name, the colon, blanks and the value.
abbrev pub mark : Side → Bytes
mark request = codes "> "
mark response = codes "< "
mark neither = codes "* "

abbrev pub header_line : Side → (key : Bytes) → (blanks : ℕ) → (value : Bytes) → Bytes
header_line side key blanks value = mark side ++ (key ++ (b':' ∷ replicate blanks b' ' ++ value))

abbrev pub NoByte : ℕ → Bytes → Type 0
NoByte c = All (λ b. (b == c) ≡ false)

abbrev pub StartsWithout : ℕ → Bytes → Type 0
StartsWithout c [] = Unit {0}
StartsWithout c (b ∷ s) = (b == c) ≡ false

memchr-first : (c : ℕ) (s t : Bytes) → NoByte c s → memchr (s ++ c ∷ t) c ≡ some (length s)
unfolding memchr
memchr-first c [] t h = let e : (c == c) ≡ true = ground arith in rw e refl
memchr-first c (b ∷ s) t h = rw (h.0, memchr-first c s t h.1) refl

skip_spaces-blanks :
    (n : ℕ) (s : Bytes) → StartsWithout b' ' s → skip_spaces (replicate n b' ' ++ s) ≡ s
unfolding skip_spaces
skip_spaces-blanks zero [] h = refl
skip_spaces-blanks zero (c ∷ s) h = rw h refl
skip_spaces-blanks (suc n) s h = skip_spaces-blanks n s h

text_in-all : (s : Bytes) → NoByte 0 s → text_in s ≡ s
unfolding text_in
text_in-all [] h = refl
text_in-all (c ∷ s) h = rw (h.0, text_in-all s h.1) refl

drop-past : (c : ℕ) (s t : Bytes) → drop (suc (length s)) (s ++ c ∷ t) ≡ t
drop-past c [] t = refl
drop-past c (b ∷ s) t = drop-past c s t

module _ (key value : Bytes) (blanks : ℕ) (s : HeaderState) where
  fields-header :
      (side : Side) (a b : ℕ)
      → NoByte b':' key
      → NoByte 0 key
      → StartsWithout b' ' value
      → NoByte 0 value
      → first_store s.stores ≡ true
      → header_fields side (a ∷ b ∷ key ++ (b':' ∷ replicate blanks b' ' ++ value)) s
        ≡ (false, put_header side key value s)
  unfolding header_fields add_header
  fields-header side a b nk zk nv zv ok =
      let rest = replicate blanks b' ' ++ value in
      let long : (length (a ∷ b ∷ key ++ (b':' ∷ rest)) == 1) ≡ false = ground arith in
      rw
        (
          long,
          memchr-first b':' key rest nk,
          take-append key (b':' ∷ rest),
          drop-past b':' key rest,
          skip_spaces-blanks blanks value nv,
          ok,
          text_in-all key zk,
          text_in-all value zv,
        )
        refl

  header-put :
      (side : Side)
      → NoByte b':' key
      → NoByte 0 key
      → StartsWithout b' ' value
      → NoByte 0 value
      → first_store s.stores ≡ true
      → header_line_callback (header_line side key blanks value) s
        ≡ (false, put_header side key value s)
  unfolding header_line_callback side_of
  header-put request nk zk nv zv ok = fields-header request b'>' b' ' nk zk nv zv ok
  header-put response nk zk nv zv ok = fields-header response b'<' b' ' nk zk nv zv ok
  header-put neither nk zk nv zv ok = refl

-- In the second list the key has the value: the value of the first entry with an equal key is replaced, or the
-- pair stands at the end if no entry has an equal key. All else is as in the first list.
pub data IsStored (key value : Bytes) : Pairs → Pairs → Type 0 where
  added : IsStored key value [] ((key, value) ∷ [])
  replaced : {old : Bytes} {ps : Pairs} → IsStored key value ((key, old) ∷ ps) ((key, value) ∷ ps)
  behind :
      {k v : Bytes} {ps qs : Pairs}
      → k ≢ key
      → IsStored key value ps qs
      → IsStored key value ((k, v) ∷ ps) ((k, v) ∷ qs)

-- The keys hold no zero byte.
abbrev pub HasKeys : Pairs → Type 0
HasKeys = All (λ p. IsCString p.0)

set_pair-IsStored :
    (key value : Bytes) (ps : Pairs)
    → IsCString key
    → HasKeys ps
    → IsStored key value ps (set_pair key value ps)
unfolding set_pair
set_pair-IsStored key value [] c h = added
set_pair-IsStored key value ((k, v) ∷ ps) c h = elim (Bool-cases (same_key k key)) [
  | inl hit ↦ let e : k ≡ key = same_key-equal k key h.0 c hit in rw hit (rw e replaced)
  | inr miss ↦ rw miss (behind (same_key-differ k key miss) (set_pair-IsStored key value ps c h.1))
]

-- What a header does: the key has the value on its side, and nothing else changes but that an answer
-- of the allocator is used.
abbrev pub Headed : Side → (key value : Bytes) → HeaderState → HeaderState → Type 0
Headed request key value s t =
    IsStored key value s.request_headers t.request_headers
    × (t ≡ record s { request_headers = t.request_headers; stores = later_stores s.stores })
Headed response key value s t =
    IsStored key value s.response_headers t.response_headers
    × (t ≡ record s { response_headers = t.response_headers; stores = later_stores s.stores })
Headed neither key value s t = t ≡ s

no_zero : (key : Bytes) → IsCString key → NoByte 0 key
no_zero [] c = tt
no_zero (b ∷ key) c = (ground (arith, c.0.0), no_zero key c.1)

headed :
    (side : Side) (key value : Bytes) (s : HeaderState)
    → IsCString key
    → HasKeys s.request_headers
    → HasKeys s.response_headers
    → Headed side key value s (put_header side key value s)
headed request key value s c hq hp = (set_pair-IsStored key value s.request_headers c hq, refl)
headed response key value s c hq hp = (set_pair-IsStored key value s.response_headers c hp, refl)
headed neither key value s c hq hp = refl

-- A line `> name:value` sets the header of that name among those of the request, and `< name:value` among those of the response,
-- to the value less the blanks in front: the value of the first header with the same name is replaced, or the header is put
-- at the end if there is none. Nothing else changes, and the callback lets the reading go on. A line
-- `* name:value` changes nothing. Names and values hold no zero byte, the name no colon, the value starts with no blank, and
-- the strings can be stored.
pub header_line_callback-header :
    (key value : Bytes) (blanks : ℕ) (s : HeaderState) (side : Side)
    → IsCString key
    → NoByte b':' key
    → StartsWithout b' ' value
    → NoByte 0 value
    → HasKeys s.request_headers
    → HasKeys s.response_headers
    → first_store s.stores ≡ true
    → (t : HeaderState) × (header_line_callback (header_line side key blanks value) s ≡ (false, t))
      × Headed side key value s t
header_line_callback-header key value blanks s side c nk nv zv hq hp ok = (
  put_header side key value s,
  header-put key value blanks s side nk (no_zero key c) nv zv ok,
  headed side key value s c hq hp,
)
