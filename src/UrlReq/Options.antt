-- ===== src/UrlReq/Options.antt =====
-- How src/url_req.c writes options for curl. Every allocation and every write has an answer, which is 0
-- if it succeeds.
use nlutils.Prelude.{
  ℕ, ◌+◌, ◌-◌, ◌/◌, ◌%◌, ◌≡◌, refl, ◌∙◌, ap, Bool, true, false, not, Option, none, some, List, [],
  ◌∷◌, ◌++◌, if◌then◌else◌, length, replicate, append_assoc, append-nil,
}
use nlutils.Prelude.Action.{Action, done, give, modify, ◌>>=◌, ◌>>◌}
use nlutils.Prelude.Int.{pos}
use nlutils.Ctype.{Bytes, codes, IsCString}
use nlutils.Ctype.Signed.{decimal}
use nlutils.Escape.String.{nl_escape_string, nl_count_escapes}
use nlutils.Escape.Unescape.{nl_unescape_string, dequote}
use nlutils.Escape.RoundTrip.{escaped, nl_escape_string-escaped, unescape-quoted}
use nlutils.Url.Encode.{nl_url_encode}
use nlutils.UrlReq.Headers.{is_zero}
use nlutils.UrlReq.State.{Pairs, close, Loop, ask, emit}

-- `write`, with all of its bytes or a failure.
unfoldable pub write : Bytes → Action Loop Bool
write b = do
  ret ← ask
  if is_zero ret then modify (λ s. record s { sent = s.sent ++ b }) >> give true else give false

-- A duplicate, escaped if the flag says so; `none` if there is no memory.
unfoldable pub duplicate : (escape : Bool) → Bytes → Action Loop (Option Bytes)
duplicate escape str = do
  ret ← ask
  give (
      if not (is_zero ret)
      then none
      else if escape
      then (nl_escape_string true true (some str) (some (length str + 1))).1
      else some str)

abbrev pub write_duplicate : Option Bytes → Action Loop Bool
write_duplicate none = give false
write_duplicate (some b) = write b

-- The flags and values of the variable arguments up to NULL.
abbrev pub Parts : Type 0
Parts = List (Bool × Bytes)

unfoldable pub write_parts : Parts → Action Loop Bool
write_parts [] = give true
write_parts ((escape, value) ∷ parts) = do
  d ← duplicate escape value
  ok ← write_duplicate d
  if ok then write_parts parts else give false

-- Whether the option is written.
unfoldable pub write_option : (key : Bytes) → Parts → Action Loop Bool
write_option key parts = do
  d ← duplicate true key
  ok ← write_duplicate d
  if not ok then give false else do
    ok ← write (codes "=" ++ b'"' ∷ [])
    if not ok
        then give false
        else do ok ← write_parts parts; if not ok then give false else write (b'"' ∷ 10 ∷ [])

-- `%d.%03d` of a time in milliseconds that is not negative.
unfoldable pub seconds_text : (milliseconds : ℕ) → Bytes
seconds_text ms =
    decimal (ms / 1000)
    ++ b'.' ∷ []
    ++ replicate (3 - length (decimal (ms % 1000))) b'0'
    ++ decimal (ms % 1000)

unfoldable pub write_time_option : (key : Bytes) → (milliseconds : ℕ) → Action Loop Bool
write_time_option key ms = write_option key ((false, seconds_text ms) ∷ [])

-- The callback closes the file if it fails; whether it succeeds.
unfoldable pub header_hash_callback : (writefd : ℕ) → (key value : Bytes) → Action Loop Bool
header_hash_callback writefd key value = do
  ok ← write_option (codes "header") ((true, key) ∷ (false, codes ": ") ∷ (true, value) ∷ [])
  if ok then give true else emit (close writefd) >> give false

-- The text of a parameter: it is URL-encoded unless `raw` is set.
abbrev pub form_text : (raw : Bool) → Bytes → Action Loop (Option Bytes)
form_text true s = give (some s)
form_text false s = do ret ← ask; give (nl_url_encode (is_zero ret) (some s) true false)

abbrev pub write_form : (formopt : Bytes) → (key value : Option Bytes) → Action Loop Bool
write_form formopt none value = give false
write_form formopt (some key) none = give false
write_form formopt (some key) (some value) =
    write_option formopt ((true, key) ∷ (false, codes "=") ∷ (true, value) ∷ [])

-- The value is looked at only if there is a key.
abbrev pub value_text : Option Bytes → (raw : Bool) → Bytes → Action Loop (Option Bytes)
value_text none raw value = give none
value_text (some key) raw value = form_text raw value

unfoldable pub form_hash_callback :
    (writefd : ℕ) (formopt : Bytes) (raw : Bool) (key value : Bytes) → Action Loop Bool
form_hash_callback writefd formopt raw key value = do
  k ← form_text raw key
  v ← value_text k raw value
  ok ← write_form formopt k v
  if ok then give true else emit (close writefd) >> give false

-- `nl_hash_iterate` with a callback that stops it when it fails; whether no call failed.
unfoldable pub iterate_pairs : (Bytes → Bytes → Action Loop Bool) → Pairs → Action Loop Bool
iterate_pairs cb [] = give true
iterate_pairs cb ((key, value) ∷ pairs) = do
  ok ← cb key value
  if ok then iterate_pairs cb pairs else give false

-- The text of an option whose key and marked values are escaped.
unfoldable pub part_text : Bool × Bytes → Bytes
part_text (true, value) = escaped value
part_text (false, value) = value

unfoldable pub parts_text : Parts → Bytes
parts_text [] = []
parts_text (p ∷ parts) = part_text p ++ parts_text parts

unfoldable pub option_text : (key : Bytes) → Parts → Bytes
option_text key parts = escaped key ++ (b'=' ∷ b'"' ∷ parts_text parts ++ b'"' ∷ 10 ∷ [])

-- A run in which nothing fails.
abbrev pub quiet : Loop → Loop
quiet s = record s { answers = [] }

abbrev pub sending : Bytes → Loop → Loop
sending b s = record s { answers = []; sent = s.sent ++ b }

duplicate-quiet :
    (escape : Bool) (str : Bytes) (s : Loop)
    → duplicate escape str (quiet s) ≡ done (some (part_text (escape, str))) (quiet s)
unfolding duplicate part_text
duplicate-quiet true str s = rw (nl_escape_string-escaped str (length str + 1)) refl
duplicate-quiet false str s = refl

write_parts-quiet :
    (parts : Parts) (s : Loop)
    → write_parts parts (quiet s) ≡ done true (sending (parts_text parts) s)
unfolding write_parts parts_text write
write_parts-quiet [] s = rw append-nil refl
write_parts-quiet ((escape, value) ∷ parts) s =
    rw
      (
        duplicate-quiet escape value s,
        write_parts-quiet parts (sending (part_text (escape, value)) s),
        append_assoc,
      )
      refl

pub write_option-quiet :
    (key : Bytes) (parts : Parts) (s : Loop)
    → write_option key parts (quiet s) ≡ done true (sending (option_text key parts) s)
unfolding write_option option_text write part_text
write_option-quiet key parts s =
    let s1 = sending (escaped key ++ (b'=' ∷ b'"' ∷ [])) s in
    rw (duplicate-quiet true key s, append_assoc, write_parts-quiet parts s1) (simp append_assoc)

one_part :
    (key value : Bytes)
    → option_text key ((true, value) ∷ [])
      ≡ escaped key ++ b'=' ∷ (b'"' ∷ escaped value ++ b'"' ∷ []) ++ 10 ∷ []
unfolding option_text parts_text part_text
one_part key value = simp (append_assoc, append-nil)

-- An option with one escaped value is the escaped key, `=`, and the value between quotation marks, which
-- `nl_unescape_string` reads back, then the end of the line. Nothing fails, and the value is a C string.
pub write_option-unescape :
    (key value : Bytes) (s : Loop)
    → IsCString value
    → (line : Bytes) × (write_option key ((true, value) ∷ []) (quiet s)
        ≡ done true (sending (escaped key ++ b'=' ∷ line ++ 10 ∷ []) s))
      × (nl_unescape_string (some line) true dequote
          ≡ (pos (nl_count_escapes value + 2), some value))
write_option-unescape key value s v = (
  b'"' ∷ escaped value ++ b'"' ∷ [],
  write_option-quiet key ((true, value) ∷ []) s
      ∙ ap (λ t. done true (sending t s)) (one_part key value),
  unescape-quoted value true dequote v (λ e. cc),
)
