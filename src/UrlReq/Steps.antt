-- ===== src/UrlReq/Steps.antt =====
-- The steps of `start_curl` of src/url_req.c: a curl process is started, and its options, headers and body are written.
use nlutils.Prelude.{
  ℕ, zero, suc, ◌+◌, ◌/◌, Bool, true, false, not, Option, none, some, [], ◌∷◌, ◌==◌, if◌then◌else◌,
  ltb,
}
use nlutils.Prelude.Action.{Action, give, ◌>>=◌, ◌>>◌}
use nlutils.Prelude.Int.{ℤ, pos, negsuc}
use nlutils.Ctype.{Bytes, codes}
use nlutils.Ctype.Signed.{decimal}
use nlutils.Fifo.Store.{Ptr}
use nlutils.UrlReq.Headers.{is_zero}
use nlutils.UrlReq.State.{
  Pairs, close, mkdir, mkfifo, unlink, rmdir, body, Loop, ask, emit, load_req, put_req,
}
use nlutils.UrlReq.Options.{
  write_option, write_time_option, header_hash_callback, form_hash_callback, iterate_pairs,
}

-- The local variables that the error path looks at.
pub record Locals : Type 0 where
  pub writefd : Option ℕ
  pub bodyfd : Option ℕ
  pub opt_fifo : Bool
  pub temp_dir : Bool

abbrev pub start_locals : Locals
start_locals = record { writefd = none; bodyfd = none; opt_fifo = false; temp_dir = false }

-- A step ends in the error path with the variables as they are, or goes on.
pub data Progress : Type 0 where
  failed : Locals → Progress
  going : Locals → Progress

abbrev pub Steps : Type 0
Steps = Action Loop Progress

abbrev pub after : Progress → (Locals → Steps) → Steps
after (failed l) k = give (failed l)
after (going l) k = k l

infixl 5 ◌then_step◌
abbrev pub ◌then_step◌ : Steps → (Locals → Steps) → Steps
m then_step k = m >>= λ p. after p k

-- A call that returns 0 if it succeeds.
abbrev pub check : ℤ → Locals → Steps
check ret l = give (if is_zero ret then going l else failed l)

abbrev pub check_ok : Bool → Locals → Steps
check_ok ok l = give (if ok then going l else failed l)

-- `temp_fifo`: two allocations, the directory, and the fifo in it. The directory is removed when it could not be made.
unfoldable pub temp_fifo : Action Loop Bool
temp_fifo = do
  dir_name ← ask
  if not (is_zero dir_name) then give false else do
    fifo_name ← ask
    if not (is_zero fifo_name) then give false else do
      made_dir ← ask
      if not (is_zero made_dir) then emit rmdir >> give false else do
        emit mkdir
        made_fifo ← ask
        if not (is_zero made_fifo) then give false else emit mkfifo >> give true

unfoldable pub make_fifo : Locals → Steps
make_fifo l = do
  ok ← temp_fifo
  give (if ok then going (record l { opt_fifo = true; temp_dir = true }) else failed l)

abbrev pub natural : ℤ → ℕ
natural (pos n) = n
natural (negsuc n) = 0

-- `nl_popen3vec`: the process, and the files of its input, output and errors.
unfoldable pub run_curl : Ptr → Locals → Steps
run_curl p l = do
  pid ← ask
  if natural pid == 0 then give (failed l) else do
    bodyfd ← ask
    readfd ← ask
    errfd ← ask
    r ← load_req p
    put_req p (
        some (record r {
          pid = natural pid;
          readfd = some (natural readfd);
          errfd = some (natural errfd);
        }))
    give (going (record l { bodyfd = some (natural bodyfd) }))

unfoldable pub open_fifo : Locals → Steps
open_fifo l = do
  fd ← ask
  give (elim fd [ pos n ↦ going (record l { writefd = some n }) | negsuc n ↦ failed l ])

abbrev pub or_default : ℤ → ℕ
or_default (pos zero) = 30000
or_default (pos (suc n)) = suc n
or_default (negsuc n) = 30000

abbrev pub at_least : (low n : ℕ) → ℕ
at_least low n = if ltb n low then low else n

unfoldable pub send_times : Ptr → Locals → Steps
send_times p l = do
  r ← load_req p
  ok ← write_time_option (codes "connect-timeout") (or_default r.params.connect_timeout)
  if not ok then give (failed l) else do
    ok ← write_time_option (codes "max-time") (or_default r.params.request_timeout)
    if not ok then give (failed l) else do
      put_req p (
          some (record r {
            read_timeout = pos (at_least 5 ((or_default r.params.request_timeout + 1999) / 1000));
          }))
      give (going l)

-- A callback that failed has closed the file.
abbrev pub closed_unless : Bool → Locals → Progress
closed_unless true l = going l
closed_unless false l = failed (record l { writefd = none })

abbrev pub fd_of : Option ℕ → ℕ
fd_of none = 0
fd_of (some fd) = fd

-- `NL_MULTIPART` is 2.
abbrev pub is_multipart : ℤ → Bool
is_multipart (pos n) = n == 2
is_multipart (negsuc n) = false

abbrev pub form_option : (multipart : Bool) → Bytes
form_option true = codes "form"
form_option false = codes "data-binary"

unfoldable pub send_pairs : (form_type : ℤ) → Pairs → Locals → Steps
send_pairs form_type pairs l = do
  ok ←
      iterate_pairs
        (form_hash_callback (fd_of l.writefd) (form_option (is_multipart form_type))
          (is_multipart form_type))
        pairs
  give (closed_unless ok l)

unfoldable pub send_form : (form_type : ℤ) → Option Pairs → Locals → Steps
send_form form_type none l = give (going l)
send_form form_type (some pairs) l =
    if is_zero form_type
    then (write_option (codes "get") [] >>= λ ok. check_ok ok l)
      then_step send_pairs form_type pairs
    else send_pairs form_type pairs l

unfoldable pub send_headers : Option Pairs → Locals → Steps
send_headers none l = give (going l)
send_headers (some pairs) l = do
  ok ← iterate_pairs (header_hash_callback (fd_of l.writefd)) pairs
  give (closed_unless ok l)

-- The length of a body, and that there is one.
unfoldable pub announce_body : (has_body : Bool) → (size : ℕ) → Locals → Steps
announce_body false size l = give (going l)
announce_body true size l = do
  ok ← header_hash_callback (fd_of l.writefd) (codes "Content-Length") (decimal size)
  if not ok
      then give (failed (record l { writefd = none }))
      else if size == 0
      then give (going l)
      else write_option (codes "upload-file") ((false, codes "-") ∷ []) >>= λ ok. check_ok ok l

unfoldable pub close_options : Locals → Steps
close_options l = do
  emit (close (fd_of l.writefd))
  ret ← ask
  give (if is_zero ret then going (record l { writefd = none }) else failed l)

unfoldable pub send_body : Option Bytes → Locals → Steps
send_body none l = give (going l)
send_body (some b) l = do emit (body b); ret ← ask; check ret l

unfoldable pub close_body : Locals → Steps
close_body l = do
  emit (close (fd_of l.bodyfd))
  ret ← ask
  give (if is_zero ret then going (record l { bodyfd = none }) else failed l)

-- Errors of these two are only logged.
unfoldable pub remove_fifo : Locals → Steps
remove_fifo l = do
  emit unlink
  emit rmdir
  give (going (record l { opt_fifo = false; temp_dir = false }))

-- The buffers of libevent, and the two hashes.
unfoldable pub connect_output : Ptr → Locals → Steps
connect_output p l = do
  ret ← ask
  if not (is_zero ret) then give (failed l) else do
    r ← load_req p
    put_req p (some (record r { outbuf = some [] }))
    ret ← ask
    if not (is_zero ret) then give (failed l) else do
      r ← load_req p
      put_req p (some (record r { errbuf = some [] }))
      ret ← ask
      if not (is_zero ret) then give (failed l) else do ret ← ask; check ret l
