-- ===== src/Fifo/Ops.antt =====
-- Creation, and the functions at either end of the queue. `fresh` is what the allocator returns.
use nlutils.Prelude.{ℕ, suc, zero, ◌||◌, none, some, ◌==◌, if◌then◌else◌}
use nlutils.Prelude.Int.{ℤ, negsuc}
use nlutils.Fifo.Store.{
  Ptr, null, ok, out_of_fuel, Cmd, pure, ◌>>=◌, ◌>>◌, load_fifo, store_fifo, set_fifos, set_elems,
  load, set_next, free, inc, dec, to_int,
}

unfoldable pub nl_fifo_create : (fresh : Ptr) → Cmd Ptr
nl_fifo_create fresh = if fresh == null then pure null else λ s.
    ok fresh (set_fifos fresh (some (record { first = null; last = null; count = 0 })) s)

-- `while(cur != NULL)`
unfoldable pub destroy_loop : ℕ → Ptr → Cmd (Unit {0})
destroy_loop zero cur = λ _. out_of_fuel
destroy_loop (suc fuel) cur =
    if cur == null then pure tt else do e ← load cur; free cur; destroy_loop fuel e.next

unfoldable pub nl_fifo_destroy : Ptr → Cmd (Unit {0})
nl_fifo_destroy l =
    if l == null
    then pure tt
    else do f ← load_fifo l; destroy_loop (suc f.count) f.first; λ s. ok tt (set_fifos l none s)

unfoldable pub nl_fifo_allocate_new_element : (fresh l item : Ptr) → Cmd Ptr
nl_fifo_allocate_new_element fresh l item =
    if l == null || item == null then pure null else if fresh == null then pure null else λ s.
    ok fresh (set_elems fresh (some (record { next = null; item = item; owner = l })) s)

-- `l->count++; return l->count;`
unfoldable pub count_up : Ptr → Cmd ℤ
count_up l = do
  f ← load_fifo l
  store_fifo l (record f { count = inc f.count })
  pure (to_int (inc f.count))

unfoldable pub nl_fifo_put : (fresh l item : Ptr) → Cmd ℤ
nl_fifo_put fresh l item = do
  e ← nl_fifo_allocate_new_element fresh l item
  if e == null then pure (negsuc 0) else do
    f ← load_fifo l
    if f.count == 0
        then store_fifo l (record f { first = e; last = e })
        else set_next f.last e >> store_fifo l (record f { last = e })
    count_up l

unfoldable pub nl_fifo_prepend : (fresh l item : Ptr) → Cmd ℤ
nl_fifo_prepend fresh l item = do
  e ← nl_fifo_allocate_new_element fresh l item
  if e == null then pure (negsuc 0) else do
    f ← load_fifo l
    if f.count == 0
        then store_fifo l (record f { first = e; last = e })
        else set_next e f.first >> store_fifo l (record f { first = e })
    count_up l

unfoldable pub nl_fifo_get : Ptr → Cmd Ptr
nl_fifo_get l = if l == null then pure null else do
  f ← load_fifo l
  if f.count == 0 then pure null else do
    e ← load f.first
    free f.first
    store_fifo l (record {
      first = e.next;
      last = if e.next == null then null else f.last;
      count = dec f.count;
    })
    pure e.item

unfoldable pub nl_fifo_peek : Ptr → Cmd Ptr
nl_fifo_peek l =
    if l == null
    then pure null
    else do f ← load_fifo l; if f.count == 0 then pure null else do e ← load f.first; pure e.item

unfoldable pub nl_fifo_peek_last : Ptr → Cmd Ptr
nl_fifo_peek_last l =
    if l == null
    then pure null
    else do f ← load_fifo l; if f.count == 0 then pure null else do e ← load f.last; pure e.item
