-- ===== src/Fifo/Bulk.antt =====
-- Removal of many elements, and concatenation. A callback is called for its effects outside of the
-- store: the items that it gets are listed in the order of the calls (`has_cb` says that it is not NULL).
use nlutils.Prelude.{
  ℕ, suc, zero, ◌+◌, ◌-◌, ◌%◌, Bool, false, ◌||◌, List, [], ◌∷◌, ◌++◌, ◌==◌, leb, if◌then◌else◌,
}
use nlutils.Fifo.Store.{
  Ptr, null, out_of_fuel, Cmd, pure, abort, ◌>>=◌, ◌>>◌, load_fifo, store_fifo, load, store,
  set_next, free, dec, u32_mod,
}

-- `for (i = 0; i < count && cur != NULL; i++)`: the calls made, and `cur` afterwards.
unfoldable pub remove_items : ℕ → (l cur : Ptr) → (has_cb : Bool) → List Ptr → Cmd (List Ptr × Ptr)
remove_items zero l cur has_cb calls = pure (calls, cur)
remove_items (suc n) l cur has_cb calls = if cur == null then pure (calls, cur) else do
  e ← load cur
  free cur
  f ← load_fifo l
  store_fifo l (record f { count = dec f.count })
  remove_items n l e.next has_cb (if has_cb then calls ++ e.item ∷ [] else calls)

-- The calls made, and the return value.
unfoldable pub nl_fifo_remove_start : Ptr → ℕ → (has_cb : Bool) → Cmd (List Ptr × ℕ)
unfolding remove_items
nl_fifo_remove_start l count has_cb = if l == null then pure ([], 0) else do
  f ← load_fifo l
  (calls, cur) ← remove_items count l f.first has_cb []
  f ← load_fifo l
  store_fifo l (record f { first = cur; last = if cur == null then null else f.last })
  pure (calls, f.count)

unfoldable pub nl_fifo_clear_cb : Ptr → (has_cb : Bool) → Cmd (List Ptr)
nl_fifo_clear_cb l has_cb =
    if l == null
    then pure []
    else do f ← load_fifo l; (calls, _) ← nl_fifo_remove_start l f.count has_cb; pure calls

unfoldable pub nl_fifo_clear : Ptr → Cmd (List Ptr)
nl_fifo_clear l = nl_fifo_clear_cb l false

-- `for (i = 0; i < start_offset; i++) { prev = cur; cur = cur->next; }`
unfoldable pub walk : ℕ → (prev cur : Ptr) → Cmd (Ptr × Ptr)
walk zero prev cur = pure (prev, cur)
walk (suc n) prev cur = do e ← load cur; walk n cur e.next

unfoldable pub nl_fifo_remove_end : Ptr → ℕ → (has_cb : Bool) → Cmd (List Ptr × ℕ)
unfolding remove_items walk
nl_fifo_remove_end l count has_cb = if l == null then pure ([], 0) else do
  f ← load_fifo l
  if leb f.count count then (do calls ← nl_fifo_clear_cb l has_cb; pure (calls, 0)) else do
    (prev, cur) ← walk (f.count - count) null f.first
    if prev == null then abort else do
      (calls, _) ← remove_items count l cur has_cb []
      f ← load_fifo l
      store_fifo l (record f { last = prev })
      set_next prev null
      pure (calls, f.count)

-- `while (cur != NULL) { cur->l = dest; cur = cur->next; }`
unfoldable pub set_owner : ℕ → (dest cur : Ptr) → Cmd (Unit {0})
set_owner zero dest cur = λ _. out_of_fuel
set_owner (suc fuel) dest cur =
    if cur == null
    then pure tt
    else do e ← load cur; store cur (record e { owner = dest }); set_owner fuel dest e.next

-- `return dest ? dest->count : 0;`
unfoldable pub dest_count : Ptr → Cmd ℕ
dest_count dest = if dest == null then pure 0 else do d ← load_fifo dest; pure d.count

-- `dest->count += src->count; src->count = 0; return dest->count;`
unfoldable pub move_count : (src dest : Ptr) → Cmd ℕ
unfolding dest_count
move_count src dest = do
  f ← load_fifo src
  d ← load_fifo dest
  store_fifo dest (record d { count = (d.count + f.count) % u32_mod })
  f ← load_fifo src
  store_fifo src (record f { count = 0 })
  dest_count dest

unfoldable pub nl_fifo_concat_start : (src dest : Ptr) → Cmd ℕ
unfolding set_owner move_count
nl_fifo_concat_start src dest = if src == null || dest == null then dest_count dest else do
  f ← load_fifo src
  store_fifo src (record f { first = null; last = null })
  set_owner (suc f.count) dest f.first
  c ← load_fifo src
  if c.count == 0 then pure tt else do
    d ← load_fifo dest
    set_next f.last d.first
    store_fifo dest (record d { first = f.first; last = if d.count == 0 then f.last else d.last })
  move_count src dest

unfoldable pub nl_fifo_concat_end : (src dest : Ptr) → Cmd ℕ
unfolding set_owner move_count
nl_fifo_concat_end src dest = if src == null || dest == null then dest_count dest else do
  f ← load_fifo src
  store_fifo src (record f { first = null; last = null })
  set_owner (suc f.count) dest f.first
  c ← load_fifo src
  if c.count == 0 then pure tt else do
    d ← load_fifo dest
    if d.last == null
        then store_fifo dest (record d { first = f.first; last = f.last })
        else set_next d.last f.first >> store_fifo dest (record d { last = f.last })
  move_count src dest
