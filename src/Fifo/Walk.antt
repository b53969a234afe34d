-- ===== src/Fifo/Walk.antt =====
-- Iteration, look-up by index, and removal of one element.
use nlutils.Prelude.{
  ℕ, suc, zero, ◌-◌, Bool, true, false, not, ◌||◌, Option, none, some, ◌==◌, ltb, if◌then◌else◌,
}
use nlutils.Prelude.Int.{ℤ, pos, negsuc}
use nlutils.Fifo.Store.{
  Ptr, null, out_of_fuel, Cmd, pure, ◌>>=◌, ◌>>◌, load_fifo, store_fifo, load, set_next, free, dec,
}

-- An iterator, `const struct nl_fifo_element *`: NULL, `nl_fifo_error` or an element.
pub data Iter : Type 0 where
  start : Iter
  error : Iter
  at : Ptr → Iter

-- `return *iter == NULL ? NULL : (*iter)->data;` with `*iter` set to `p`
unfoldable pub yield_at : Ptr → Cmd (Ptr × Iter)
yield_at p = if p == null then pure (null, start) else do e ← load p; pure (e.item, at p)

-- The part behind the checks of the parameters: the data and the new `*iter`.
unfoldable pub iter_next : Ptr → Iter → Cmd (Ptr × Iter)
unfolding yield_at
iter_next l error = pure (null, error)
iter_next l start = do
  f ← load_fifo l
  if f.count == 0 then pure (null, start) else yield_at f.first
iter_next l (at p) = do
  e ← load p
  if not (e.owner == l)
      then pure (null, error)
      else do f ← load_fifo l; if f.count == 0 then pure (null, at p) else yield_at e.next

-- `none` is a NULL `iter`.
unfoldable pub nl_fifo_next : Ptr → Option Iter → Cmd (Ptr × Option Iter)
nl_fifo_next l none = pure (null, none)
nl_fifo_next l (some iter) =
    if l == null
    then pure (null, some error)
    else do (item, iter') ← iter_next l iter; pure (item, some iter')

-- `for (i = 0; i < normalized_index; i++) nl_fifo_next(l, &iter);`
unfoldable pub skip_items : ℕ → Ptr → Iter → Cmd Iter
skip_items zero l iter = pure iter
skip_items (suc n) l iter = do (_, iter') ← iter_next l iter; skip_items n l iter'

unfoldable pub peek_from_start : ℕ → Ptr → Cmd Ptr
peek_from_start n l = do iter ← skip_items n l start; (item, _) ← iter_next l iter; pure item

-- A negative index counts from the end.
unfoldable pub normalize_index : ℤ → ℕ → Option ℕ
normalize_index (pos n) count = if ltb n count then some n else none
normalize_index (negsuc n) count = if ltb n count then some (count - suc n) else none

unfoldable pub nl_fifo_peek_index : Ptr → ℤ → Cmd Ptr
unfolding peek_from_start
nl_fifo_peek_index l index = if l == null then pure null else do
  f ← load_fifo l
  if f.count == 0
      then pure null
      else elim (normalize_index index f.count) [ none ↦ pure null | some n ↦ peek_from_start n l ]

-- `l->last`, `l->count` and `free(cur)`, with `cur` out of the links
unfoldable pub discard : (l prev cur : Ptr) → Cmd (Unit {0})
discard l prev cur = do
  f ← load_fifo l
  store_fifo l (record f { last = if f.last == cur then prev else f.last; count = dec f.count })
  free cur

-- The element `cur` behind `prev` is taken out and freed.
unfoldable pub unlink : (l prev cur next : Ptr) → Cmd (Unit {0})
unlink l prev cur next = do
  if prev == null
      then (do f ← load_fifo l; store_fifo l (record f { first = next }))
      else set_next prev next
  discard l prev cur

-- `while(cur != NULL)`; the result is whether the element was found.
unfoldable pub remove_loop : ℕ → (l item prev cur : Ptr) → Cmd Bool
remove_loop zero l item prev cur = λ _. out_of_fuel
remove_loop (suc fuel) l item prev cur = if cur == null then pure false else do
  e ← load cur
  if e.item == item
      then unlink l prev cur e.next >> pure true
      else remove_loop fuel l item cur e.next

-- 0 for `true`, -1 for `false`
unfoldable pub nl_fifo_remove : (l item : Ptr) → Cmd Bool
nl_fifo_remove l item = if l == null || item == null then pure false else do
  f ← load_fifo l
  if f.count == 0 then pure false else remove_loop (suc f.count) l item null f.first
