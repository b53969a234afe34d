-- ===== src/Hash/Ops.antt =====
-- The functions of src/hash.c. `none` as a string is NULL; the result of a function that returns 0 or -1
-- is `true` or `false`.
use nlutils.Prelude.{
  ℕ, zero, suc, Bool, true, false, not, ◌||◌, Option, none, some, List, [], ◌∷◌, ◌==◌,
  if◌then◌else◌,
}
use nlutils.Prelude.Int.{ℤ, pos, negsuc}
use nlutils.Ctype.{Bytes}
use nlutils.Str.Compare.{strcmp}
use nlutils.Fifo.Store.{Ptr, null, Fifo}
use nlutils.Fifo.Walk.{Iter, start, nl_fifo_next, nl_fifo_remove}
use nlutils.Fifo.Ops.{nl_fifo_create, nl_fifo_put, nl_fifo_get, nl_fifo_destroy}
use nlutils.Hash.World.{
  unfinished, Action, give, ◌>>=◌, ◌>>◌, on_fifos, load_hash, set_hash, load_entry, set_entry,
  count_inc, count_dec,
}

-- `!strcmp(a, b)`
unfoldable pub same_key : Bytes → Bytes → Bool
same_key a b = elim (strcmp a b) [ pos n ↦ n == 0 | negsuc n ↦ false ]

abbrev pub moved : Iter → Option Iter → Iter
moved i none = i
moved i (some j) = j

-- `nl_fifo_next(hash->table, &iter)`
unfoldable pub next_entry : Ptr → Iter → Action (Ptr × Iter)
next_entry table iter = do
  (entry, iter') ← on_fifos (nl_fifo_next table (some iter))
  give (entry, moved iter iter')

-- One more round than there are elements.
abbrev pub rounds_of : Option Fifo → ℕ
rounds_of none = 1
rounds_of (some f) = suc f.count

unfoldable pub find_loop : ℕ → (table : Ptr) → Bytes → Iter → Action Ptr
find_loop zero table key iter = λ _. unfinished
find_loop (suc fuel) table key iter = do
  (entry, iter') ← next_entry table iter
  if entry == null then give null else do
    e ← load_entry entry
    if same_key e.key key then give entry else find_loop fuel table key iter'

unfoldable pub nl_hash_find : Ptr → Bytes → Action Ptr
nl_hash_find hash key = do
  h ← load_hash hash
  λ w. find_loop (rounds_of (w.mem.fifos h.table)) h.table key start w

unfoldable pub nl_hash_get : Ptr → Option Bytes → Action (Option Bytes)
nl_hash_get hash none = give none
nl_hash_get hash (some key) = if hash == null then give none else do
  entry ← nl_hash_find hash key
  if entry == null then give none else do e ← load_entry entry; give (some e.value)

-- What the allocator gives to one call: an entry, its two strings, and a fifo's element.
pub record Alloc : Type 0 where
  pub entry : Ptr
  pub key_ok : Bool
  pub value_ok : Bool
  pub elem : Ptr

abbrev pub is_error : ℤ → Bool
is_error (pos n) = false
is_error (negsuc n) = true

-- The entry is stored when both strings are there.
unfoldable pub nl_hash_add : Alloc → Ptr → (key value : Bytes) → Action Bool
nl_hash_add a hash key value =
    if a.entry == null || not a.key_ok || not a.value_ok then give false else do
      set_entry a.entry (some (record { key = key; value = value }))
      h ← load_hash hash
      n ← on_fifos (nl_fifo_put a.elem h.table a.entry)
      if is_error n then set_entry a.entry none >> give false else do
        h ← load_hash hash
        set_hash hash (some (record h { count = count_inc h.count }))
        give true

unfoldable pub nl_hash_set : Alloc → Ptr → (key value : Option Bytes) → Action Bool
nl_hash_set a hash none value = give false
nl_hash_set a hash (some key) none = give false
nl_hash_set a hash (some key) (some value) = if hash == null then give false else do
  entry ← nl_hash_find hash key
  if entry == null then nl_hash_add a hash key value else do
    e ← load_entry entry
    if a.value_ok
        then set_entry entry (some (record e { value = value })) >> give true
        else give false

unfoldable pub nl_hash_destroy_entry : Ptr → Action (Unit {0})
nl_hash_destroy_entry entry = do load_entry entry; set_entry entry none

unfoldable pub nl_hash_remove : Ptr → Option Bytes → Action Bool
nl_hash_remove hash none = give false
nl_hash_remove hash (some key) = if hash == null then give false else do
  entry ← nl_hash_find hash key
  if entry == null then give true else do
    h ← load_hash hash
    removed ← on_fifos (nl_fifo_remove h.table entry)
    if not removed then give false else do
      nl_hash_destroy_entry entry
      h ← load_hash hash
      set_hash hash (some (record h { count = count_dec h.count }))
      give true

-- The callback acts on the memory and on a state of its own, and says whether to stop.
abbrev pub HashCallback : Type 0 → Type 0
HashCallback S = (key value : Bytes) → S → Action (Bool × S)

unfoldable pub iterate_loop :
    {S : Type 0} → ℕ → (table : Ptr) → HashCallback S → Iter → S → Action S
iterate_loop zero table cb iter s = λ _. unfinished
iterate_loop (suc fuel) table cb iter s = do
  (entry, iter') ← next_entry table iter
  if entry == null then give s else do
    e ← load_entry entry
    (stop, s') ← cb e.key e.value s
    if stop then give s' else iterate_loop fuel table cb iter' s'

unfoldable pub nl_hash_iterate : {S : Type 0} → Ptr → Option (HashCallback S) → S → Action S
nl_hash_iterate hash none s = give s
nl_hash_iterate hash (some cb) s = if hash == null then give s else do
  h ← load_hash hash
  λ w. iterate_loop (rounds_of (w.mem.fifos h.table)) h.table cb start s w

unfoldable pub nl_hash_create : (hash table : Ptr) → Action Ptr
nl_hash_create hash table = if hash == null then give null else do
  t ← on_fifos (nl_fifo_create table)
  if t == null
      then give null
      else set_hash hash (some (record { table = t; count = 0 })) >> give hash

-- `while((entry = nl_fifo_get(hash->table)))`
unfoldable pub clear_loop : ℕ → (table : Ptr) → Action (Unit {0})
clear_loop zero table = λ _. unfinished
clear_loop (suc fuel) table = do
  entry ← on_fifos (nl_fifo_get table)
  if entry == null then give tt else nl_hash_destroy_entry entry >> clear_loop fuel table

unfoldable pub nl_hash_clear : Ptr → Action (Unit {0})
nl_hash_clear hash = if hash == null then give tt else do
  h ← load_hash hash
  λ w. clear_loop (rounds_of (w.mem.fifos h.table)) h.table w
  set_hash hash (some (record h { count = 0 }))

unfoldable pub nl_hash_destroy : Ptr → Action (Unit {0})
nl_hash_destroy hash = if hash == null then give tt else do
  nl_hash_clear hash
  h ← load_hash hash
  on_fifos (nl_fifo_destroy h.table)
  set_hash hash none

-- The callback's state is what the allocator gives to its calls; without an answer a call fails. A
-- call that returns -1 stops the iteration.
unfoldable pub hash_clone_callback : (new_hash : Ptr) → HashCallback (List Alloc)
hash_clone_callback new_hash key value [] = give (true, [])
hash_clone_callback new_hash key value (a ∷ allocs) = do
  set ← nl_hash_set a new_hash (some key) (some value)
  give (not set, allocs)

unfoldable pub nl_hash_clone : (hash new_hash table : Ptr) → List Alloc → Action Ptr
nl_hash_clone hash new_hash table allocs = if hash == null then give null else do
  new ← nl_hash_create new_hash table
  if new == null then give null else do
    nl_hash_iterate hash (some (hash_clone_callback new)) allocs
    h ← load_hash hash
    n ← load_hash new
    if h.count == n.count then give new else nl_hash_destroy new >> give null
