-- ===== src/Thread/Ops.antt =====
-- The functions of src/thread.c that keep the list of threads of a context.
use nlutils.Prelude.{
  ℕ, zero, suc, Bool, true, false, not, ◌||◌, Option, none, some, ◌==◌, if◌then◌else◌, take, [],
}
use nlutils.Prelude.Action.{Action, give, diverge, ◌>>=◌, ◌>>◌}
use nlutils.Ctype.{Bytes}
use nlutils.Fifo.Store.{Ptr, null}
use nlutils.Thread.System.{
  create, join, cancel, mutex_destroy, System, ask, emit, load_ctx, load_info, put_info,
  set_threads, set_next, free_info, free_ctx, mutex_lock, mutex_unlock, call,
}

abbrev pub efault : ℕ
efault = 14

abbrev pub einval : ℕ
einval = 22

-- `snprintf(buf, 16, "%s", name)`
abbrev pub short_name : Bytes → Bytes
short_name = take 15

abbrev pub short_name_or_empty : Option Bytes → Bytes
short_name_or_empty none = []
short_name_or_empty (some n) = short_name n

-- The loop that finds `info` in the list of `ctx` and unlinks it; whether it was there.
unfoldable pub unlink_loop : ℕ → (ctx info prev cur : Ptr) → Action System Bool
unlink_loop zero ctx info prev cur = diverge
unlink_loop (suc fuel) ctx info prev cur = if cur == null then give false else do
  x ← load_info cur
  if cur == info
      then (do (if prev == null then set_threads ctx x.next else set_next prev x.next); give true)
      else unlink_loop fuel ctx info cur x.next

-- `fuel` bounds the rounds over the list.
unfoldable pub nl_join_thread : (fuel : ℕ) → Ptr → Action System ℕ
nl_join_thread fuel info = if info == null then give einval else do
  x ← load_info info
  mutex_lock x.ctx
  c ← load_ctx x.ctx
  unlink_loop fuel x.ctx info null c.threads
  mutex_unlock x.ctx
  x ← load_info info
  ret ← call (join x.thread)
  free_info info
  give ret

unfoldable pub join_all : ℕ → (ctx : Ptr) → Action System (Unit {0})
join_all zero ctx = diverge
join_all (suc fuel) ctx = do
  c ← load_ctx ctx
  if c.threads == null
      then give tt
      else do load_info c.threads; nl_join_thread (suc fuel) c.threads; join_all fuel ctx

unfoldable pub nl_destroy_thread_context : (fuel : ℕ) → Ptr → Action System (Unit {0})
nl_destroy_thread_context fuel ctx = if ctx == null then give tt else do
  mutex_lock ctx
  join_all fuel ctx
  mutex_unlock ctx
  call (mutex_destroy ctx)
  free_ctx ctx

-- The new thread's structure is linked in and the lock released; if that fails, the thread is cancelled.
unfoldable pub track_thread : (ctx thread handle : Ptr) → Action System (ℕ × Option Ptr)
track_thread ctx thread handle = do
  emit (create handle)
  c ← load_ctx ctx
  x ← load_info thread
  put_info thread (some (record x { thread = handle; next = c.threads }))
  set_threads ctx thread
  ret ← mutex_unlock ctx
  if ret == 0 then give (0, some thread) else do
    x ← load_info thread
    call (cancel x.thread)
    set_threads ctx x.next
    free_info thread
    give (ret, some thread)

-- The lock is held. The allocator answers with an address, and with `errno` if that is NULL;
-- `pthread_create` answers with its result and, if that is 0, the new thread's handle.
unfoldable pub start_thread :
    (ctx func arg : Ptr) (name : Option Bytes) → Action System (ℕ × Option Ptr)
start_thread ctx func arg name = do
  thread ← ask
  if thread == null then (do ret ← ask; mutex_unlock ctx; give (ret, none)) else do
    put_info thread (
        some (record {
          ctx = ctx;
          thread = 0;
          name = short_name_or_empty name;
          func = func;
          arg = arg;
          next = null;
        }))
    ret ← ask
    if not (ret == 0)
        then (do free_info thread; mutex_unlock ctx; give (ret, none))
        else do handle ← ask; track_thread ctx thread handle

-- The result, and what is stored in `*info`.
unfoldable pub nl_create_thread :
    (ctx func arg : Ptr) (name : Option Bytes) → Action System (ℕ × Option Ptr)
nl_create_thread ctx func arg name = if ctx == null || func == null then give (einval, none) else do
  ret ← mutex_lock ctx
  if not (ret == 0) then give (ret, none) else start_thread ctx func arg name
