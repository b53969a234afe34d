-- ===== src/Thread/Examples.antt =====
-- Concrete runs of the functions on threads.
use nlutils.Prelude.{
  ℕ, ◌≤◌, ◌≡◌, ◌≢◌, ◌⊎◌, refl, arith, Option, none, some, [], ◌∷◌, ◌++◌, ◌==◌, if◌then◌else◌,
}
use nlutils.Prelude.Action.{done}
use nlutils.Fifo.Store.{Ptr, null}
use nlutils.Ctype.{codes}
use nlutils.Thread.System.{
  NlThread, NlThreadCtx, lock, unlock, mutex_destroy, System, mutex_lock, mutex_unlock, load_ctx,
  load_info, set_threads, free_info,
}
use nlutils.Thread.Ops.{
  nl_join_thread, nl_destroy_thread_context, nl_create_thread, start_thread, track_thread,
}
use nlutils.Thread.Chain.{Tracked, info_of, Threads, has, nil, cons, find, IsContext}
use nlutils.Thread.Join.{Joined, nl_join_thread-Joined}
use nlutils.Thread.Destroy.{Emptied, join_calls, nl_destroy_thread_context-Emptied}
use nlutils.Thread.Track.{with_answers, Created}
use nlutils.Thread.Create.{request, nl_create_thread-Created}
use nlutils.Thread.Timeout.{Answered, busy_tries, last_try}
use nlutils.Thread.Signal.{ebusy, nl_signal_threads}
use nlutils.Thread.Signals.{goes_on, signals_if, nl_signal_threads-signals}

abbrev worker : ℕ → Tracked
worker n = record { thread = n; name = codes "worker"; func = 7; arg = 0 }

abbrev two_threads : Threads
two_threads = (20, worker 200) ∷ (10, worker 100) ∷ []

abbrev the_context : NlThreadCtx
the_context = record { main_thread = 1; threads = 20; held = 0 }

abbrev info_at : Ptr → Option NlThread
info_at p =
    if p == 20
    then some (info_of 5 (worker 200) 10)
    else if p == 10
    then some (info_of 5 (worker 100) null)
    else none

abbrev running : System
running = record {
  ctxs = λ p. if p == 5 then some the_context else none;
  infos = info_at;
  self = 200;
  names = λ t. [];
  answers = 16 ∷ 0 ∷ [];
  trace = [];
}

two_threads-IsContext : IsContext running 5 two_threads
unfolding has
two_threads-IsContext = record {
  ctx = the_context;
  ne_null = omega arith;
  at = refl;
  chain = cons (omega arith) refl refl (cons (omega arith) refl refl nil);
}

-- The thread that is not the first of the list.
nl_join_thread-Joined_example :
    (s' : System) × (nl_join_thread 3 10 running ≡ done 0 s')
    × Joined running s' 5 10 (worker 100) the_context two_threads
unfolding find two_threads-IsContext
nl_join_thread-Joined_example =
    nl_join_thread-Joined running 5 10 (worker 100) two_threads two_threads-IsContext 3 refl
      (omega arith)

nl_destroy_thread_context-Emptied_example :
    (s' : System) × (nl_destroy_thread_context 3 5 running ≡ done tt s')
    × (s'.ctxs 5 ≡ none)
    × Emptied running s' 5 two_threads
        (lock 5 ∷ join_calls 5 two_threads ++ unlock 5 ∷ mutex_destroy 5 ∷ [])
nl_destroy_thread_context-Emptied_example =
    nl_destroy_thread_context-Emptied running 5 two_threads 3 two_threads-IsContext (omega arith)

nl_create_thread-Created_example :
    (s' : System) × (nl_create_thread 5 7 0
        (some (codes "a long name of a thread"))
        (with_answers running (0 ∷ 30 ∷ 0 ∷ 300 ∷ 0 ∷ []))
      ≡ done (0, some 30) s')
    × Created running s' 5
        (30, request 7 0 (some (codes "a long name of a thread")) 300)
        two_threads
        0
nl_create_thread-Created_example =
    nl_create_thread-Created running 5 two_threads 7 0 (some (codes "a long name of a thread")) 0 30
      0 300 0 [] two_threads-IsContext (omega arith) refl λ e. absurd (omega arith)

nl_signal_threads-signals_example :
    (ret : ℕ) × (n : ℕ) × (s' : System) × (nl_signal_threads 3 5 10 running ≡ done tt s')
    × IsContext s' 5 two_threads
    × (s'.infos ≡ running.infos)
    × Answered running.answers n ret
    × (n ≤ 250)
    × ((ret ≢ ebusy) ⊎ (n ≡ 250))
    × (s'.trace
        ≡ [] ++ busy_tries 5 n ++ last_try 5 ret ++ signals_if (goes_on ret) 5 200 10 two_threads)
nl_signal_threads-signals_example =
    nl_signal_threads-signals running 5 two_threads 10 3 two_threads-IsContext (omega arith)

-- A thread that cannot be kept in the list is cancelled and freed, but its address is in `*info`.
dangling :
    (s' : System) × (nl_create_thread 5 7 0 none (with_answers running (0 ∷ 30 ∷ 0 ∷ 300 ∷ 1 ∷ []))
      ≡ done (1, some 30) s')
    × (s'.infos 30 ≡ none)
unfolding nl_create_thread start_thread track_thread mutex_lock mutex_unlock load_ctx load_info
    set_threads free_info
dangling = (_, refl, refl)
