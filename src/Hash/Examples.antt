-- ===== src/Hash/Examples.antt =====
-- A run of the functions of src/hash.c: two keys are set, one is set again, and one is removed.
use nlutils.Prelude.{true, Option, some, none, [], ◌∷◌, ◌≡◌, refl, ◌==◌, if◌then◌else◌, arith}
use nlutils.Ctype.{Bytes, codes}
use nlutils.Fifo.Store.{Ptr, null, Store, Fifo}
use nlutils.Fifo.Segment.{element, nil, cons}
use nlutils.Hash.World.{
  HashEntry, Hash, World, Action, Outcome, done, faulted, unfinished, give, ◌>>=◌, ◌>>◌,
}
use nlutils.Hash.Ops.{
  Alloc, nl_hash_create, nl_hash_set, nl_hash_get, nl_hash_remove, nl_hash_clone, nl_hash_clear,
  nl_hash_destroy,
}
use nlutils.Hash.Find.{IsHash, Entries, IsFirst, HasKeys, nl_hash_get-lookup}

abbrev empty : World
empty = record {
  mem = record { fifos = λ p. none; elems = λ p. none };
  hashes = λ p. none;
  entries = λ p. none;
}

abbrev alloc : Ptr → Alloc
alloc p = record { entry = p; key_ok = true; value_ok = true; elem = p }

abbrev value_of : Outcome (Option Bytes) → Option Bytes
value_of (done v w) = v
value_of faulted = none
value_of unfinished = none

abbrev two_keys : Action Ptr
two_keys = do
  hash ← nl_hash_create 1 2
  nl_hash_set (alloc 10) hash (some (codes "a")) (some (codes "x"))
  nl_hash_set (alloc 11) hash (some (codes "b")) (some (codes "y"))
  nl_hash_set (alloc 12) hash (some (codes "a")) (some (codes "z"))
  give hash

set_test : value_of ((two_keys >>= λ h. nl_hash_get h (some (codes "a"))) empty) ≡ some (codes "z")
unfolding nl_hash_create nl_hash_set nl_hash_get nlutils.Fifo.Ops.nl_fifo_create
    nlutils.Hash.Ops.nl_hash_find nlutils.Hash.World.load_hash nlutils.Hash.Ops.find_loop
    nlutils.Hash.Ops.next_entry nlutils.Fifo.Walk.nl_fifo_next nlutils.Fifo.Walk.iter_next
    nlutils.Fifo.Store.load_fifo nlutils.Hash.Ops.nl_hash_add nlutils.Fifo.Ops.nl_fifo_put
    nlutils.Fifo.Ops.nl_fifo_allocate_new_element nlutils.Fifo.Store.store_fifo
    nlutils.Fifo.Ops.count_up nlutils.Fifo.Store.to_int nlutils.Fifo.Store.inc
    nlutils.Fifo.Store.load nlutils.Fifo.Store.set_next nlutils.Fifo.Store.store
    nlutils.Fifo.Walk.yield_at nlutils.Hash.Ops.same_key nlutils.Hash.World.count_inc
    nlutils.Hash.World.load_entry nlutils.Str.Compare.strcmp
set_test = refl

remove_test :
    value_of (
      (two_keys >>= λ h. nl_hash_remove h (some (codes "a")) >> nl_hash_get h (some (codes "a")))
        empty)
    ≡ none
unfolding nl_hash_create nl_hash_set nl_hash_get nlutils.Fifo.Ops.nl_fifo_create
    nlutils.Hash.Ops.nl_hash_find nlutils.Hash.World.load_hash nlutils.Hash.Ops.find_loop
    nlutils.Hash.Ops.next_entry nlutils.Fifo.Walk.nl_fifo_next nlutils.Fifo.Walk.iter_next
    nlutils.Fifo.Store.load_fifo nlutils.Hash.Ops.nl_hash_add nlutils.Fifo.Ops.nl_fifo_put
    nlutils.Fifo.Ops.nl_fifo_allocate_new_element nlutils.Fifo.Store.store_fifo
    nlutils.Fifo.Ops.count_up nlutils.Fifo.Store.to_int nlutils.Fifo.Store.inc
    nlutils.Fifo.Store.load nlutils.Fifo.Store.set_next nlutils.Fifo.Store.store
    nlutils.Fifo.Walk.yield_at nlutils.Hash.Ops.same_key nlutils.Hash.World.count_inc
    nlutils.Hash.World.load_entry nlutils.Str.Compare.strcmp nl_hash_remove
    nlutils.Hash.Ops.nl_hash_destroy_entry nlutils.Hash.World.count_dec
    nlutils.Fifo.Walk.nl_fifo_remove nlutils.Fifo.Walk.remove_loop nlutils.Fifo.Walk.unlink
    nlutils.Fifo.Walk.discard nlutils.Fifo.Store.dec nlutils.Fifo.Store.free
remove_test = refl

abbrev entry_a : HashEntry
entry_a = record { key = codes "a"; value = codes "z" }

abbrev entry_b : HashEntry
entry_b = record { key = codes "b"; value = codes "y" }

abbrev fifo : Fifo
fifo = record { first = 10; last = 11; count = 2 }

abbrev world : World
world = record {
  mem = record {
    fifos = λ p. if p == 2 then some fifo else none;
    elems = λ p.
        if p == 10
        then some (element 11 20 2)
        else if p == 11
        then some (element null 21 2)
        else none;
  };
  hashes = λ p. if p == 1 then some (record { table = 2; count = 2 }) else none;
  entries = λ p. if p == 20 then some entry_a else if p == 21 then some entry_b else none;
}

world-IsHash : IsHash world 1 (entry_a ∷ entry_b ∷ [])
world-IsHash = record {
  hash = record { table = 2; count = 2 };
  fifo = fifo;
  xs = (10, 20) ∷ (11, 21) ∷ [];
  ne_null = ground arith;
  at_hash = refl;
  table = record {
    ne_null = ground arith;
    at = refl;
    chain =
        cons (ground arith) (ground arith) refl refl
          (cons (ground arith) (ground arith) refl refl nil);
    last = refl;
    count = refl;
    bound = omega arith;
  };
  entries = Entries.cons (ground arith) refl (Entries.cons (ground arith) refl Entries.nil);
}

nl_hash_get-lookup_example :
    (found : Option Bytes) × (nl_hash_get 1 (some (codes "b")) world ≡ done found world)
    × IsFirst (codes "b") (entry_a ∷ entry_b ∷ []) found
unfolding HasKeys
nl_hash_get-lookup_example =
    nl_hash_get-lookup world 1 (entry_a ∷ entry_b ∷ []) (codes "b") world-IsHash
      ((omega arith, omega arith), tt)
      (((omega arith, omega arith), tt), (((omega arith, omega arith), tt), tt))
