-- ===== src/Fifo/Examples.antt =====
-- Runs of the functions of src/fifo.c on a store with one fifo of two elements.
use nlutils.Prelude.{◌≡◌, refl, true, some, none, [], ◌∷◌, ◌==◌, if◌then◌else◌, arith}
use nlutils.Prelude.Int.{negsuc}
use nlutils.Fifo.Store.{Ptr, null, Fifo, Store, ok, to_int}
use nlutils.Fifo.Segment.{Cells, element, IsFifo, SameOutside, nil, cons}
use nlutils.Fifo.Ops.{nl_fifo_put, nl_fifo_prepend}
use nlutils.Fifo.Walk.{nl_fifo_remove}
use nlutils.Fifo.Queue.{Got, nl_fifo_get-Got}
use nlutils.Fifo.Ends.{nl_fifo_put-append}
use nlutils.Fifo.Front.{nl_fifo_prepend-cons}
use nlutils.Fifo.Iterate.{indexed, nl_fifo_peek_index-indexed, nl_fifo_peek-indexed}
use nlutils.Fifo.Walk.{nl_fifo_peek_index}
use nlutils.Fifo.Segment.{◌∈◌}
use nlutils.Fifo.Start.{nl_fifo_remove_start-drop}
use nlutils.Fifo.Bulk.{nl_fifo_remove_start}
use nlutils.Fifo.Remove.{Becomes, nl_fifo_remove-erase}

abbrev fifo : Fifo
fifo = record { first = 10; last = 20; count = 2 }

-- The items 7 and 8 in the elements at 10 and 20, and the fifo at 100.
abbrev store : Store
store = record {
  fifos = λ l. if l == 100 then some fifo else none;
  elems = λ a.
      if a == 10
      then some (element 20 7 100)
      else if a == 20
      then some (element null 8 100)
      else none;
}

abbrev queue : Cells
queue = (10, 7) ∷ (20, 8) ∷ []

valid : IsFifo store 100 fifo queue
valid = record {
  ne_null = ground arith;
  at = refl;
  chain =
      cons (ground arith) (ground arith) refl refl
        (cons (ground arith) (ground arith) refl refl nil);
  last = refl;
  count = refl;
  bound = omega arith;
}

nl_fifo_put-append_example :
    (t : Store) × (g : Fifo) × (nl_fifo_put 30 100 9 store ≡ ok (to_int 3) t)
    × IsFifo t 100 g ((10, 7) ∷ (20, 8) ∷ (30, 9) ∷ [])
    × SameOutside ((10, 7) ∷ (20, 8) ∷ (30, 9) ∷ []) 100 store t
nl_fifo_put-append_example =
    nl_fifo_put-append store 100 fifo 30 9 queue valid (ground arith) (ground arith) refl
      (omega arith)

nl_fifo_prepend-cons_example :
    (t : Store) × (g : Fifo) × (nl_fifo_prepend 30 100 9 store ≡ ok (to_int 3) t)
    × IsFifo t 100 g ((30, 9) ∷ queue)
    × SameOutside ((30, 9) ∷ queue) 100 store t
nl_fifo_prepend-cons_example =
    nl_fifo_prepend-cons store 100 fifo 30 9 queue valid (ground arith) (ground arith) refl
      (omega arith)

nl_fifo_get-Got_example : Got store 100 queue
nl_fifo_get-Got_example = nl_fifo_get-Got store 100 fifo queue valid

nl_fifo_remove-erase_example :
    Becomes store 100 (nl_fifo_remove 100 8 store) true queue ((10, 7) ∷ [])
unfolding nlutils.Fifo.Remove.contains nlutils.Fifo.Remove.erase
nl_fifo_remove-erase_example = nl_fifo_remove-erase store 100 fifo 8 queue valid (ground arith)

nl_fifo_peek_index-indexed_example : nl_fifo_peek_index 100 (negsuc 1) store ≡ ok 7 store
unfolding indexed nlutils.Fifo.Iterate.item_at
nl_fifo_peek_index-indexed_example =
    nl_fifo_peek_index-indexed store 100 fifo (negsuc 1) queue valid

nl_fifo_remove_start-drop_example :
    (t : Store) × (g : Fifo) × (nl_fifo_remove_start 100 1 true store ≡ ok (7 ∷ [], 1) t)
    × IsFifo t 100 g ((20, 8) ∷ [])
    × SameOutside ((10, 7) ∷ []) 100 store t
    × ((a : Ptr) → a ∈ ((10, 7) ∷ []) → t.elems a ≡ none)
nl_fifo_remove_start-drop_example = nl_fifo_remove_start-drop store 100 fifo 1 true queue valid
