-- ===== src/DeQueue/Tests.antt =====
-- Runs of src/base/base_dequeue.c, src/base/queue.c and src/base/stack.c on numbers.
use forfun.Prelude.{
  ℕ, zero, suc, ◌≡◌, refl, true, false, none, some, ◌↔◌, arith, List, [], ◌∷◌, ◌++◌, replicate,
}
use forfun.DeQueue.PushFront.{PushedFront, dequeue_push_front-contents}
use forfun.DeQueue.Back.{PoppedBack, dequeue_pop-contents}
use forfun.DeQueue.{
  dequeue_pop, dequeue_push_front, DeQueue, DeQueueUnit, no_error, no_more_item, dequeue_push,
  create_dequeue, expand_dequeue, init_dequeue, take_unit, init_dequeue_unit, dequeue_pop_front,
  is_dequeue_empty,
}
use forfun.Queue.{create_queue, en_queue}
use forfun.Stack.{push_into_stack, pop_out_from_stack}
use forfun.DeQueue.Ends.{IsDeQueue, contents, Pushed, dequeue_push-contents}
use forfun.DeQueue.Front.{PoppedFront, dequeue_pop_front-contents}
use forfun.DeQueue.Fifo.{is_dequeue_empty-contents, en_queue_all, de_queue_times, en_queue_all-fifo}
use forfun.DeQueue.Exhausted.{exhausted, dequeue_push-exhausted, pop_out_from_stack-push_into_stack}

-- A queue with room for two values in a unit that holds 5 and 6 in two units.
abbrev two_units : DeQueue ℕ
two_units = record {
  unit_values_count = 2;
  units =
      record { front_index = 1; end_index = 2; values = 0 ∷ 5 ∷ [] }
      ∷ record { front_index = 0; end_index = 1; values = 6 ∷ 0 ∷ [] }
      ∷ [];
  free_list = [];
}

two_units-IsDeQueue : IsDeQueue two_units
two_units-IsDeQueue = (
  omega arith,
  (
    (omega arith, omega arith, refl),
    omega arith,
    refl,
    (refl, omega arith),
    (omega arith, omega arith, refl),
  ),
  tt,
)

abbrev room : List ℕ
room = 0 ∷ 0 ∷ []

dequeue_push-contents_example : Pushed two_units (7 ∷ []) (dequeue_push two_units 7 (some room))
dequeue_push-contents_example =
    dequeue_push-contents two_units 7 room two_units-IsDeQueue (omega arith) refl

dequeue_pop_front-contents_example : PoppedFront two_units (dequeue_pop_front two_units)
dequeue_pop_front-contents_example = dequeue_pop_front-contents two_units two_units-IsDeQueue

is_dequeue_empty-contents_test : (is_dequeue_empty two_units ≡ true) ↔ (contents two_units ≡ [])
is_dequeue_empty-contents_test = is_dequeue_empty-contents two_units two_units-IsDeQueue

en_queue_all-fifo_example :
    (dq : DeQueue ℕ) × (create_queue true 3 (some (replicate 20 0)) ≡ some dq)
    × ((en_queue_all dq (1 ∷ 2 ∷ 3 ∷ []) (replicate 20 0)).0 ≡ no_error)
    × (de_queue_times 3 (en_queue_all dq (1 ∷ 2 ∷ 3 ∷ []) (replicate 20 0)).1 ≡ 1 ∷ 2 ∷ 3 ∷ [])
en_queue_all-fifo_example = en_queue_all-fifo 3 (replicate 20 0) (1 ∷ 2 ∷ 3 ∷ []) refl

abbrev taken : List ℕ
taken = 8 ∷ 9 ∷ []

-- A unit on the free list.
abbrev spare : List (DeQueueUnit ℕ)
spare = record { front_index = 2; end_index = 2; values = 4 ∷ 3 ∷ [] } ∷ []

dequeue_push-exhausted_example :
    ((dequeue_push (exhausted 2 taken spare) 7 (some room)).0 ≡ no_error)
    × (dequeue_pop_front (dequeue_push (exhausted 2 taken spare) 7 (some room)).1
        ≡ (no_more_item, none, (dequeue_push (exhausted 2 taken spare) 7 (some room)).1))
    × (is_dequeue_empty (dequeue_push (exhausted 2 taken spare) 7 (some room)).1 ≡ false)
dequeue_push-exhausted_example = dequeue_push-exhausted 2 taken room spare 7

pop_out_from_stack-push_into_stack_example :
    ((pop_out_from_stack (push_into_stack two_units 7 (some room)).1).0 ≡ no_error)
    × ((pop_out_from_stack (push_into_stack two_units 7 (some room)).1).1 ≡ some 5)
    × (contents (pop_out_from_stack (push_into_stack two_units 7 (some room)).1).2 ≡ 6 ∷ 7 ∷ [])
pop_out_from_stack-push_into_stack_example =
    pop_out_from_stack-push_into_stack two_units 5 7 (6 ∷ []) room two_units-IsDeQueue (omega arith)
      refl refl

abbrev ten : List ℕ
ten = 1 ∷ 2 ∷ 3 ∷ 4 ∷ 5 ∷ 6 ∷ 7 ∷ 8 ∷ 9 ∷ 10 ∷ []

abbrev take_out : ℕ → DeQueue ℕ → DeQueue ℕ
take_out zero dq = dq
take_out (suc n) dq = take_out n (dequeue_pop_front dq).2

-- Ten values in and out exhaust a new queue of the least capacity.
ten_through :
    (dq : DeQueue ℕ) × (create_queue true 20 (some (replicate 20 0)) ≡ some dq)
    × (take_out 10 (en_queue_all dq ten (replicate 20 0)).1
        ≡ exhausted 20 (replicate 10 0 ++ ten) [])
unfolding create_queue en_queue_all dequeue_push dequeue_pop_front create_dequeue expand_dequeue
    init_dequeue take_unit init_dequeue_unit en_queue
ten_through = (_, refl, refl)

dequeue_pop-contents_example : PoppedBack two_units (dequeue_pop two_units)
dequeue_pop-contents_example = dequeue_pop-contents two_units two_units-IsDeQueue

dequeue_push_front-contents_example :
    PushedFront two_units 7 (dequeue_push_front two_units 7 (some room))
dequeue_push_front-contents_example =
    dequeue_push_front-contents two_units 7 room two_units-IsDeQueue (omega arith) refl
