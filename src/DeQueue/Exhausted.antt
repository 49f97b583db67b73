-- ===== src/DeQueue/Exhausted.antt =====
-- Where src/base/base_dequeue.c and src/base/stack.c leave what their callers expect of them.
use forfun.Prelude.{
  ℕ, ◌≡◌, refl, ◌∙◌, sym, ap, true, false, leb, Option, none, some, List, [], ◌∷◌, ◌++◌, length,
  arith, ◌≢◌,
}
use forfun.DeQueue.{
  DeQueue, DeQueueUnit, DeQueueError, no_error, no_more_item, dequeue_pop_front, is_dequeue_empty,
  dequeue_push, expand_dequeue, take_unit, init_dequeue_unit,
}
use forfun.Stack.{push_into_stack, pop_out_from_stack}
use forfun.DeQueue.Ends.{IsDeQueue, CanPush, contents, dequeue_push-contents}
use forfun.DeQueue.Front.{PoppedFront, found_none, found, dequeue_pop_front-contents}

leb_refl : (n : ℕ) → leb n n ≡ true
leb_refl n = ground arith

module _ {ℓ} {V : Type ℓ} where
  nil_is_not_cons : {x : V} {xs : List V} → [] ≢ (x ∷ xs)
  nil_is_not_cons e = cc

  -- A queue of one unit that has been emptied at its last place, whatever units are free.
  abbrev pub exhausted : ℕ → List V → List (DeQueueUnit V) → DeQueue V
  exhausted count vs free = record {
    unit_values_count = count;
    units = record { front_index = count; end_index = count; values = vs } ∷ [];
    free_list = free;
  }

  -- A queue that is emptied at the last place of its only unit is lost, whatever its capacity, the
  -- values that stand in the unit and the units on the free list: the next deQueuePush, given memory,
  -- reports no error, and afterwards deQueuePopFront reports that there is no more item and
  -- isDeQueueEmpty that the queue is not empty.
  pub dequeue_push-exhausted :
      (count : ℕ) (vs memory : List V) (free : List (DeQueueUnit V)) (v : V)
      → ((dequeue_push (exhausted count vs free) v (some memory)).0 ≡ no_error)
        × (dequeue_pop_front (dequeue_push (exhausted count vs free) v (some memory)).1
            ≡ (no_more_item, none, (dequeue_push (exhausted count vs free) v (some memory)).1))
        × (is_dequeue_empty (dequeue_push (exhausted count vs free) v (some memory)).1 ≡ false)
  unfolding dequeue_push dequeue_pop_front is_dequeue_empty expand_dequeue take_unit
      init_dequeue_unit
  dequeue_push-exhausted count vs memory [] v =
      rw (leb_refl count, leb_refl count) (refl, refl, refl)
  dequeue_push-exhausted count vs memory (u ∷ free) v =
      rw (leb_refl count, leb_refl count) (refl, refl, refl)

  -- The stack takes out the oldest value: popOutFromStack after pushIntoStack returns the first of the
  -- values that the stack held before, and leaves the others with the new one behind them.
  pub pop_out_from_stack-push_into_stack :
      (dq : DeQueue V) (u v : V) (rest memory : List V)
      → IsDeQueue dq
      → CanPush dq
      → length memory ≡ dq.unit_values_count
      → contents dq ≡ u ∷ rest
      → ((pop_out_from_stack (push_into_stack dq v (some memory)).1).0 ≡ no_error)
        × ((pop_out_from_stack (push_into_stack dq v (some memory)).1).1 ≡ some u)
        × (contents (pop_out_from_stack (push_into_stack dq v (some memory)).1).2 ≡ rest ++ v ∷ [])
  unfolding pop_out_from_stack push_into_stack
  pop_out_from_stack-push_into_stack dq u v rest memory p n m e =
      let pushed = dequeue_push-contents dq v memory p n m in
      let after = (dequeue_push dq v (some memory)).1 in
      popped after (dequeue_pop_front after) (dequeue_pop_front-contents after pushed.is_dequeue)
        (pushed.holds ∙ ap (λ x. x ++ v ∷ []) e)
    where
      popped :
          (after : DeQueue V) (r : DeQueueError × Option V × DeQueue V)
          → PoppedFront after r
          → contents after ≡ u ∷ (rest ++ v ∷ [])
          → (r.0 ≡ no_error) × (r.1 ≡ some u) × (contents r.2 ≡ rest ++ v ∷ [])
      popped after r (found_none h) f = absurd (nil_is_not_cons (sym h ∙ f))
      popped after r (found x h q c) f = let both = sym h ∙ f in (refl, cc, cc)
