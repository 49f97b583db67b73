-- ===== src/Stack.antt =====
-- src/base/stack.c: the stack, on a double-ended queue.
use forfun.Prelude.{ℕ, Bool, Option, List, ltb, if◌then◌else◌}
use forfun.DeQueue.{
  DeQueue, DeQueueError, create_dequeue, dequeue_push, dequeue_pop_front, is_dequeue_empty,
}

abbrev min_stack_unit_capacity : ℕ
min_stack_unit_capacity = 20

module _ {ℓ} {V : Type ℓ} where
  unfoldable pub create_stack : Bool → ℕ → Option (List V) → Option (DeQueue V)
  create_stack allocated unit_capacity memory =
      create_dequeue allocated
        (if ltb unit_capacity min_stack_unit_capacity
          then min_stack_unit_capacity
          else unit_capacity)
        memory

  unfoldable pub push_into_stack : DeQueue V → V → Option (List V) → DeQueueError × DeQueue V
  push_into_stack = dequeue_push

  unfoldable pub pop_out_from_stack : DeQueue V → DeQueueError × Option V × DeQueue V
  pop_out_from_stack = dequeue_pop_front

  unfoldable pub is_stack_empty : DeQueue V → Bool
  is_stack_empty = is_dequeue_empty
