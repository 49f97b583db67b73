-- ===== src/Queue.antt =====
-- src/base/queue.c: a queue is a double-ended queue that is pushed to at the end and popped at the front.
use forfun.Prelude.{ℕ, Bool, Option, List, ltb, if◌then◌else◌}
use forfun.DeQueue.{
  DeQueue, DeQueueError, create_dequeue, dequeue_push, dequeue_pop_front, is_dequeue_empty,
}

abbrev min_queue_unit_capacity : ℕ
min_queue_unit_capacity = 20

module _ {ℓ} {V : Type ℓ} where
  unfoldable pub create_queue : Bool → ℕ → Option (List V) → Option (DeQueue V)
  create_queue allocated unit_capacity memory =
      create_dequeue allocated
        (if ltb unit_capacity min_queue_unit_capacity
          then min_queue_unit_capacity
          else unit_capacity)
        memory

  unfoldable pub en_queue : DeQueue V → V → Option (List V) → DeQueueError × DeQueue V
  en_queue = dequeue_push

  unfoldable pub de_queue : DeQueue V → DeQueueError × Option V × DeQueue V
  de_queue = dequeue_pop_front

  unfoldable pub is_queue_empty : DeQueue V → Bool
  is_queue_empty = is_dequeue_empty
