-- ===== src/DeQueue.antt =====
-- src/base/base_dequeue.c: a double-ended queue.
--
-- The units that front_p, next_p and end_p link are a list, front first; those of free_list_p are
-- another. Each operation holds the lock from its first read to its last write, so it is one step.
-- A unit from malloc holds unknown values: the argument `memory` is what malloc returned, `none` for
-- NULL.
pub mod Contents
pub mod Chain
pub mod Ends
pub mod Front
pub mod Back
pub mod PushFront
pub mod Fifo
pub mod Exhausted
mod Tests
use forfun.Prelude.{
  ℕ, zero, suc, ◌+◌, ◌-◌, ◌/◌, Bool, true, false, not, if◌then◌else◌, ◌&&◌, Option, none, some,
  List, [], ◌∷◌, ◌++◌, ltb, leb, ◌==◌, set, get_elem?,
}

-- The error codes that these files return.
pub data DeQueueError : Type 0 where
  no_error : DeQueueError
  out_of_virtual_memory : DeQueueError
  no_more_item : DeQueueError

pub record DeQueueUnit {ℓ} (V : Type ℓ) : Type ℓ where
  pub front_index : ℕ
  pub end_index : ℕ
  pub values : List V

pub record DeQueue {ℓ} (V : Type ℓ) : Type ℓ where
  pub unit_values_count : ℕ
  pub units : List (DeQueueUnit V)
  pub free_list : List (DeQueueUnit V)

abbrev pub min_unit_capacity : ℕ
min_unit_capacity = 20

module _ {ℓ} {V : Type ℓ} where
  -- end_p; the default is for NULL.
  abbrev pub last_unit : DeQueueUnit V → List (DeQueueUnit V) → DeQueueUnit V
  last_unit u [] = u
  last_unit u (w ∷ us) = last_unit w us

  -- The chain without its last unit.
  abbrev pub but_last : DeQueueUnit V → List (DeQueueUnit V) → List (DeQueueUnit V)
  but_last u [] = []
  but_last u (w ∷ us) = u ∷ but_last w us

  unfoldable pub init_dequeue : ℕ → DeQueue V
  init_dequeue unit_capacity = record {
    unit_values_count =
        if ltb unit_capacity min_unit_capacity then min_unit_capacity else unit_capacity;
    units = [];
    free_list = [];
  }

  unfoldable pub init_dequeue_unit : List V → DeQueueUnit V
  init_dequeue_unit vs = record { front_index = 0; end_index = 0; values = vs }

  -- The unit that expandDeQueue takes, with the free list that is left.
  unfoldable pub take_unit :
      Option (List V) → List (DeQueueUnit V) → Option (DeQueueUnit V × List (DeQueueUnit V))
  take_unit none [] = none
  take_unit (some vs) [] = some (init_dequeue_unit vs, [])
  take_unit memory (u ∷ free) = some (init_dequeue_unit u.values, free)

  -- Where expandDeQueue links the new unit.
  abbrev pub link_unit : ℕ → Bool → DeQueueUnit V → List (DeQueueUnit V) → List (DeQueueUnit V)
  link_unit count expand_end u [] =
      record { front_index = count / 2; end_index = count / 2; values = u.values } ∷ []
  link_unit count true u (w ∷ us) = (w ∷ us) ++ u ∷ []
  link_unit count false u (w ∷ us) =
      record { front_index = count; end_index = count; values = u.values } ∷ w ∷ us

  unfoldable pub expand_dequeue : DeQueue V → Bool → Option (List V) → DeQueueError × DeQueue V
  expand_dequeue dq expand_end memory = elim (take_unit memory dq.free_list) [
    | none ↦ (out_of_virtual_memory, dq)
    | some taken ↦ (
      no_error,
      record {
        unit_values_count = dq.unit_values_count;
        units = link_unit dq.unit_values_count expand_end taken.0 dq.units;
        free_list = taken.1;
      },
    )
  ]

  abbrev pub created : DeQueueError × DeQueue V → Option (DeQueue V)
  created (no_error, dq) = some dq
  created (e, dq) = none

  -- `none` is NULL: one of the two calls of malloc failed.
  unfoldable pub create_dequeue : Bool → ℕ → Option (List V) → Option (DeQueue V)
  create_dequeue allocated unit_capacity memory =
      if allocated then created (expand_dequeue (init_dequeue unit_capacity) true memory) else none

  abbrev pub with_units : DeQueue V → List (DeQueueUnit V) → DeQueue V
  with_units dq us = record {
    unit_values_count = dq.unit_values_count;
    units = us;
    free_list = dq.free_list;
  }

  -- unit_p->values[unit_p->end_index++] = value
  abbrev pub put_end : V → DeQueueUnit V → DeQueueUnit V
  put_end v u = record {
    front_index = u.front_index;
    end_index = suc u.end_index;
    values = set u.values u.end_index v;
  }

  -- unit_p->values[--unit_p->front_index] = value
  abbrev pub put_front : V → DeQueueUnit V → DeQueueUnit V
  put_front v u = record {
    front_index = u.front_index - 1;
    end_index = u.end_index;
    values = set u.values (u.front_index - 1) v;
  }

  abbrev pub write_end : V → DeQueue V → DeQueue V
  write_end v dq = elim dq.units [
    | [] ↦ dq
    | u ∷ us ↦ with_units dq (but_last u us ++ put_end v (last_unit u us) ∷ [])
  ]

  abbrev pub write_front : V → DeQueue V → DeQueue V
  write_front v dq = elim dq.units [ [] ↦ dq | u ∷ us ↦ with_units dq (put_front v u ∷ us) ]

  -- What follows expandDeQueue: the write, unless it failed.
  abbrev pub then_write :
      (DeQueue V → DeQueue V) → DeQueueError × DeQueue V → DeQueueError × DeQueue V
  then_write write (no_error, dq) = (no_error, write dq)
  then_write write (e, dq) = (e, dq)

  abbrev pub end_is_full : DeQueue V → Bool
  end_is_full dq = elim dq.units [
    | [] ↦ false
    | u ∷ us ↦ leb dq.unit_values_count (last_unit u us).end_index
  ]

  abbrev pub front_is_full : DeQueue V → Bool
  front_is_full dq = elim dq.units [ [] ↦ false | u ∷ us ↦ ltb u.front_index 1 ]

  unfoldable pub dequeue_push : DeQueue V → V → Option (List V) → DeQueueError × DeQueue V
  dequeue_push dq value memory =
      if end_is_full dq
      then then_write (write_end value) (expand_dequeue dq true memory)
      else (no_error, write_end value dq)

  unfoldable pub dequeue_push_front : DeQueue V → V → Option (List V) → DeQueueError × DeQueue V
  dequeue_push_front dq value memory =
      if front_is_full dq
      then then_write (write_front value) (expand_dequeue dq false memory)
      else (no_error, write_front value dq)

  abbrev pub has_more : List (DeQueueUnit V) → Bool
  has_more [] = false
  has_more (u ∷ us) = true

  -- The two ends of a unit that is not empty lose a value.
  abbrev pub drop_end : DeQueueUnit V → DeQueueUnit V
  drop_end u = record {
    front_index = u.front_index;
    end_index = u.end_index - 1;
    values = u.values;
  }

  abbrev pub drop_front : DeQueueUnit V → DeQueueUnit V
  drop_front u = record {
    front_index = suc u.front_index;
    end_index = u.end_index;
    values = u.values;
  }

  abbrev pub release : DeQueue V → List (DeQueueUnit V) → DeQueueUnit V → DeQueue V
  release dq us u = record {
    unit_values_count = dq.unit_values_count;
    units = us;
    free_list = u ∷ dq.free_list;
  }

  -- The end of deQueuePop on the chain `u ∷ us`, whose last unit is `last`.
  abbrev pub pop_unit :
      DeQueue V
      → DeQueueUnit V
      → List (DeQueueUnit V)
      → DeQueueUnit V
      → DeQueueError × Option V × DeQueue V
  pop_unit dq u us last =
      if leb last.end_index last.front_index then (no_more_item, none, dq) else (
        no_error,
        get_elem? last.values (last.end_index - 1),
        if has_more us && ltb (last.end_index - 1) 1
            then release dq (but_last u us) (drop_end last)
            else with_units dq (but_last u us ++ drop_end last ∷ []),
      )

  -- The error, what is written to *value_p, and the queue.
  unfoldable pub dequeue_pop : DeQueue V → DeQueueError × Option V × DeQueue V
  dequeue_pop dq = elim dq.units [
    | [] ↦ (no_more_item, none, dq)
    | u ∷ us ↦ pop_unit dq u us (last_unit u us)
  ]

  abbrev pub pop_front_unit :
      DeQueue V → DeQueueUnit V → List (DeQueueUnit V) → DeQueueError × Option V × DeQueue V
  pop_front_unit dq u us = if leb u.end_index u.front_index then (no_more_item, none, dq) else (
    no_error,
    get_elem? u.values u.front_index,
    if has_more us && leb dq.unit_values_count (suc u.front_index)
        then release dq us (drop_front u)
        else with_units dq (drop_front u ∷ us),
  )

  unfoldable pub dequeue_pop_front : DeQueue V → DeQueueError × Option V × DeQueue V
  dequeue_pop_front dq = elim dq.units [
    | [] ↦ (no_more_item, none, dq)
    | u ∷ us ↦ pop_front_unit dq u us
  ]

  unfoldable pub is_dequeue_empty : DeQueue V → Bool
  is_dequeue_empty dq = elim dq.units [
    | [] ↦ false
    | u ∷ us ↦ not (has_more us) && u.front_index == u.end_index
  ]
