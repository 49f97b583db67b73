-- ===== src/DeQueue/Fifo.antt =====
-- src/base/queue.c and src/base/stack.c as runs of operations, and where they leave the specification.
use forfun.Prelude.{
  ℕ, zero, suc, ◌≡◌, refl, ◌∙◌, sym, ap, true, false, if◌then◌else◌, ltb, leb, Option, none, some,
  List, [], ◌∷◌, ◌++◌, length, arith, Bool-cases, inl, inr, ◌↔◌, ◌≢◌, ==_refl, ==_iff, max,
}
use mathlib.Core.List.{append_assoc, append-nil}
use forfun.DeQueue.{
  DeQueue, DeQueueUnit, DeQueueError, no_error, no_more_item, out_of_virtual_memory,
  dequeue_pop_front, is_dequeue_empty, dequeue_push, create_dequeue, init_dequeue, expand_dequeue,
  take_unit, init_dequeue_unit, min_unit_capacity,
}
use forfun.Queue.{create_queue, en_queue, de_queue}
use forfun.DeQueue.Contents.{slice, slice-empty, slice-front}
use forfun.DeQueue.Chain.{all_held}
use forfun.DeQueue.Ends.{IsDeQueue, CanPush, contents, Pushed, dequeue_push-contents}
use forfun.DeQueue.Front.{PoppedFront, found_none, found, dequeue_pop_front-contents}

true_is_not_false : false ≢ true
true_is_not_false e = cc

module _ {ℓ} {V : Type ℓ} where
  not_empty : {v : V} {vs : List V} → (v ∷ vs) ≢ []
  not_empty e = cc

  empty-units :
      (count : ℕ) (units free : List (DeQueueUnit V))
      → IsDeQueue record { unit_values_count = count; units = units; free_list = free }
      → (is_dequeue_empty record { unit_values_count = count; units = units; free_list = free }
          ≡ true)
        ↔ (all_held units ≡ [])
  unfolding is_dequeue_empty
  empty-units count [] free p = absurd p.1
  empty-units count (u ∷ []) free (positive, (p0, p1, p2), frees) = (
    λ e.
        ap (λ i. slice u.values i u.end_index ++ []) ((==_iff u.front_index u.end_index).0 e)
        ∙ ap (λ m. m ++ []) (slice-empty u.values u.end_index),
    λ e. elim (Bool-cases (leb u.end_index u.front_index)) [
      | inl n ↦
          let same : u.front_index ≡ u.end_index = ground (arith, p0) in
          rw (same) (==_refl u.end_index)
      | inr n ↦
          let (v, value, split) =
            slice-front u.values u.front_index u.end_index (ground arith) (rw (p2) p1) in
          absurd (not_empty (sym (ap (λ m. m ++ []) split) ∙ e))
    ],
  )
  empty-units count (u ∷ w ∷ us) free (positive, (p, p1, p2, p3, p4), frees) = (
    λ e. absurd (true_is_not_false e),
    λ e.
        let (v, value, split) =
          slice-front u.values u.front_index u.end_index (rw (p2) p1) (rw (p.2) p.1) in
        absurd (not_empty (sym (ap (λ m. m ++ all_held (w ∷ us)) split) ∙ e)),
  )

  -- isDeQueueEmpty answers whether a well-formed queue holds no value.
  pub is_dequeue_empty-contents :
      (dq : DeQueue V) → IsDeQueue dq → (is_dequeue_empty dq ≡ true) ↔ (contents dq ≡ [])
  is_dequeue_empty-contents dq p = empty-units dq.unit_values_count dq.units dq.free_list p

  -- deQueue, `n` times; the values that it takes.
  unfoldable pub de_queue_times : ℕ → DeQueue V → List V
  de_queue_times zero dq = []
  de_queue_times (suc n) dq =
      let rest = de_queue_times n (de_queue dq).2 in
      elim (de_queue dq).1 [ none ↦ rest | some v ↦ v ∷ rest ]

  abbrev pub and_then :
      DeQueueError × DeQueue V → (DeQueue V → DeQueueError × DeQueue V) → DeQueueError × DeQueue V
  and_then (no_error, dq) f = f dq
  and_then (e, dq) f = (e, dq)

  -- enQueue of each value of a list, which stops at an error; `memory` is what malloc returns.
  unfoldable pub en_queue_all : DeQueue V → List V → List V → DeQueueError × DeQueue V
  en_queue_all dq [] memory = (no_error, dq)
  en_queue_all dq (v ∷ vs) memory =
      and_then (en_queue dq v (some memory)) λ after. en_queue_all after vs memory

  and_then_ok :
      (r : DeQueueError × DeQueue V) (f : DeQueue V → DeQueueError × DeQueue V)
      → r.0 ≡ no_error
      → and_then r f ≡ f r.1
  and_then_ok (no_error, dq) f e = refl
  and_then_ok (out_of_virtual_memory, dq) f e = cc
  and_then_ok (no_more_item, dq) f e = cc

  en_queue_all-Pushed :
      (vs memory : List V) (dq : DeQueue V)
      → IsDeQueue dq
      → CanPush dq
      → length memory ≡ dq.unit_values_count
      → Pushed dq vs (en_queue_all dq vs memory)
  unfolding en_queue_all en_queue
  en_queue_all-Pushed [] memory dq p n m = record {
    succeeds = refl;
    is_dequeue = p;
    can_push = n;
    holds = sym (append-nil (contents dq));
    keeps_count = refl;
  }
  en_queue_all-Pushed (v ∷ vs) memory dq p n m =
      let first = dequeue_push-contents dq v memory p n m in
      let after = (dequeue_push dq v (some memory)).1 in
      let rest =
        en_queue_all-Pushed vs memory after first.is_dequeue first.can_push
          (m ∙ sym first.keeps_count) in
      rw
        (and_then_ok (dequeue_push dq v (some memory)) (λ d. en_queue_all d vs memory)
          first.succeeds)
        record {
          succeeds = rest.succeeds;
          is_dequeue = rest.is_dequeue;
          can_push = rest.can_push;
          holds =
              rest.holds ∙ ap (λ m. m ++ vs) first.holds ∙ append_assoc (contents dq) (v ∷ []) vs;
          keeps_count = rest.keeps_count ∙ first.keeps_count;
        }

  de_queue_times-contents :
      (vs : List V) (dq : DeQueue V)
      → IsDeQueue dq
      → contents dq ≡ vs
      → de_queue_times (length vs) dq ≡ vs
  unfolding de_queue_times de_queue
  de_queue_times-contents [] dq p e = refl
  de_queue_times-contents (v ∷ vs) dq p e =
      step (dequeue_pop_front dq) (dequeue_pop_front-contents dq p)
        (λ d q h. de_queue_times-contents vs d q h)
    where
      step :
          (r : DeQueueError × Option V × DeQueue V)
          → PoppedFront dq r
          → ((d : DeQueue V) → IsDeQueue d → contents d ≡ vs → de_queue_times (length vs) d ≡ vs)
          → (elim r.1 as (λ x. List V) [
            | none ↦ de_queue_times (length vs) r.2
            | some x ↦ x ∷ de_queue_times (length vs) r.2
          ])
            ≡ v ∷ vs
      step r (found_none h) rest = absurd (not_empty (sym e ∙ h))
      step r (found {after = after} x h q c) rest =
          let both : x ∷ contents after ≡ v ∷ vs = sym h ∙ e in
          let same : contents after ≡ vs = cc in
          let ih = rest after q same in let first : x ≡ v = cc in cc

  -- A queue of createQueue is well-formed and empty.
  create_queue-IsDeQueue :
      (unit_capacity : ℕ) (memory : List V)
      → length memory ≡ max unit_capacity min_unit_capacity
      → (dq : DeQueue V) × (create_queue true unit_capacity (some memory) ≡ some dq)
        × IsDeQueue dq
        × CanPush dq
        × (contents dq ≡ [])
        × (dq.unit_values_count ≡ max unit_capacity min_unit_capacity)
  unfolding create_queue create_dequeue expand_dequeue init_dequeue take_unit init_dequeue_unit
  create_queue-IsDeQueue unit_capacity memory e =
      let count : (if ltb (if ltb unit_capacity 20 then 20 else unit_capacity) 20
            then 20
            else (if ltb unit_capacity 20 then 20 else unit_capacity))
          ≡ max unit_capacity min_unit_capacity =
        ground arith in
      (
        _,
        refl,
        (ground arith, (omega arith, ground arith, ground arith), tt),
        ground arith,
        ap (λ m. m ++ []) (slice-empty memory _),
        count,
      )

  -- A queue from createQueue is first in, first out: it takes every value that is pushed to it, and
  -- then as many calls of deQueue return those values in their order. The capacity is any, `memory` is
  -- what malloc returns, of the size asked for.
  pub en_queue_all-fifo :
      (unit_capacity : ℕ) (memory vs : List V)
      → length memory ≡ max unit_capacity min_unit_capacity
      → (dq : DeQueue V) × (create_queue true unit_capacity (some memory) ≡ some dq)
        × ((en_queue_all dq vs memory).0 ≡ no_error)
        × (de_queue_times (length vs) (en_queue_all dq vs memory).1 ≡ vs)
  en_queue_all-fifo unit_capacity memory vs e =
      let (dq, made, p, n, empty, count) = create_queue-IsDeQueue unit_capacity memory e in
      let filled = en_queue_all-Pushed vs memory dq p n (e ∙ sym count) in
      (
        dq,
        made,
        filled.succeeds,
        de_queue_times-contents vs _ filled.is_dequeue (filled.holds ∙ ap (λ m. m ++ vs) empty),
      )
