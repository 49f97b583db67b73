-- ===== src/DeQueue/Front.antt =====
-- deQueuePopFront and isDeQueueEmpty on the values that the queue holds.
use forfun.Prelude.{
  ℕ, suc, ◌≤◌, ◌<◌, ◌≡◌, refl, ◌∙◌, ap, ◌&&◌, if◌then◌else◌, leb, Option, none, some, List, [], ◌∷◌,
  ◌++◌, arith, get_elem?, Bool-cases, inl, inr,
}
use forfun.DeQueue.{
  DeQueue, DeQueueUnit, DeQueueError, no_error, no_more_item, dequeue_pop_front, drop_front,
  with_units, release, has_more,
}
use forfun.DeQueue.Contents.{slice, slice-empty, slice-front}
use forfun.DeQueue.Chain.{IsChain, all_held}
use forfun.DeQueue.Ends.{IsDeQueue, contents}

module _ {ℓ} {V : Type ℓ} where
  -- What deQueuePopFront does, by what the queue holds.
  pub data PoppedFront (dq : DeQueue V) : DeQueueError × Option V × DeQueue V → Type ℓ where
    found_none : contents dq ≡ [] → PoppedFront dq (no_more_item, none, dq)
    found :
        {after : DeQueue V} (v : V)
        → contents dq ≡ v ∷ contents after
        → IsDeQueue after
        → after.unit_values_count ≡ dq.unit_values_count
        → PoppedFront dq (no_error, some v, after)

  -- The queue `u ∷ us` that loses the first value of `u`, which is not empty.
  pop-first :
      (count : ℕ) (u : DeQueueUnit V) (us free : List (DeQueueUnit V))
      → IsDeQueue record { unit_values_count = count; units = u ∷ us; free_list = free }
      → u.front_index < u.end_index
      → PoppedFront
          record { unit_values_count = count; units = u ∷ us; free_list = free }
          (
            no_error,
            get_elem? u.values u.front_index,
            if has_more us && leb count (suc u.front_index)
                then release
                    record { unit_values_count = count; units = u ∷ us; free_list = free }
                    us
                    (drop_front u)
                else with_units
                    record { unit_values_count = count; units = u ∷ us; free_list = free }
                    (drop_front u ∷ us),
          )
  pop-first count u [] free (positive, (p0, p1, p2), frees) n =
      let (v, value, split) = slice-front u.values u.front_index u.end_index n (rw (p2) p1) in
      rw (value) (found v (ap (λ m. m ++ []) split) (positive, (n, p1, p2), frees) refl)
  pop-first count u (w ∷ us) free (positive, (p, p1, p2, p3, p4), frees) n =
      let (v, value, split) = slice-front u.values u.front_index u.end_index n (rw (p.2) p.1) in
      let holds : contents
            record { unit_values_count = count; units = u ∷ w ∷ us; free_list = free }
          ≡ v ∷ (slice u.values (suc u.front_index) u.end_index ++ all_held (w ∷ us)) =
        ap (λ m. m ++ all_held (w ∷ us)) split in
      elim (Bool-cases (leb count (suc u.front_index))) [
        | inl last ↦
            let end : suc u.front_index ≡ u.end_index = ground arith in
            let gone : slice u.values (suc u.front_index) u.end_index ≡ [] =
              ap (λ i. slice u.values i u.end_index) end ∙ slice-empty u.values u.end_index in
            rw (value, last)
              (found v (holds ∙ ap (λ m. v ∷ (m ++ all_held (w ∷ us))) gone)
                (positive, p4, ((p.2, tt), frees)) refl)
        | inr more ↦
            rw (value, more)
              (found v holds (positive, ((n, p.1, p.2), ground arith, p2, p3, p4), frees) refl)
      ]

  pop-units :
      (count : ℕ) (units free : List (DeQueueUnit V))
      → IsDeQueue record { unit_values_count = count; units = units; free_list = free }
      → PoppedFront
          record { unit_values_count = count; units = units; free_list = free }
          (dequeue_pop_front record { unit_values_count = count; units = units; free_list = free })
  unfolding dequeue_pop_front
  pop-units count [] free p = absurd p.1
  pop-units count (u ∷ us) free p = elim (Bool-cases (leb u.end_index u.front_index)) [
    | inl empty ↦ rw (empty) (found_none (nothing us p.1 (ground arith)))
    | inr more ↦ rw (more) (pop-first count u us free p (ground arith))
  ]
    where
      nothing :
          (us : List (DeQueueUnit V))
          → IsChain count u us
          → u.end_index ≤ u.front_index
          → all_held (u ∷ us) ≡ []
      nothing [] q n =
          let same : u.front_index ≡ u.end_index = omega (arith, q.0) in
          ap (λ i. slice u.values i u.end_index ++ []) same
          ∙ ap (λ m. m ++ []) (slice-empty u.values u.end_index)
      nothing (w ∷ us) q n = absurd (omega (arith, q.1, q.2))

  -- On a well-formed queue deQueuePopFront takes the first of the values that the queue holds, and
  -- reports an error and changes nothing exactly when it holds none. The queue stays well-formed.
  pub dequeue_pop_front-contents :
      (dq : DeQueue V) → IsDeQueue dq → PoppedFront dq (dequeue_pop_front dq)
  dequeue_pop_front-contents dq p = pop-units dq.unit_values_count dq.units dq.free_list p
