-- ===== src/DeQueue/Back.antt =====
-- deQueuePop on the values that the queue holds.
use forfun.Prelude.{
  ℕ, suc, ◌-◌, ◌≤◌, ◌<◌, ◌≡◌, refl, ◌∙◌, sym, ap, ◌&&◌, if◌then◌else◌, ltb, leb, Option, none, some,
  List, [], ◌∷◌, ◌++◌, arith, get_elem?, Bool-cases, inl, inr,
}
use mathlib.Core.List.{append_assoc, append-nil}
use forfun.DeQueue.{
  DeQueue, DeQueueUnit, DeQueueError, no_error, no_more_item, last_unit, but_last, dequeue_pop,
  drop_end, release, with_units, has_more,
}
use forfun.DeQueue.Contents.{held, slice, slice-empty, slice-end}
use forfun.DeQueue.Chain.{
  IsChain, all_held, last_unit-IsUnit, last_unit-FollowsIn, replace_end, remove_end, all_held-end,
  chain-split,
}
use forfun.DeQueue.Ends.{IsDeQueue, contents}

module _ {ℓ} {V : Type ℓ} where
  -- What deQueuePop does, by what the queue holds.
  pub data PoppedBack (dq : DeQueue V) : DeQueueError × Option V × DeQueue V → Type ℓ where
    found_none : contents dq ≡ [] → PoppedBack dq (no_more_item, none, dq)
    found :
        {after : DeQueue V} (v : V)
        → contents dq ≡ contents after ++ v ∷ []
        → IsDeQueue after
        → after.unit_values_count ≡ dq.unit_values_count
        → PoppedBack dq (no_error, some v, after)

  -- The last value of the last unit.
  last_value :
      (count : ℕ) (u : DeQueueUnit V) (us : List (DeQueueUnit V))
      → IsChain count u us
      → (last_unit u us).front_index < (last_unit u us).end_index
      → (v : V) × (get_elem? (last_unit u us).values ((last_unit u us).end_index - 1) ≡ some v)
        × (all_held (u ∷ us)
            ≡ (all_held (but_last u us) ++ held (drop_end (last_unit u us))) ++ v ∷ [])
  last_value count u us chain n =
      let x = last_unit u us in
      let unit = last_unit-IsUnit count u us chain in
      let (v, value, split) =
        slice-end x.values x.front_index (x.end_index - 1) (omega arith)
          (rw (unit.2) (omega (arith, unit.1))) in
      let up : suc (x.end_index - 1) ≡ x.end_index = omega arith in
      let whole : held x ≡ held (drop_end x) ++ v ∷ [] =
        ap (λ i. slice x.values x.front_index i) (sym up) ∙ split in
      (
        v,
        value,
        chain-split u us
            ∙ ap (λ m. all_held (but_last u us) ++ m) whole
            ∙ sym (append_assoc (all_held (but_last u us)) (held (drop_end x)) (v ∷ [])),
      )

  pop-last :
      (count : ℕ) (u : DeQueueUnit V) (us free : List (DeQueueUnit V))
      → IsDeQueue record { unit_values_count = count; units = u ∷ us; free_list = free }
      → (last_unit u us).front_index < (last_unit u us).end_index
      → PoppedBack
          record { unit_values_count = count; units = u ∷ us; free_list = free }
          (
            no_error,
            get_elem? (last_unit u us).values ((last_unit u us).end_index - 1),
            if has_more us && ltb ((last_unit u us).end_index - 1) 1
                then release
                    record { unit_values_count = count; units = u ∷ us; free_list = free }
                    (but_last u us)
                    (drop_end (last_unit u us))
                else with_units
                    record { unit_values_count = count; units = u ∷ us; free_list = free }
                    (but_last u us ++ drop_end (last_unit u us) ∷ []),
          )
  pop-last count u [] free (positive, chain, frees) n =
      let (v, value, split) = last_value count u [] chain n in
      rw (value) (
        found v (split ∙ ap (λ m. m ++ v ∷ []) (sym (all_held-end [] (drop_end u))))
          (positive, (omega arith, omega (arith, chain.1), chain.2), frees) refl)
  pop-last count u (w ∷ us) free (positive, chain, frees) n =
      let (v, value, split) = last_value count u (w ∷ us) chain n in
      let x = last_unit w us in
      let unit = last_unit-IsUnit count u (w ∷ us) chain in
      let follows = last_unit-FollowsIn count u (w ∷ us) chain in
      let before = but_last u (w ∷ us) in
      elim (Bool-cases (ltb (x.end_index - 1) 1)) [
        | inl emptied ↦
            let bounds : x.front_index ≡ x.end_index - 1 = ground (arith, follows.0) in
            let gone : held (drop_end x) ≡ [] =
              ap (λ i. slice x.values i (x.end_index - 1)) bounds
              ∙ slice-empty x.values (x.end_index - 1) in
            rw (value, emptied)
              (found v
                (split
                  ∙ ap (λ m. (all_held before ++ m) ++ v ∷ []) gone
                  ∙ ap (λ m. m ++ v ∷ []) (append-nil (all_held before)))
                (positive, remove_end count u w us chain, ((unit.2, tt), frees)) refl)
        | inr kept ↦
            rw (value, kept)
              (found v (split ∙ ap (λ m. m ++ v ∷ []) (sym (all_held-end before (drop_end x))))
                (
                  positive,
                  replace_end count u (w ∷ us) (drop_end x) chain
                      (omega arith, omega (arith, unit.1), unit.2) (follows.0, ground arith),
                  frees,
                )
                refl)
      ]

  pop-back-units :
      (count : ℕ) (units free : List (DeQueueUnit V))
      → IsDeQueue record { unit_values_count = count; units = units; free_list = free }
      → PoppedBack
          record { unit_values_count = count; units = units; free_list = free }
          (dequeue_pop record { unit_values_count = count; units = units; free_list = free })
  unfolding dequeue_pop
  pop-back-units count [] free p = absurd p.1
  pop-back-units count (u ∷ us) free p =
      elim (Bool-cases (leb (last_unit u us).end_index (last_unit u us).front_index)) [
        | inl empty ↦ rw (empty) (found_none (nothing us p.1 (ground arith)))
        | inr more ↦ rw (more) (pop-last count u us free p (ground arith))
      ]
    where
      nothing :
          (us : List (DeQueueUnit V))
          → IsChain count u us
          → (last_unit u us).end_index ≤ (last_unit u us).front_index
          → all_held (u ∷ us) ≡ []
      nothing [] q n =
          let same : u.front_index ≡ u.end_index = omega (arith, q.0) in
          ap (λ i. slice u.values i u.end_index ++ []) same
          ∙ ap (λ m. m ++ []) (slice-empty u.values u.end_index)
      nothing (w ∷ us) q n =
          let f = last_unit-FollowsIn count u (w ∷ us) q in absurd (omega (arith, f.0, f.1))

  -- On a well-formed queue deQueuePop takes the last of the values that the queue holds, and reports an
  -- error and changes nothing exactly when it holds none. The queue stays well-formed.
  pub dequeue_pop-contents : (dq : DeQueue V) → IsDeQueue dq → PoppedBack dq (dequeue_pop dq)
  dequeue_pop-contents dq p = pop-back-units dq.unit_values_count dq.units dq.free_list p
