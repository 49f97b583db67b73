-- ===== src/DeQueue/PushFront.antt =====
-- deQueuePushFront on the values that the queue holds.
use forfun.Prelude.{
  ℕ, suc, ◌-◌, ◌<◌, ◌≡◌, refl, ◌∙◌, sym, ap, ltb, some, List, [], ◌∷◌, ◌++◌, length, arith,
  length-set, Bool-cases, inl, inr,
}
use forfun.DeQueue.{
  DeQueue, DeQueueUnit, DeQueueError, no_error, expand_dequeue, dequeue_push_front, put_front,
}
use forfun.DeQueue.Contents.{held, slice, slice-empty, slice-put_front}
use forfun.DeQueue.Chain.{IsUnit, IsChain, all_held}
use forfun.DeQueue.Ends.{IsDeQueue, contents, Frees, take_unit-IsNew}

module _ {ℓ} {V : Type ℓ} where
  abbrev HasEnd : List (DeQueueUnit V) → Type 0
  HasEnd [] = ⊥
  HasEnd (u ∷ us) = 0 < u.end_index

  -- The end of the first unit is not at its first place.
  abbrev pub CanPushFront : DeQueue V → Type 0
  CanPushFront dq = HasEnd dq.units

  pub record PushedFront (dq : DeQueue V) (v : V) (after : DeQueueError × DeQueue V) : Type ℓ where
    pub succeeds : after.0 ≡ no_error
    pub is_dequeue : IsDeQueue after.1
    pub can_push_front : CanPushFront after.1
    pub holds : contents after.1 ≡ v ∷ contents dq
    pub keeps_count : after.1.unit_values_count ≡ dq.unit_values_count

  put_front-IsChain :
      (count : ℕ) (u : DeQueueUnit V) (us : List (DeQueueUnit V)) (v : V)
      → IsChain count u us
      → IsChain count (put_front v u) us
  put_front-IsChain count u [] v (p0, p1, p2) =
      (omega arith, p1, length-set u.values (u.front_index - 1) v ∙ p2)
  put_front-IsChain count u (w ∷ us) v ((p0, p1, p2), q, e, f, rest) = (
    (omega arith, p1, length-set u.values (u.front_index - 1) v ∙ p2),
    omega (arith, q),
    e,
    f,
    rest,
  )

  held-put_front :
      (count : ℕ) (u : DeQueueUnit V) (v : V)
      → IsUnit count u
      → 0 < u.front_index
      → held (put_front v u) ≡ v ∷ held u
  held-put_front count u v (p0, p1, p2) n =
      let back : suc (u.front_index - 1) ≡ u.front_index = omega arith in
      slice-put_front u.values (u.front_index - 1) u.end_index v (omega arith) (rw (p2) p1)
      ∙ ap (λ i. v ∷ slice u.values i u.end_index) back

  push-new-front :
      (count : ℕ) (u : DeQueueUnit V) (us free rest : List (DeQueueUnit V)) (x : DeQueueUnit V)
      (v : V)
      → IsDeQueue record { unit_values_count = count; units = u ∷ us; free_list = free }
      → u.front_index ≡ 0
      → 0 < u.end_index
      → x.front_index ≡ count
      → x.end_index ≡ count
      → length x.values ≡ count
      → Frees count rest
      → PushedFront
          record { unit_values_count = count; units = u ∷ us; free_list = free }
          v
          (
            no_error,
            record { unit_values_count = count; units = put_front v x ∷ u ∷ us; free_list = rest },
          )
  push-new-front count u us free rest x v (positive, chain, frees) at_front more e0 e1 e2 f =
      let unit : IsUnit count x = (omega arith, omega arith, e2) in
      record {
        succeeds = refl;
        is_dequeue = (
          positive,
          (put_front-IsChain count x [] v unit, omega arith, e1, (at_front, more), chain),
          f,
        );
        can_push_front = omega arith;
        holds =
            ap (λ m. m ++ all_held (u ∷ us))
              (held-put_front count x v unit (omega arith)
                ∙ ap (λ i. v ∷ slice x.values i x.end_index) (e0 ∙ sym e1)
                ∙ ap (◌∷◌ v) (slice-empty x.values x.end_index));
        keeps_count = refl;
      }

  push-front-units :
      (count : ℕ) (units free : List (DeQueueUnit V)) (v : V) (memory : List V)
      → IsDeQueue record { unit_values_count = count; units = units; free_list = free }
      → HasEnd units
      → length memory ≡ count
      → PushedFront
          record { unit_values_count = count; units = units; free_list = free }
          v
          (dequeue_push_front
            record { unit_values_count = count; units = units; free_list = free }
            v
            (some memory))
  unfolding dequeue_push_front expand_dequeue
  push-front-units count [] free v memory p n m = absurd n
  push-front-units count (u ∷ us) free v memory p n m = elim (Bool-cases (ltb u.front_index 1)) [
    | inl full ↦
        let (x, rest, taken, new, frees) = take_unit-IsNew count memory free m p.2 in
        let moved : DeQueueUnit V = record {
          front_index = count;
          end_index = count;
          values = x.values;
        } in
        rw (full, expand_dequeue, taken)
          (push-new-front count u us free rest moved v p (ground arith) n refl refl new.2 frees)
    | inr room ↦ rw (room) record {
      succeeds = refl;
      is_dequeue = (p.0, put_front-IsChain count u us v p.1, p.2);
      can_push_front = n;
      holds =
          ap (λ m. m ++ all_held us) (held-put_front count u v (head-IsUnit us p.1) (ground arith));
      keeps_count = refl;
    }
  ]
    where
      head-IsUnit : (us : List (DeQueueUnit V)) → IsChain count u us → IsUnit count u
      head-IsUnit [] q = q
      head-IsUnit (w ∷ us) q = q.0

  -- On a well-formed queue whose first unit has not been emptied down to its first place, with memory
  -- for a unit, deQueuePushFront reports no error and adds the value before all others; the queue stays
  -- well-formed, and can be pushed to again at the front.
  pub dequeue_push_front-contents :
      (dq : DeQueue V) (v : V) (memory : List V)
      → IsDeQueue dq
      → CanPushFront dq
      → length memory ≡ dq.unit_values_count
      → PushedFront dq v (dequeue_push_front dq v (some memory))
  dequeue_push_front-contents dq v memory p n m =
      push-front-units dq.unit_values_count dq.units dq.free_list v memory p n m
