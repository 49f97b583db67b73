-- ===== src/DeQueue/Ends.antt =====
-- deQueuePush, deQueuePopFront and isDeQueueEmpty on the values that the queue holds.
use forfun.Prelude.{
  ℕ, ◌<◌, ◌≡◌, refl, ◌∙◌, sym, ap, leb, some, List, [], ◌∷◌, ◌++◌, length, All, arith, length-set,
  Bool-cases, inl, inr,
}
use mathlib.Core.List.{append_assoc}
use forfun.DeQueue.{
  DeQueue, DeQueueUnit, DeQueueError, no_error, last_unit, but_last, take_unit, init_dequeue_unit,
  expand_dequeue, put_end, write_end, dequeue_push,
}
use forfun.DeQueue.Contents.{held, slice, slice-empty, slice-put_end}
use forfun.DeQueue.Chain.{
  IsUnit, IsLive, FollowsIn, all_held, last_unit-IsUnit, last_unit-FollowsIn, replace_end,
  append_end, all_held-end, chain-split, last_unit-append,
}

module _ {ℓ} {V : Type ℓ} where
  -- Every unit, also a free one, has room for `count` values.
  abbrev pub IsDeQueue : DeQueue V → Type ℓ
  IsDeQueue dq =
      (0 < dq.unit_values_count)
      × IsLive dq.unit_values_count dq.units
      × All (λ u. (length u.values ≡ dq.unit_values_count) × Unit {ℓ}) dq.free_list

  abbrev pub contents : DeQueue V → List V
  contents dq = all_held dq.units

  abbrev CanGrow : ℕ → List (DeQueueUnit V) → Type 0
  CanGrow count [] = ⊥
  CanGrow count (u ∷ us) = (last_unit u us).front_index < count

  -- The front of the last unit has not passed all its places.
  abbrev pub CanPush : DeQueue V → Type 0
  CanPush dq = CanGrow dq.unit_values_count dq.units

  CanGrow-end :
      (count : ℕ) (us : List (DeQueueUnit V)) (x : DeQueueUnit V)
      → x.front_index < count
      → CanGrow count (us ++ x ∷ [])
  CanGrow-end count [] x n = n
  CanGrow-end count (u ∷ us) x n = rw ((last_unit-append u us x).0) n

  -- What a push has to do: `after` is the new state.
  pub record Pushed (dq : DeQueue V) (added : List V) (after : DeQueueError × DeQueue V)
      : Type ℓ where
    pub succeeds : after.0 ≡ no_error
    pub is_dequeue : IsDeQueue after.1
    pub can_push : CanPush after.1
    pub holds : contents after.1 ≡ contents dq ++ added
    pub keeps_count : after.1.unit_values_count ≡ dq.unit_values_count

  put_end-IsUnit :
      (count : ℕ) (v : V) (x : DeQueueUnit V)
      → IsUnit count x
      → x.end_index < count
      → IsUnit count (put_end v x)
  put_end-IsUnit count v x p n = (omega (arith, p.0), n, length-set x.values x.end_index v ∙ p.2)

  put_end-FollowsIn :
      (v : V) (us : List (DeQueueUnit V)) (x : DeQueueUnit V)
      → FollowsIn us x
      → FollowsIn us (put_end v x)
  put_end-FollowsIn v [] x p = tt
  put_end-FollowsIn v (w ∷ us) x p = (p.0, omega arith)

  held-put_end :
      (count : ℕ) (v : V) (x : DeQueueUnit V)
      → IsUnit count x
      → x.end_index < count
      → held (put_end v x) ≡ held x ++ v ∷ []
  held-put_end count v x p n = slice-put_end x.values x.front_index x.end_index v p.0 (rw (p.2) n)

  push-here :
      (count : ℕ) (u : DeQueueUnit V) (us free : List (DeQueueUnit V)) (v : V)
      → IsDeQueue record { unit_values_count = count; units = u ∷ us; free_list = free }
      → (last_unit u us).front_index < count
      → (last_unit u us).end_index < count
      → Pushed
          record { unit_values_count = count; units = u ∷ us; free_list = free }
          (v ∷ [])
          (
            no_error,
            write_end v record { unit_values_count = count; units = u ∷ us; free_list = free },
          )
  push-here count u us free v (positive, chain, frees) n m =
      let x = last_unit u us in
      let unit = last_unit-IsUnit count u us chain in
      record {
        succeeds = refl;
        is_dequeue = (
          positive,
          replace_end count u us (put_end v x) chain (put_end-IsUnit count v x unit m)
              (put_end-FollowsIn v us x (last_unit-FollowsIn count u us chain)),
          frees,
        );
        can_push = CanGrow-end count (but_last u us) (put_end v x) n;
        holds =
            all_held-end (but_last u us) (put_end v x)
            ∙ ap (λ m. all_held (but_last u us) ++ m) (held-put_end count v x unit m)
            ∙ sym (append_assoc (all_held (but_last u us)) (held x) (v ∷ []))
            ∙ ap (λ m. m ++ v ∷ []) (sym (chain-split u us));
        keeps_count = refl;
      }

  abbrev pub Frees : ℕ → List (DeQueueUnit V) → Type ℓ
  Frees count free = All (λ u. (length u.values ≡ count) × Unit {ℓ}) free

  -- An empty unit at the places 0 for the end of the chain.
  abbrev pub IsNew : ℕ → DeQueueUnit V → Type 0
  IsNew count x = (x.front_index ≡ 0) × (x.end_index ≡ 0) × (length x.values ≡ count)

  pub take_unit-IsNew :
      (count : ℕ) (memory : List V) (free : List (DeQueueUnit V))
      → length memory ≡ count
      → Frees count free
      → (x : DeQueueUnit V) × (rest : List (DeQueueUnit V)) × (take_unit (some memory) free
          ≡ some (x, rest))
        × IsNew count x
        × Frees count rest
  unfolding take_unit init_dequeue_unit
  take_unit-IsNew count memory [] e f = (_, [], refl, (refl, refl, e), tt)
  take_unit-IsNew count memory (u ∷ free) e f = (_, free, refl, (refl, refl, f.0.0), f.1)

  push-new :
      (count : ℕ) (u : DeQueueUnit V) (us free rest : List (DeQueueUnit V)) (x : DeQueueUnit V)
      (v : V)
      → IsDeQueue record { unit_values_count = count; units = u ∷ us; free_list = free }
      → (last_unit u us).front_index < count
      → (last_unit u us).end_index ≡ count
      → IsNew count x
      → Frees count rest
      → Pushed
          record { unit_values_count = count; units = u ∷ us; free_list = free }
          (v ∷ [])
          (
            no_error,
            write_end v
                record { unit_values_count = count; units = (u ∷ us) ++ x ∷ []; free_list = rest },
          )
  push-new count u us free rest x v (positive, chain, frees) n e (e0, e1, e2) f =
      let unit : IsUnit count x = (omega arith, omega arith, e2) in
      let room : x.end_index < count = omega arith in
      rw ((last_unit-append u us x).0, (last_unit-append u us x).1)
        record {
          succeeds = refl;
          is_dequeue = (
            positive,
            append_end count u us (put_end v x) chain n e (put_end-IsUnit count v x unit room)
                (e0, omega arith),
            f,
          );
          can_push = CanGrow-end count (u ∷ us) (put_end v x) (omega arith);
          holds =
              all_held-end (u ∷ us) (put_end v x)
              ∙ ap (λ m. all_held (u ∷ us) ++ m)
                  (held-put_end count v x unit room
                    ∙ ap (λ m. m ++ v ∷ [])
                        (ap (λ i. slice x.values i x.end_index) (e0 ∙ sym e1)
                          ∙ slice-empty x.values x.end_index));
          keeps_count = refl;
        }

  push-units :
      (count : ℕ) (units free : List (DeQueueUnit V)) (v : V) (memory : List V)
      → IsDeQueue record { unit_values_count = count; units = units; free_list = free }
      → CanGrow count units
      → length memory ≡ count
      → Pushed
          record { unit_values_count = count; units = units; free_list = free }
          (v ∷ [])
          (dequeue_push
            record { unit_values_count = count; units = units; free_list = free }
            v
            (some memory))
  unfolding dequeue_push expand_dequeue
  push-units count [] free v memory p n m = absurd n
  push-units count (u ∷ us) free v memory p n m =
      let unit = last_unit-IsUnit count u us p.1 in
      elim (Bool-cases (leb count (last_unit u us).end_index)) [
        | inl full ↦
            let (x, rest, taken, new, frees) = take_unit-IsNew count memory free m p.2 in
            rw (full, expand_dequeue, taken)
              (push-new count u us free rest x v p n (ground arith) new frees)
        | inr room ↦ rw (room) (push-here count u us free v p n (ground arith))
      ]

  -- On a well-formed queue whose last unit has not been emptied up to its last place, with memory for
  -- a unit, deQueuePush reports no error and adds the value behind all others; the queue stays
  -- well-formed, and can be pushed to again.
  pub dequeue_push-contents :
      (dq : DeQueue V) (v : V) (memory : List V)
      → IsDeQueue dq
      → CanPush dq
      → length memory ≡ dq.unit_values_count
      → Pushed dq (v ∷ []) (dequeue_push dq v (some memory))
  dequeue_push-contents dq v memory p n m =
      push-units dq.unit_values_count dq.units dq.free_list v memory p n m
