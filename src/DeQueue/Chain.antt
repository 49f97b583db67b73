-- ===== src/DeQueue/Chain.antt =====
-- The chains of units that the operations of base_dequeue.c keep, and how a chain changes at its end.
use forfun.Prelude.{ℕ, ◌≤◌, ◌<◌, ◌≡◌, refl, ◌∙◌, sym, ap, List, [], ◌∷◌, ◌++◌, length}
use mathlib.Core.List.{append_assoc, append-nil}
use forfun.DeQueue.{DeQueueUnit, last_unit, but_last}
use forfun.DeQueue.Contents.{held}

module _ {ℓ} {V : Type ℓ} where
  abbrev pub IsUnit : ℕ → DeQueueUnit V → Type 0
  IsUnit count u = (u.front_index ≤ u.end_index) × (u.end_index ≤ count) × (length u.values ≡ count)

  -- A unit behind another one starts at its first place and is not empty.
  abbrev pub Follows : DeQueueUnit V → Type 0
  Follows u = (u.front_index ≡ 0) × (0 < u.end_index)

  -- Only the first unit may start and only the last may end between its bounds. A unit that has a
  -- neighbour is not empty.
  abbrev pub IsChain : ℕ → DeQueueUnit V → List (DeQueueUnit V) → Type 0
  IsChain count u [] = IsUnit count u
  IsChain count u (w ∷ us) =
      IsUnit count u
      × (u.front_index < count)
      × (u.end_index ≡ count)
      × Follows w
      × IsChain count w us

  abbrev pub IsLive : ℕ → List (DeQueueUnit V) → Type 0
  IsLive count [] = ⊥
  IsLive count (u ∷ us) = IsChain count u us

  abbrev pub all_held : List (DeQueueUnit V) → List V
  all_held [] = []
  all_held (u ∷ us) = held u ++ all_held us

  -- What the chain asks of its last unit.
  abbrev pub FollowsIn : List (DeQueueUnit V) → DeQueueUnit V → Type 0
  FollowsIn [] x = Unit
  FollowsIn (w ∷ us) x = Follows x

  pub last_unit-IsUnit :
      (count : ℕ) (u : DeQueueUnit V) (us : List (DeQueueUnit V))
      → IsChain count u us
      → IsUnit count (last_unit u us)
  last_unit-IsUnit count u [] p = p
  last_unit-IsUnit count u (w ∷ us) p = last_unit-IsUnit count w us p.4

  pub last_unit-FollowsIn :
      (count : ℕ) (u : DeQueueUnit V) (us : List (DeQueueUnit V))
      → IsChain count u us
      → FollowsIn us (last_unit u us)
  last_unit-FollowsIn count u [] p = tt
  last_unit-FollowsIn count u (w ∷ []) p = p.3
  last_unit-FollowsIn count u (w ∷ x ∷ us) p = last_unit-FollowsIn count w (x ∷ us) p.4

  pub replace_end :
      (count : ℕ) (u : DeQueueUnit V) (us : List (DeQueueUnit V)) (x : DeQueueUnit V)
      → IsChain count u us
      → IsUnit count x
      → FollowsIn us x
      → IsLive count (but_last u us ++ x ∷ [])
  replace_end count u [] x p q f = q
  replace_end count u (w ∷ []) x p q f = (p.0, p.1, p.2, f, q)
  replace_end count u (w ∷ y ∷ us) x p q f =
      (p.0, p.1, p.2, p.3, replace_end count w (y ∷ us) x p.4 q f)

  pub append_end :
      (count : ℕ) (u : DeQueueUnit V) (us : List (DeQueueUnit V)) (x : DeQueueUnit V)
      → IsChain count u us
      → (last_unit u us).front_index < count
      → (last_unit u us).end_index ≡ count
      → IsUnit count x
      → Follows x
      → IsLive count (u ∷ us ++ x ∷ [])
  append_end count u [] x p n e q f = (p, n, e, f, q)
  append_end count u (w ∷ us) x p n e q f =
      (p.0, p.1, p.2, p.3, append_end count w us x p.4 n e q f)

  pub remove_end :
      (count : ℕ) (u w : DeQueueUnit V) (us : List (DeQueueUnit V))
      → IsChain count u (w ∷ us)
      → IsLive count (but_last u (w ∷ us))
  remove_end count u w [] p = p.0
  remove_end count u w (x ∷ us) p = (p.0, p.1, p.2, p.3, remove_end count w x us p.4)

  pub all_held-append :
      (us ws : List (DeQueueUnit V)) → all_held (us ++ ws) ≡ all_held us ++ all_held ws
  all_held-append [] ws = refl
  all_held-append (u ∷ us) ws =
      ap (λ x. held u ++ x) (all_held-append us ws)
      ∙ sym (append_assoc (held u) (all_held us) (all_held ws))

  pub all_held-end :
      (us : List (DeQueueUnit V)) (x : DeQueueUnit V)
      → all_held (us ++ x ∷ []) ≡ all_held us ++ held x
  all_held-end us x = all_held-append us (x ∷ []) ∙ ap (λ m. all_held us ++ m) (append-nil (held x))

  -- A chain is what stands before its last unit, and that unit.
  pub chain-split :
      (u : DeQueueUnit V) (us : List (DeQueueUnit V))
      → all_held (u ∷ us) ≡ all_held (but_last u us) ++ held (last_unit u us)
  chain-split u [] = append-nil (held u)
  chain-split u (w ∷ us) =
      ap (λ x. held u ++ x) (chain-split w us)
      ∙ sym (append_assoc (held u) (all_held (but_last w us)) (held (last_unit w us)))

  pub last_unit-append :
      (u : DeQueueUnit V) (us : List (DeQueueUnit V)) (x : DeQueueUnit V)
      → (last_unit u (us ++ x ∷ []) ≡ x) × (but_last u (us ++ x ∷ []) ≡ u ∷ us)
  last_unit-append u [] x = (refl, refl)
  last_unit-append u (w ∷ us) x = let (e, f) = last_unit-append w us x in (e, ap (◌∷◌ u) f)
