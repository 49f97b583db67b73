-- ===== src/DeQueue/Contents.antt =====
-- The values between the two indices of a unit, and what a write or a step of an index does to them.
use forfun.Prelude.{
  ℕ, zero, suc, ◌≤◌, ◌<◌, ◌≡◌, refl, ap, some, List, [], ◌∷◌, ◌++◌, set, get_elem?, length, arith,
}
use forfun.DeQueue.{DeQueueUnit}

module _ {ℓ} {V : Type ℓ} where
  abbrev pub slice : List V → ℕ → ℕ → List V
  slice [] front end = []
  slice (x ∷ xs) zero zero = []
  slice (x ∷ xs) zero (suc end) = x ∷ slice xs zero end
  slice (x ∷ xs) (suc front) zero = []
  slice (x ∷ xs) (suc front) (suc end) = slice xs front end

  abbrev pub held : DeQueueUnit V → List V
  held u = slice u.values u.front_index u.end_index

  pub slice-empty : (xs : List V) (i : ℕ) → slice xs i i ≡ []
  slice-empty [] i = refl
  slice-empty (x ∷ xs) zero = refl
  slice-empty (x ∷ xs) (suc i) = slice-empty xs i

  pub slice-put_end :
      (xs : List V) (front end : ℕ) (v : V)
      → front ≤ end
      → end < length xs
      → slice (set xs end v) front (suc end) ≡ slice xs front end ++ v ∷ []
  slice-put_end [] front end v n m = absurd (omega arith)
  slice-put_end (x ∷ xs) zero zero v n m = empty xs
    where
      empty : (xs : List V) → v ∷ slice xs 0 0 ≡ v ∷ []
      empty xs = ap (◌∷◌ v) (slice-empty xs 0)
  slice-put_end (x ∷ xs) zero (suc end) v n m =
      ap (◌∷◌ x) (slice-put_end xs 0 end v (omega arith) (omega arith))
  slice-put_end (x ∷ xs) (suc front) zero v n m = absurd (omega arith)
  slice-put_end (x ∷ xs) (suc front) (suc end) v n m =
      slice-put_end xs front end v (omega arith) (omega arith)

  pub slice-put_front :
      (xs : List V) (front end : ℕ) (v : V)
      → front < end
      → end ≤ length xs
      → slice (set xs front v) front end ≡ v ∷ slice xs (suc front) end
  slice-put_front [] front end v n m = absurd (omega arith)
  slice-put_front (x ∷ xs) front zero v n m = absurd (omega arith)
  slice-put_front (x ∷ xs) zero (suc end) v n m = refl
  slice-put_front (x ∷ xs) (suc front) (suc end) v n m =
      slice-put_front xs front end v (omega arith) (omega arith)

  -- A slice that is not empty, from its front and from its end.
  pub slice-front :
      (xs : List V) (front end : ℕ)
      → front < end
      → end ≤ length xs
      → (v : V) × (get_elem? xs front ≡ some v)
        × (slice xs front end ≡ v ∷ slice xs (suc front) end)
  slice-front [] front end n m = absurd (omega arith)
  slice-front (x ∷ xs) front zero n m = absurd (omega arith)
  slice-front (x ∷ xs) zero (suc end) n m = (x, refl, refl)
  slice-front (x ∷ xs) (suc front) (suc end) n m =
      slice-front xs front end (omega arith) (omega arith)

  pub slice-end :
      (xs : List V) (front end : ℕ)
      → front ≤ end
      → end < length xs
      → (v : V) × (get_elem? xs end ≡ some v)
        × (slice xs front (suc end) ≡ slice xs front end ++ v ∷ [])
  slice-end [] front end n m = absurd (omega arith)
  slice-end (x ∷ xs) zero zero n m = (x, refl, ap (◌∷◌ x) (slice-empty xs 0))
  slice-end (x ∷ xs) zero (suc end) n m =
      let (v, e, f) = slice-end xs 0 end (omega arith) (omega arith) in (v, e, ap (◌∷◌ x) f)
  slice-end (x ∷ xs) (suc front) zero n m = absurd (omega arith)
  slice-end (x ∷ xs) (suc front) (suc end) n m = slice-end xs front end (omega arith) (omega arith)
