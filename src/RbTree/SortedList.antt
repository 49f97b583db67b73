-- ===== src/RbTree/SortedList.antt =====
-- The specification of the tree: a list of pairs in ascending order of keys, with the map that it
-- stands for.
use Prim.Native.Nat.Ordering.{lt, eq, gt}
use forfun.Prelude.{◌≡◌, refl, ◌∙◌, Option, none, some, List, [], ◌∷◌, ◌++◌, arith}
use forfun.Comparator.{Comparator}

module _ {ℓ κ} {K : Type ℓ} {V : Type κ} (order : Comparator K) where
  abbrev pub Below : K → List (K × V) → Type 0
  Below b [] = Unit
  Below b ((k, v) ∷ m) = (order.cmp k b ≡ lt) × Below b m

  abbrev pub Above : K → List (K × V) → Type 0
  Above b [] = Unit
  Above b ((k, v) ∷ m) = (order.cmp b k ≡ lt) × Above b m

  abbrev pub IsSorted : List (K × V) → Type 0
  IsSorted [] = Unit
  IsSorted ((k, v) ∷ m) = Above k m × IsSorted m

  unfoldable pub find : List (K × V) → K → Option V
  find [] q = none
  find ((k, v) ∷ m) q =
      let rest = find m q in elim (order.cmp q k) [ lt ↦ none | eq ↦ some v | gt ↦ rest ]

  -- An equal key keeps its place and takes the new value.
  unfoldable pub put : List (K × V) → K → V → List (K × V)
  put [] q w = (q, w) ∷ []
  put ((k, v) ∷ m) q w =
      let rest = put m q w in
      elim (order.cmp q k) [ lt ↦ (q, w) ∷ (k, v) ∷ m | eq ↦ (k, w) ∷ m | gt ↦ (k, v) ∷ rest ]

  unfoldable pub delete : List (K × V) → K → List (K × V)
  delete [] q = []
  delete ((k, v) ∷ m) q =
      let rest = delete m q in
      elim (order.cmp q k) [ lt ↦ (k, v) ∷ m | eq ↦ m | gt ↦ (k, v) ∷ rest ]

module _ {ℓ κ} {K : Type ℓ} {V : Type κ} (order : Comparator K) where
  pub Above-trans :
      (a b : K) (m : List (K × V)) → order.cmp a b ≡ lt → Above order b m → Above order a m
  Above-trans a b [] h p = tt
  Above-trans a b ((k, v) ∷ m) h p = (order.lt_trans a b k h p.0, Above-trans a b m h p.1)

  pub Above-same :
      (a b : K) (m : List (K × V)) → order.cmp a b ≡ eq → Above order b m → Above order a m
  Above-same a b [] h p = tt
  Above-same a b ((k, v) ∷ m) h p = (order.cmp_same a b k h ∙ p.0, Above-same a b m h p.1)

  pub IsSorted-split :
      (l : List (K × V)) (k : K) (v : V) (r : List (K × V))
      → IsSorted order (l ++ (k, v) ∷ r)
      → IsSorted order l × Below order k l × Above order k r × IsSorted order r
  IsSorted-split [] k v r s = (tt, tt, s.0, s.1)
  IsSorted-split ((j, u) ∷ l) k v r s =
      let (left, below, above, right) = IsSorted-split l k v r s.1 in
      let parts = Above-split j l k v r s.0 in ((parts.0, left), (parts.1, below), above, right)
    where
      Above-split :
          (j : K) (l : List (K × V)) (k : K) (v : V) (r : List (K × V))
          → Above order j (l ++ (k, v) ∷ r)
          → Above order j l × (order.cmp j k ≡ lt)
      Above-split j [] k v r s = (tt, s.0)
      Above-split j ((i, u) ∷ l) k v r s =
          let rest = Above-split j l k v r s.1 in ((s.0, rest.0), rest.1)

  -- What stands above a lower bound is past every key up to the bound.
  pub find-Above : (q : K) (m : List (K × V)) → Above order q m → find order m q ≡ none
  unfolding find
  find-Above q [] p = refl
  find-Above q ((k, v) ∷ m) p = rw (p.0, find) refl

  pub Above-put :
      (b q : K) (w : V) (m : List (K × V))
      → order.cmp b q ≡ lt
      → Above order b m
      → Above order b (put order m q w)
  unfolding put
  Above-put b q w [] h p = (h, tt)
  Above-put b q w ((k, v) ∷ m) h p = ground (arith, Above-put b q w m)

  pub put-IsSorted :
      (m : List (K × V)) (q : K) (w : V) → IsSorted order m → IsSorted order (put order m q w)
  unfolding put
  put-IsSorted [] q w s = (tt, tt)
  put-IsSorted ((k, v) ∷ m) q w s =
      ground (arith, put-IsSorted m q w, Above-put k q w m, Above-trans q k m, order.cmp_flip q k)

  pub Above-delete :
      (b q : K) (m : List (K × V)) → Above order b m → Above order b (delete order m q)
  unfolding delete
  Above-delete b q [] p = tt
  Above-delete b q ((k, v) ∷ m) p = ground (arith, Above-delete b q m)

  pub delete-IsSorted :
      (m : List (K × V)) (q : K) → IsSorted order m → IsSorted order (delete order m q)
  unfolding delete
  delete-IsSorted [] q s = tt
  delete-IsSorted ((k, v) ∷ m) q s = ground (arith, delete-IsSorted m q, Above-delete k q m)
