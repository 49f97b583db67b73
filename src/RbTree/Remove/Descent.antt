-- ===== src/RbTree/Remove/Descent.antt =====
-- deleteRBNode from a black node, and the induction that joins all its branches.
use Prim.Native.Nat.Ordering.{eq, gt}
use forfun.Prelude.{
  ℕ, zero, suc, ◌+◌, ◌≤◌, ◌≡◌, refl, true, false, inl, inr, ◌⊎◌, ◌∷◌, ◌++◌, arith, subst,
}
use forfun.Comparator.{Comparator, Ordering-cases}
use forfun.RbTree.{Tree, node, rotate_right}
use forfun.RbTree.Depth.{size}
use forfun.RbTree.Flatten.{flatten}
use forfun.RbTree.SortedList.{IsSorted, IsSorted-split}
use forfun.RbTree.Balance.{Leaning, nil, red, black, Either}
use forfun.RbTree.Remove.{delete_min, delete_rb_node, get_min, delete_right, is_key}
use forfun.RbTree.Remove.Shapes.{fix_black_right, Removed-bind}
use forfun.RbTree.Remove.Minimum.{settle, delete_min-red}
use forfun.RbTree.Remove.Pairs.{Deletes-left, Deletes-right, Deletes-min, Deletes-turn, turn}
use forfun.RbTree.Remove.Node.{IsSearch, Result, Descents, above, red-left}
use forfun.RbTree.Remove.Right.{red-right}

module _ {ℓ κ} {K : Type ℓ} {V : Type κ} (order : Comparator K) where
  turned :
      (fuel : ℕ) (a b r : Tree K V) (j : K) (u : V) (k : K) (v : V) (q : K)
      → ((order.cmp q k ≡ eq) ⊎ (order.cmp q k ≡ gt))
      → delete_rb_node order (suc fuel) (node false (node true a j u b) k v r) q
        ≡ delete_right order q
            (delete_min fuel)
            (λ t. delete_rb_node order fuel t q)
            (node false a j u (node true b k v r))
  unfolding delete_rb_node rotate_right
  turned fuel a b r j u k v q (inl h) = rw (h, delete_rb_node) refl
  turned fuel a b r j u k v q (inr h) = rw (h, delete_rb_node) refl

  black-node :
      (fuel : ℕ) {h : ℕ} {l r : Tree K V} {k : K} {v : V} (q : K)
      → Descents V order fuel
      → Leaning true h l
      → Leaning false h r
      → IsSearch order (node false l k v r)
      → size l + size r ≤ fuel
      → Result order (Leaning false (suc h)) (suc fuel) (node false l k v r) q
  unfolding delete_rb_node rotate_right
  black-node fuel {r = r} {k = k} {v = v} q ds (red {l = a} {r = b} {k = j} {v = u} x z) y s n =
      let parts = IsSorted-split order (flatten a ++ (j, u) ∷ flatten b) k v _ s in
      elim (Ordering-cases (order.cmp q k)) [
        | inl h ↦
            rw (h, delete_rb_node)
              (Removed-bind _ (ds.from_red q (red x z) parts.0 (omega arith))
                λ t p. (settle k v p.0 y, Deletes-left order h p.1))
        | inr h ↦
            rw
              (
                turned fuel a b r j u k v q h,
                above order (flatten a) j u (flatten b) k v (flatten r) q s h,
                is_key,
              )
              (let up = above order (flatten a) j u (flatten b) k v (flatten r) q s h in
                let sorted =
                  subst (IsSorted order) (turn (flatten a) (j, u) (flatten b) (k, v) (flatten r))
                    s in
                let parts' = IsSorted-split order (flatten a) j u _ sorted in
                Removed-bind _ (ds.from_red q (red z y) parts'.3 (omega arith)) λ t p. (
                  fix_black_right j u x p.0,
                  Deletes-turn order refl refl (Deletes-right order parts'.1 up p.1),
                ))
      ]

  bridge :
      (fuel : ℕ) {h : ℕ} {l r : Tree K V} {k : K} {v : V} (q : K)
      → Descents V order fuel
      → Leaning false h l
      → Leaning true h r
      → IsSearch order (node false l k v r)
      → size l + size r ≤ fuel
      → ((order.cmp q k ≡ eq) ⊎ (order.cmp q k ≡ gt))
      → Result order (Leaning false (suc h)) (suc fuel) (node false l k v r) q
  unfolding delete_rb_node get_min
  bridge fuel {l = l} {k = k} {v = v} q ds nil (red c d) s n (inl h) =
      let parts = IsSorted-split order (flatten l) k v _ s in
      rw (h, delete_rb_node, delete_right, is_key, h)
        (Removed-bind _ (delete_min-red fuel (red c d) (omega arith))
          λ t p. (fix_black_right _ _ nil p.0, Deletes-min order parts.1 h p.1))
  bridge fuel {l = l} {k = k} {v = v} q ds nil (red c d) s n (inr h) =
      let parts = IsSorted-split order (flatten l) k v _ s in
      rw (h, delete_rb_node, delete_right, is_key, h)
        (Removed-bind _ (ds.from_red q (red c d) parts.3 (omega arith))
          λ t p. (fix_black_right _ _ nil p.0, Deletes-right order parts.1 h p.1))
  bridge fuel {l = l} {k = k} {v = v} q ds (black a1 a2) (red c d) s n (inl h) =
      let parts = IsSorted-split order (flatten l) k v _ s in
      rw (h, delete_rb_node, delete_right, is_key, h)
        (Removed-bind _ (delete_min-red fuel (red c d) (omega arith))
          λ t p. (fix_black_right _ _ (black a1 a2) p.0, Deletes-min order parts.1 h p.1))
  bridge fuel {l = l} {k = k} {v = v} q ds (black a1 a2) (red c d) s n (inr h) =
      let parts = IsSorted-split order (flatten l) k v _ s in
      rw (h, delete_rb_node, delete_right, is_key, h)
        (Removed-bind _ (ds.from_red q (red c d) parts.3 (omega arith))
          λ t p. (fix_black_right _ _ (black a1 a2) p.0, Deletes-right order parts.1 h p.1))

  red-node :
      (fuel : ℕ) {h : ℕ} {t : Tree K V} (q : K)
      → Descents V order fuel
      → Leaning true h t
      → IsSearch order t
      → size t ≤ suc fuel
      → Result order (Either h) (suc fuel) t q
  red-node fuel q ds (red {k = k} x y) s n = elim (Ordering-cases (order.cmp q k)) [
    | inl h ↦ red-left order fuel q ds x y s (omega arith) h
    | inr h ↦ red-right order fuel q ds x y s (omega arith) h
  ]

  pub descents : (fuel : ℕ) → Descents V order fuel
  descents zero = record {
    from_red = λ {h} {t} q x s n. absurd (none x n);
    from_black = λ {h} {l} {r} {k} {v} q x y s n. absurd (omega arith);
    from_bridge = λ {h} {l} {r} {k} {v} q x y s n e. absurd (omega arith);
  }
    where
      none : {h : ℕ} {t : Tree K V} → Leaning true h t → size t ≤ 0 → ⊥
      none (red x y) n = omega arith
  descents (suc fuel) = record {
    from_red = λ {h} {t} q x s n. red-node fuel q (descents fuel) x s n;
    from_black =
        λ {h} {l} {r} {k} {v} q x y s n. black-node fuel q (descents fuel) x y s (omega arith);
    from_bridge =
        λ {h} {l} {r} {k} {v} q x y s n e. bridge fuel q (descents fuel) x y s (omega arith) e;
  }
