-- ===== src/RbTree/Remove/Node.antt =====
-- deleteRBNode of a key on the left of a node. The induction of all its branches is `Descents`: what
-- the deletions with less fuel do.
use Prim.Native.Nat.Ordering.{lt, eq, gt}
use forfun.Prelude.{
  ℕ, suc, ◌+◌, ◌≤◌, ◌≡◌, refl, sym, true, false, inl, ◌⊎◌, List, [], ◌∷◌, ◌++◌, arith, subst,
}
use forfun.Comparator.{Comparator}
use forfun.RbTree.{Tree, node, rotate_left, rotate_right, color_flip}
use forfun.RbTree.Depth.{size}
use forfun.RbTree.Flatten.{flatten}
use forfun.RbTree.SortedList.{Below, Above, IsSorted, IsSorted-split, delete}
use forfun.RbTree.Balance.{Leaning, nil, red, black, Either}
use forfun.RbTree.Remove.{move_red_left, delete_rb_node}
use forfun.RbTree.Remove.Shapes.{fix_red, fix_black-Either, Removed, removed, Removed-bind}
use forfun.RbTree.Remove.Pairs.{
  Deletes, deletes, Deletes-left, Deletes-same, Deletes-move, move, turn,
}

module _ {ℓ κ} {K : Type ℓ} {V : Type κ} (order : Comparator K) where
  abbrev pub IsSearch : Tree K V → Type 0
  IsSearch t = IsSorted order (flatten t)

  pub above :
      (a : List (K × V)) (i : K) (u : V) (b : List (K × V)) (j : K) (v : V) (c : List (K × V))
      (q : K)
      → IsSorted order ((a ++ (i, u) ∷ b) ++ (j, v) ∷ c)
      → ((order.cmp q j ≡ eq) ⊎ (order.cmp q j ≡ gt))
      → order.cmp q i ≡ gt
  above a i u b j v c q s h =
      let sorted = subst (IsSorted order) (turn a (i, u) b (j, v) c) s in
      let (s1, s2, s3, s4) = IsSorted-split order a i u (b ++ (j, v) ∷ c) sorted in after b s3
    where
      after : (b : List (K × V)) → Above order i (b ++ (j, v) ∷ c) → order.cmp q i ≡ gt
      after [] p = ground (
        arith,
        p.0,
        order.cmp_flip i q,
        order.cmp_flip q j,
        order.cmp_flip i j,
        order.cmp_same q j i,
        order.lt_trans i j q,
      )
      after (x ∷ b) p = after b p.1

  within :
      (a : List (K × V)) (i : K) (u : V) (b : List (K × V)) (j : K) (q : K)
      → Below order j (a ++ (i, u) ∷ b)
      → order.cmp q i ≡ lt
      → order.cmp q j ≡ lt
  within [] i u b j q p h = order.lt_trans q i j h p.0
  within (x ∷ a) i u b j q p h = within a i u b j q p.1 h

  abbrev pub Result : (Tree K V → Type (ℓ ⊔ κ)) → ℕ → Tree K V → K → Type (ℓ ⊔ κ)
  Result P fuel t q = Removed (λ t'. P t' × Deletes order q t t') (delete_rb_node order fuel t q)

-- The deletion from a red node, from a black one with a red left child, and, of a key that is not on
-- the left, from a black one with a red right child.
pub record Descents {ℓ κ} {K : Type ℓ} (V : Type κ) (order : Comparator K) (fuel : ℕ)
    : Type (ℓ ⊔ κ) where
  pub from_red :
      {h : ℕ} {t : Tree K V} (q : K)
      → Leaning true h t
      → IsSearch order t
      → size t ≤ fuel
      → Result order (Either h) fuel t q
  pub from_black :
      {h : ℕ} {l r : Tree K V} {k : K} {v : V} (q : K)
      → Leaning true h l
      → Leaning false h r
      → IsSearch order (node false l k v r)
      → size l + size r + 1 ≤ fuel
      → Result order (Leaning false (suc h)) fuel (node false l k v r) q
  pub from_bridge :
      {h : ℕ} {l r : Tree K V} {k : K} {v : V} (q : K)
      → Leaning false h l
      → Leaning true h r
      → IsSearch order (node false l k v r)
      → size l + size r + 1 ≤ fuel
      → ((order.cmp q k ≡ eq) ⊎ (order.cmp q k ≡ gt))
      → Result order (Leaning false (suc h)) fuel (node false l k v r) q

module _ {ℓ κ} {K : Type ℓ} {V : Type κ} (order : Comparator K) where
  -- moveRedLeft with a red grandchild on the right: `l` and `r1` are below the new root's left child.
  regrouped :
      (l : List (K × V)) (k : K) (v : V) (a : List (K × V)) (j : K) (u : V) (b c : List (K × V))
      (i : K) (w : V) {q : K}
      → IsSorted order (l ++ (k, v) ∷ ((a ++ (j, u) ∷ b) ++ (i, w) ∷ c))
      → order.cmp q k ≡ lt
      → IsSorted order (l ++ (k, v) ∷ a) × (order.cmp q j ≡ lt)
  regrouped l k v a j u b c i w {q} s h =
      let s' = subst (IsSorted order) (sym (move l (k, v) a (j, u) b (i, w) c)) s in
      let parts = IsSorted-split order (l ++ (k, v) ∷ a) j u (b ++ (i, w) ∷ c) s' in
      (parts.0, within order l k v a j q parts.1 h)

  pub red-left :
      (fuel : ℕ) {h : ℕ} {l r : Tree K V} {k : K} {v : V} (q : K)
      → Descents V order fuel
      → Leaning false h l
      → Leaning false h r
      → IsSearch order (node true l k v r)
      → size l + size r ≤ fuel
      → order.cmp q k ≡ lt
      → Result order (Either h) (suc fuel) (node true l k v r) q
  unfolding delete_rb_node move_red_left rotate_left rotate_right color_flip delete
  red-left fuel {k = k} {v = v} q ds nil nil s n h =
      rw (h, delete_rb_node)
        (removed (inl (fix_red k v nil nil), Deletes-left order h (deletes refl)))
  red-left fuel {k = k} {v = v} q ds (black {l = a} {r = b} {k = j} {v = u} (red c d) x) y s n h =
      let parts = IsSorted-split order (flatten a ++ (j, u) ∷ flatten b) k v _ s in
      rw (h, delete_rb_node)
        (Removed-bind _ (ds.from_black q (red c d) x parts.0 (omega arith))
          λ t p. (inl (fix_red k v p.0 y), Deletes-left order h p.1))
  red-left fuel {k = k} {v = v} q ds (black {l = a} {r = b} {k = j} {v = u} nil x) (black nil y) s n
        h =
      let parts = IsSorted-split order (flatten a ++ (j, u) ∷ flatten b) k v _ s in
      rw (h, delete_rb_node)
        (Removed-bind _ (ds.from_red q (red nil x) parts.0 (omega arith)) λ t p. (
          fix_black-Either k v p.0 (inl (red nil y)),
          Deletes-same order refl (Deletes-left order h p.1),
        ))
  red-left fuel {k = k} {v = v} q ds (black {l = a} {r = b} {k = j} {v = u} nil x)
        (black {r = r} {k = i} {v = w} (red {l = al} {r = ar} {k = m} {v = z} e f) g) s n h =
      let here =
        regrouped (flatten a ++ (j, u) ∷ flatten b) k v (flatten al) m z (flatten ar) (flatten r) i
          w s h in
      rw (h, delete_rb_node)
        (Removed-bind _ (ds.from_black q (red nil x) e here.0 (omega arith)) λ t p.
          (inl (fix_red m z p.0 (black f g)), Deletes-move order (Deletes-left order here.1 p.1)))
  red-left fuel {k = k} {v = v} q ds (black {l = a} {r = b} {k = j} {v = u} (black a1 a2) x)
        (black (black c1 c2) y) s n h =
      let parts = IsSorted-split order (flatten a ++ (j, u) ∷ flatten b) k v _ s in
      rw (h, delete_rb_node)
        (Removed-bind _ (ds.from_red q (red (black a1 a2) x) parts.0 (omega arith)) λ t p. (
          fix_black-Either k v p.0 (inl (red (black c1 c2) y)),
          Deletes-same order refl (Deletes-left order h p.1),
        ))
  red-left fuel {k = k} {v = v} q ds (black {l = a} {r = b} {k = j} {v = u} (black a1 a2) x)
        (black {r = r} {k = i} {v = w} (red {l = al} {r = ar} {k = m} {v = z} e f) g) s n h =
      let here =
        regrouped (flatten a ++ (j, u) ∷ flatten b) k v (flatten al) m z (flatten ar) (flatten r) i
          w s h in
      rw (h, delete_rb_node)
        (Removed-bind _ (ds.from_black q (red (black a1 a2) x) e here.0 (omega arith)) λ t p.
          (inl (fix_red m z p.0 (black f g)), Deletes-move order (Deletes-left order here.1 p.1)))
