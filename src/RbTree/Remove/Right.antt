-- ===== src/RbTree/Remove/Right.antt =====
-- deleteRBNode of a key that is not on the left of a node, and from a black node.
use Prim.Native.Nat.Ordering.{eq, gt}
use forfun.Prelude.{ℕ, suc, ◌+◌, ◌≤◌, ◌≡◌, refl, true, false, inl, inr, ◌⊎◌, arith, subst}
use forfun.Comparator.{Comparator}
use forfun.RbTree.{Tree, node, rotate_right, color_flip}
use forfun.RbTree.Depth.{size}
use forfun.RbTree.Flatten.{flatten}
use forfun.RbTree.SortedList.{IsSorted, IsSorted-split, delete}
use forfun.RbTree.Balance.{Leaning, nil, red, black, Either}
use forfun.RbTree.Remove.{move_red_right, delete_rb_node, get_min, delete_right, is_key}
use forfun.RbTree.Remove.Shapes.{fix_red, fix_black-Either, removed, Removed-bind}
use forfun.RbTree.Remove.Minimum.{delete_min-red, delete_min-black}
use forfun.RbTree.Remove.Pairs.{
  deletes, Deletes-right, Deletes-min, Deletes-same, Deletes-turn, turn,
}
use forfun.RbTree.Remove.Node.{IsSearch, Result, Descents, above}

module _ {ℓ κ} {K : Type ℓ} {V : Type κ} (order : Comparator K) where
  pub red-right :
      (fuel : ℕ) {h : ℕ} {l r : Tree K V} {k : K} {v : V} (q : K)
      → Descents V order fuel
      → Leaning false h l
      → Leaning false h r
      → IsSearch order (node true l k v r)
      → size l + size r ≤ fuel
      → ((order.cmp q k ≡ eq) ⊎ (order.cmp q k ≡ gt))
      → Result order (Either h) (suc fuel) (node true l k v r) q
  unfolding delete_rb_node move_red_right rotate_right color_flip delete get_min
  red-right fuel {k = k} {v = v} q ds nil nil s n (inl h) =
      rw (h, delete_rb_node, delete_right, is_key, h)
        (removed (inr nil, deletes (rw (h, delete) refl)))
  red-right fuel {k = k} {v = v} q ds nil nil s n (inr h) =
      rw (h, delete_rb_node, delete_right, is_key, h)
        (removed (inl (fix_red k v nil nil), Deletes-right order tt h (deletes refl)))
  red-right fuel {l = l} {k = k} {v = v} q ds (black x1 x2)
        (black {r = b} {k = i} {v = w} (red c d) y) s n (inl h) =
      let parts = IsSorted-split order (flatten l) k v _ s in
      rw (h, delete_rb_node, delete_right, is_key, h)
        (Removed-bind _ (delete_min-black fuel i w (red c d) y (omega arith))
          λ t p. (inl (fix_red _ _ (black x1 x2) p.0), Deletes-min order parts.1 h p.1))
  red-right fuel {l = l} {k = k} {v = v} q ds (black x1 x2)
        (black {r = b} {k = i} {v = w} (red c d) y) s n (inr h) =
      let parts = IsSorted-split order (flatten l) k v _ s in
      rw (h, delete_rb_node, delete_right, is_key, h)
        (Removed-bind _ (ds.from_black q (red c d) y parts.3 (omega arith))
          λ t p. (inl (fix_red _ _ (black x1 x2) p.0), Deletes-right order parts.1 h p.1))
  red-right fuel {l = l} {k = k} {v = v} q ds (black nil x) (black nil y) s n (inl h) =
      let parts = IsSorted-split order (flatten l) k v _ s in
      rw (h, delete_rb_node, delete_right, is_key, h)
        (Removed-bind _ (delete_min-red fuel (red nil y) (omega arith)) λ t p. (
          fix_black-Either _ _ (inl (red nil x)) p.0,
          Deletes-same order refl (Deletes-min order parts.1 h p.1),
        ))
  red-right fuel {l = l} {k = k} {v = v} q ds (black nil x) (black nil y) s n (inr h) =
      let parts = IsSorted-split order (flatten l) k v _ s in
      rw (h, delete_rb_node, delete_right, is_key, h)
        (Removed-bind _ (ds.from_red q (red nil y) parts.3 (omega arith)) λ t p. (
          fix_black-Either _ _ (inl (red nil x)) p.0,
          Deletes-same order refl (Deletes-right order parts.1 h p.1),
        ))
  red-right fuel {l = l} {k = k} {v = v} q ds (black (black a1 a2) x) (black (black c1 c2) y) s n
        (inl h) =
      let parts = IsSorted-split order (flatten l) k v _ s in
      rw (h, delete_rb_node, delete_right, is_key, h)
        (Removed-bind _ (delete_min-red fuel (red (black c1 c2) y) (omega arith)) λ t p. (
          fix_black-Either _ _ (inl (red (black a1 a2) x)) p.0,
          Deletes-same order refl (Deletes-min order parts.1 h p.1),
        ))
  red-right fuel {l = l} {k = k} {v = v} q ds (black (black a1 a2) x) (black (black c1 c2) y) s n
        (inr h) =
      let parts = IsSorted-split order (flatten l) k v _ s in
      rw (h, delete_rb_node, delete_right, is_key, h)
        (Removed-bind _ (ds.from_red q (red (black c1 c2) y) parts.3 (omega arith)) λ t p. (
          fix_black-Either _ _ (inl (red (black a1 a2) x)) p.0,
          Deletes-same order refl (Deletes-right order parts.1 h p.1),
        ))
  red-right fuel {l = l} {r = r} {k = k} {v = v} q ds
        (black {l = a} {r = b} {k = j} {v = u} (red a1 a2) x) (black nil y) s n (inl h) =
      let up = above order (flatten a) j u (flatten b) k v (flatten r) q s (inl h) in
      let sorted =
        subst (IsSorted order) (turn (flatten a) (j, u) (flatten b) (k, v) (flatten r)) s in
      let parts = IsSorted-split order (flatten a) j u _ sorted in
      rw (h, delete_rb_node, delete_right, is_key, h, up)
        (Removed-bind _ (ds.from_bridge q x (red nil y) parts.3 (omega arith) (inl h)) λ t p. (
          inl (fix_red _ _ (black a1 a2) p.0),
          Deletes-turn order refl refl (Deletes-right order parts.1 up p.1),
        ))
  red-right fuel {l = l} {r = r} {k = k} {v = v} q ds
        (black {l = a} {r = b} {k = j} {v = u} (red a1 a2) x) (black nil y) s n (inr h) =
      let up = above order (flatten a) j u (flatten b) k v (flatten r) q s (inr h) in
      let sorted =
        subst (IsSorted order) (turn (flatten a) (j, u) (flatten b) (k, v) (flatten r)) s in
      let parts = IsSorted-split order (flatten a) j u _ sorted in
      rw (h, delete_rb_node, delete_right, is_key, h, up)
        (Removed-bind _ (ds.from_bridge q x (red nil y) parts.3 (omega arith) (inr h)) λ t p. (
          inl (fix_red _ _ (black a1 a2) p.0),
          Deletes-turn order refl refl (Deletes-right order parts.1 up p.1),
        ))
  red-right fuel {l = l} {r = r} {k = k} {v = v} q ds
        (black {l = a} {r = b} {k = j} {v = u} (red a1 a2) x) (black (black c1 c2) y) s n (inl h) =
      let up = above order (flatten a) j u (flatten b) k v (flatten r) q s (inl h) in
      let sorted =
        subst (IsSorted order) (turn (flatten a) (j, u) (flatten b) (k, v) (flatten r)) s in
      let parts = IsSorted-split order (flatten a) j u _ sorted in
      rw (h, delete_rb_node, delete_right, is_key, h, up)
        (Removed-bind _ (ds.from_bridge q x (red (black c1 c2) y) parts.3 (omega arith) (inl h))
          λ t p. (
            inl (fix_red _ _ (black a1 a2) p.0),
            Deletes-turn order refl refl (Deletes-right order parts.1 up p.1),
          ))
  red-right fuel {l = l} {r = r} {k = k} {v = v} q ds
        (black {l = a} {r = b} {k = j} {v = u} (red a1 a2) x) (black (black c1 c2) y) s n (inr h) =
      let up = above order (flatten a) j u (flatten b) k v (flatten r) q s (inr h) in
      let sorted =
        subst (IsSorted order) (turn (flatten a) (j, u) (flatten b) (k, v) (flatten r)) s in
      let parts = IsSorted-split order (flatten a) j u _ sorted in
      rw (h, delete_rb_node, delete_right, is_key, h, up)
        (Removed-bind _ (ds.from_bridge q x (red (black c1 c2) y) parts.3 (omega arith) (inr h))
          λ t p. (
            inl (fix_red _ _ (black a1 a2) p.0),
            Deletes-turn order refl refl (Deletes-right order parts.1 up p.1),
          ))
