-- ===== src/RbTree/Remove/Root.antt =====
-- removeFromRBTree: it ends, the tree stays balanced, and what a search finds changes at the key only.
use forfun.Prelude.{
  ℕ, suc, ◌+◌, ◌≤◌, ◌≡◌, refl, ◌∙◌, sym, ap, Bool, true, false, inl, inr, arith, none, subst,
}
use forfun.Comparator.{Comparator}
use forfun.RbTree.{Tree, leaf, node, search_rb_tree}
use forfun.RbTree.Depth.{size}
use forfun.RbTree.Flatten.{flatten, search_rb_tree-flatten}
use forfun.RbTree.SortedList.{delete, delete-IsSorted, find}
use forfun.RbTree.Search.{IsSearchTree, update, find-delete}
use forfun.RbTree.Balance.{Leaning, nil, red, black, almost, Either}
use forfun.RbTree.Growth.{IsBalanced}
use forfun.RbTree.Remove.{Run, done, ◌>>=◌, blacken, delete_rb_node, remove_from_rb_tree}
use forfun.RbTree.Remove.Shapes.{Removed, removed, Removed-bind, Removed-map}
use forfun.RbTree.Remove.Pairs.{Deletes, deletes, Deletes-same}
use forfun.RbTree.Remove.Descent.{descents}
use forfun.RbTree.Remove.Alike as Same
use forfun.RbTree.Remove.Alike.{delete_rb_node-Alike, AlikeRuns-blacken}

module _ {ℓ κ} {K : Type ℓ} {V : Type κ} (order : Comparator K) where
  abbrev Gone : K → Tree K V → Tree K V → Type (ℓ ⊔ κ)
  Gone q t t' = ((h : ℕ) × Leaning false h t') × Deletes order q t t'

  blacken-Either : {h : ℕ} {t : Tree K V} → Either h t → (i : ℕ) × Leaning false i (blacken t)
  blacken-Either {h = h} (inl (red x y)) = (suc h, black x y)
  blacken-Either (inr nil) = (0, nil)
  blacken-Either (inr (black {h = h} x y)) = (suc h, black x y)

  blacken-Deletes :
      {q : K} {t t' : Tree K V} → Deletes order q t t' → Deletes order q t (blacken t')
  blacken-Deletes {t' = leaf} p = p
  blacken-Deletes {t' = node c l k v r} (deletes e) = deletes e

  from_red :
      {h : ℕ} {t : Tree K V} (fuel : ℕ) (q : K)
      → Leaning true h t
      → IsSearchTree order t
      → size t ≤ fuel
      → Removed (Gone q t) (delete_rb_node order fuel t q >>= λ t'. done (blacken t'))
  from_red fuel q x s n =
      Removed-bind blacken ((descents order fuel).from_red q x s n)
        λ t' p. (blacken-Either p.0, blacken-Deletes p.1)

  from_black :
      {h : ℕ} {l r : Tree K V} {k : K} {v : V} (fuel : ℕ) (q : K)
      → Leaning true h l
      → Leaning false h r
      → IsSearchTree order (node false l k v r)
      → size l + size r + 1 ≤ fuel
      → Removed
          (Gone q (node false l k v r))
          (delete_rb_node order fuel (node false l k v r) q >>= λ t'. done (blacken t'))
  from_black {h = h} fuel q x y s n =
      Removed-bind blacken ((descents order fuel).from_black q x y s n)
        λ t' p. (blacken-Either (inr p.0), blacken-Deletes p.1)

  -- The colour of the root does not count.
  recolor :
      {c d : Bool} {l : Tree K V} {k : K} {v : V} {r : Tree K V} (fuel : ℕ) (q : K)
      → Removed
          (Gone q (node c l k v r))
          (delete_rb_node order fuel (node c l k v r) q >>= λ t'. done (blacken t'))
      → Removed
          (Gone q (node d l k v r))
          (delete_rb_node order fuel (node d l k v r) q >>= λ t'. done (blacken t'))
  recolor {c = c} {d = d} fuel q p =
      Removed-map
        (subst (Removed _) (AlikeRuns-blacken (delete_rb_node-Alike order fuel q (Same.some c d)))
          p)
        λ t' e. (e.0, Deletes-same order refl e.1)

  -- removeFromRBTree on a balanced search tree returns a tree: no assertion fails, and the number of
  -- nodes is enough fuel. The new tree is balanced with a black root, and its pairs are those of the
  -- old one without that of the key.
  pub remove_from_rb_tree-Removed :
      (t : Tree K V) (q : K)
      → IsSearchTree order t
      → IsBalanced t
      → Removed (Gone q t) (remove_from_rb_tree order t q)
  unfolding remove_from_rb_tree delete_rb_node delete
  remove_from_rb_tree-Removed leaf q s (h, inl nil) = removed ((0, nil), deletes refl)
  remove_from_rb_tree-Removed leaf q s (h, inr x) = elim x [ ]
  remove_from_rb_tree-Removed (node false l k v r) q s (h, inr x) = elim x [ ]
  remove_from_rb_tree-Removed (node true l k v r) q s (h, inl x) = elim x [ ]
  remove_from_rb_tree-Removed (node false l k v r) q s (h, inl (black {c = true} x y)) =
      from_black (size (node false l k v r)) q x y s (omega arith)
  remove_from_rb_tree-Removed (node false l k v r) q s (h, inl (black {c = false} x y)) =
      recolor (size (node false l k v r)) q
        (from_red (size (node true l k v r)) q (red x y) s (omega arith))
  remove_from_rb_tree-Removed (node true l k v r) q s (h, inr (almost {c = true} x y)) =
      recolor (size (node true l k v r)) q
        (from_black (size (node false l k v r)) q x y s (omega arith))
  remove_from_rb_tree-Removed (node true l k v r) q s (h, inr (almost {c = false} x y)) =
      from_red (size (node true l k v r)) q (red x y) s (omega arith)

  -- On a balanced search tree removeFromRBTree returns a tree, in which searchRBTree finds at every
  -- key what it found before, and nothing at the keys that are equal to the removed one. The new tree
  -- is a balanced search tree again.
  pub search-remove :
      (t : Tree K V) (q : K)
      → IsSearchTree order t
      → IsBalanced t
      → (t' : Tree K V) × (remove_from_rb_tree order t q ≡ done t')
        × ((p : K) → search_rb_tree order t' p ≡ update order (search_rb_tree order t) q none p)
        × IsSearchTree order t'
        × IsBalanced t'
  search-remove t q s b = found (remove_from_rb_tree-Removed t q s b)
    where
      found :
          {x : Run (Tree K V)}
          → Removed (Gone q t) x
          → (t' : Tree K V) × (x ≡ done t')
            × ((p : K) → search_rb_tree order t' p ≡ update order (search_rb_tree order t) q none p)
            × IsSearchTree order t'
            × IsBalanced t'
      found (removed {t = t'} ((h, x), deletes e)) =
          let s' : IsSearchTree order t' = rw (e) (delete-IsSorted order (flatten t) q s) in
          (t', refl, λ p. seen p t' e s', s', (h, inl x))
        where
          seen :
              (p : K) (t' : Tree K V)
              → flatten t' ≡ delete order (flatten t) q
              → IsSearchTree order t'
              → search_rb_tree order t' p ≡ update order (search_rb_tree order t) q none p
          seen p t' e s' =
              search_rb_tree-flatten order t' p s'
              ∙ ap (λ m. find order m p) e
              ∙ find-delete order (flatten t) q p s
              ∙ ap (λ x. update order (λ y. x) q none p) (sym (search_rb_tree-flatten order t p s))
