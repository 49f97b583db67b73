-- ===== src/RbTree/Search.antt =====
-- The tree as a map: what a search finds after an insertion.
use Prim.Native.Nat.Ordering.{eq}
use forfun.Prelude.{◌≡◌, Option, none, some, List, [], ◌∷◌, arith, true}
use forfun.Comparator.{Comparator}
use forfun.RbTree.{Tree, search_rb_tree, insert_rb_node, insert_into_rb_tree}
use forfun.RbTree.SortedList.{
  IsSorted, find, put, delete, put-IsSorted, find-Above, Above-trans, Above-same,
}
use forfun.RbTree.Flatten.{flatten, search_rb_tree-flatten, flatten-insert_rb_node}

module _ {ℓ κ} {K : Type ℓ} {V : Type κ} (order : Comparator K) where
  -- A tree whose keys ascend from left to right.
  abbrev pub IsSearchTree : Tree K V → Type 0
  IsSearchTree t = IsSorted order (flatten t)

  -- A map, changed at the keys that compare equal to one.
  abbrev pub update : (K → Option V) → K → Option V → K → Option V
  update f q w p = elim (order.cmp p q) [ eq ↦ w | _ ↦ f p ]

  pub find-put :
      (m : List (K × V)) (q : K) (w : V) (p : K)
      → IsSorted order m
      → find order (put order m q w) p ≡ update (find order m) q (some w) p
  unfolding find put
  find-put [] q w p s = ground arith
  find-put ((k, v) ∷ m) q w p s = ground (
    arith,
    find-put m q w p,
    order.cmp_flip p q,
    order.cmp_flip q k,
    order.cmp_flip p k,
    order.cmp_same p q k,
    order.cmp_same q k p,
    order.lt_trans p q k,
    order.lt_trans k q p,
    order.lt_trans q k p,
    order.lt_trans p k q,
  )

  pub find-delete :
      (m : List (K × V)) (q p : K)
      → IsSorted order m
      → find order (delete order m q) p ≡ update (find order m) q none p
  unfolding find delete
  find-delete [] q p s = ground arith
  find-delete ((k, v) ∷ m) q p s = ground (
    arith,
    find-delete m q p,
    find-Above order p m,
    find-Above order k m,
    Above-trans order p k m,
    Above-same order p k m,
    order.cmp_flip p q,
    order.cmp_flip q k,
    order.cmp_flip p k,
    order.cmp_same p q k,
    order.cmp_same q k p,
    order.cmp_same p q p,
    order.cmp_same k q p,
    order.lt_trans p q k,
    order.lt_trans k q p,
  )

  -- insertIntoRBTree keeps the keys in order.
  pub insert_rb_node-IsSearchTree :
      (t : Tree K V) (q : K) (w : V) → IsSearchTree t → IsSearchTree (insert_rb_node order t q w)
  insert_rb_node-IsSearchTree t q w s =
      rw (flatten-insert_rb_node order t q w s) (put-IsSorted order (flatten t) q w s)

  -- In a search tree insertIntoRBTree, given a node, changes what searchRBTree finds at the keys equal
  -- to the new one, which it maps to the new value, and nowhere else; the keys stay in order.
  pub search-insert :
      (t t' : Tree K V) (q : K) (w : V) (p : K)
      → IsSearchTree t
      → insert_into_rb_tree order true t q w ≡ some t'
      → (search_rb_tree order t' p ≡ update (search_rb_tree order t) q (some w) p) × IsSearchTree t'
  unfolding insert_into_rb_tree
  search-insert t t' q w p s e =
      let s' = insert_rb_node-IsSearchTree t q w s in
      let same : insert_rb_node order t q w ≡ t' = cc in
      rw (← same) (
        ground (
          arith,
          search_rb_tree-flatten order (insert_rb_node order t q w) p s',
          flatten-insert_rb_node order t q w s,
          find-put (flatten t) q w p s,
          search_rb_tree-flatten order t p s,
        ),
        s',
      )
