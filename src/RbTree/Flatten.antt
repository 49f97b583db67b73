-- ===== src/RbTree/Flatten.antt =====
-- The pairs of a tree from left to right: every rearrangement of nodes keeps them, an insertion
-- changes them as it changes the sorted list, and a search finds what the list holds.
use Prim.Native.Nat.Ordering.{lt, eq, gt}
use mathlib.Core.List.{append_assoc}
use forfun.Prelude.{
  ◌≡◌, refl, sym, ◌∙◌, Bool, true, false, not, ◌&&◌, if◌then◌else◌, List, [], ◌∷◌, ◌++◌, arith, ◌⊎◌,
}
use forfun.Comparator.{Comparator}
use forfun.RbTree.{
  Tree, leaf, node, toggle, rotate_left, rotate_right, color_flip, lean_left, lean_right,
  split_four, balance, search_rb_tree, insert_rb_node, left_is_red, right_is_red, left_left_is_red,
}
use forfun.RbTree.SortedList.{Below, IsSorted, find, put, IsSorted-split}

module _ {ℓ κ} {K : Type ℓ} {V : Type κ} where
  abbrev pub flatten : Tree K V → List (K × V)
  flatten leaf = []
  flatten (node red l k v r) = flatten l ++ (k, v) ∷ flatten r

  pub flatten-toggle : (t : Tree K V) → flatten (toggle t) ≡ flatten t
  flatten-toggle leaf = refl
  flatten-toggle (node red l k v r) = refl

  pub flatten-color_flip : (t : Tree K V) → flatten (color_flip t) ≡ flatten t
  unfolding color_flip
  flatten-color_flip leaf = refl
  flatten-color_flip (node red l k v r) = rw (flatten-toggle l, flatten-toggle r) refl

  pub flatten-rotate_left : (t : Tree K V) → flatten (rotate_left t) ≡ flatten t
  unfolding rotate_left
  flatten-rotate_left leaf = refl
  flatten-rotate_left (node red l k v leaf) = refl
  flatten-rotate_left (node red l k v (node _ rl rk rv rr)) =
      append_assoc (flatten l) ((k, v) ∷ flatten rl) ((rk, rv) ∷ flatten rr)

  pub flatten-rotate_right : (t : Tree K V) → flatten (rotate_right t) ≡ flatten t
  unfolding rotate_right
  flatten-rotate_right leaf = refl
  flatten-rotate_right (node red leaf k v r) = refl
  flatten-rotate_right (node red (node _ ll lk lv lr) k v r) =
      sym (append_assoc (flatten ll) ((lk, lv) ∷ flatten lr) ((k, v) ∷ flatten r))

  -- A step that is taken or not.
  pub flatten-if :
      (b : Bool) (t u : Tree K V) → flatten u ≡ flatten t → flatten (if b then u else t) ≡ flatten t
  flatten-if true t u e = e
  flatten-if false t u e = refl

  pub flatten-lean_left : (t : Tree K V) → flatten (lean_left t) ≡ flatten t
  unfolding lean_left
  flatten-lean_left t =
      flatten-if (not (left_is_red t) && right_is_red t) t (rotate_left t) (flatten-rotate_left t)

  pub flatten-lean_right : (t : Tree K V) → flatten (lean_right t) ≡ flatten t
  unfolding lean_right
  flatten-lean_right t = flatten-if (left_left_is_red t) t (rotate_right t) (flatten-rotate_right t)

  pub flatten-split_four : (t : Tree K V) → flatten (split_four t) ≡ flatten t
  unfolding split_four
  flatten-split_four t =
      flatten-if (left_is_red t && right_is_red t) t (color_flip t) (flatten-color_flip t)

  pub flatten-balance : (t : Tree K V) → flatten (balance t) ≡ flatten t
  unfolding balance
  flatten-balance t =
      flatten-split_four (lean_right (lean_left t))
      ∙ flatten-lean_right (lean_left t)
      ∙ flatten-lean_left t

module _ {ℓ κ} {K : Type ℓ} {V : Type κ} (order : Comparator K) where
  -- A key that compares below or equal to the root of a list's end leaves what stands there.
  put-left :
      (l : List (K × V)) (k : K) (v : V) (r : List (K × V)) (q : K) (w : V)
      → order.cmp q k ≡ lt
      → put order (l ++ (k, v) ∷ r) q w ≡ put order l q w ++ (k, v) ∷ r
  unfolding put
  put-left [] k v r q w h = rw (h, put) refl
  put-left ((j, u) ∷ l) k v r q w h = ground (arith, put-left l k v r q w h)

  -- A key at the root or behind it is past all that stands before.
  put-right :
      (l : List (K × V)) (k : K) (m : List (K × V)) (q : K) (w : V)
      → Below order k l
      → ((order.cmp q k ≡ eq) ⊎ (order.cmp q k ≡ gt))
      → put order (l ++ m) q w ≡ l ++ put order m q w
  unfolding put
  put-right [] k m q w b h = refl
  put-right ((j, u) ∷ l) k m q w b h = ground (
    arith,
    put-right l k m q w b.1 h,
    order.cmp_flip q j,
    order.cmp_flip j k,
    order.cmp_flip q k,
    order.cmp_same q k j,
    order.lt_trans j k q b.0,
  )

  find-left :
      (l : List (K × V)) (k : K) (v : V) (r : List (K × V)) (q : K)
      → order.cmp q k ≡ lt
      → find order (l ++ (k, v) ∷ r) q ≡ find order l q
  unfolding find
  find-left [] k v r q h = rw (h, find) refl
  find-left ((j, u) ∷ l) k v r q h = ground (arith, find-left l k v r q h)

  find-right :
      (l : List (K × V)) (k : K) (m : List (K × V)) (q : K)
      → Below order k l
      → ((order.cmp q k ≡ eq) ⊎ (order.cmp q k ≡ gt))
      → find order (l ++ m) q ≡ find order m q
  unfolding find
  find-right [] k m q b h = refl
  find-right ((j, u) ∷ l) k m q b h = ground (
    arith,
    find-right l k m q b.1 h,
    order.cmp_flip q j,
    order.cmp_flip j k,
    order.cmp_flip q k,
    order.cmp_same q k j,
    order.lt_trans j k q b.0,
  )

  -- searchRBTree finds in a sorted tree what the list of its pairs holds.
  pub search_rb_tree-flatten :
      (t : Tree K V) (q : K)
      → IsSorted order (flatten t)
      → search_rb_tree order t q ≡ find order (flatten t) q
  unfolding search_rb_tree find
  search_rb_tree-flatten leaf q s = refl
  search_rb_tree-flatten (node red l k v r) q s =
      let (left, below, above, right) = IsSorted-split order (flatten l) k v (flatten r) s in
      ground (
        arith,
        search_rb_tree-flatten l q left,
        search_rb_tree-flatten r q right,
        find-left (flatten l) k v (flatten r) q,
        find-right (flatten l) k ((k, v) ∷ flatten r) q below,
      )

  -- insertRBNode changes the pairs of a sorted tree as the specification does.
  pub flatten-insert_rb_node :
      (t : Tree K V) (q : K) (w : V)
      → IsSorted order (flatten t)
      → flatten (insert_rb_node order t q w) ≡ put order (flatten t) q w
  unfolding insert_rb_node put
  flatten-insert_rb_node leaf q w s = refl
  flatten-insert_rb_node (node red l k v r) q w s =
      let (left, below, above, right) = IsSorted-split order (flatten l) k v (flatten r) s in
      ground (
        arith,
        flatten-insert_rb_node l q w left,
        flatten-insert_rb_node r q w right,
        flatten-balance (node red l k w r),
        flatten-balance (node red (insert_rb_node order l q w) k v r),
        flatten-balance (node red l k v (insert_rb_node order r q w)),
        put-left (flatten l) k v (flatten r) q w,
        put-right (flatten l) k ((k, v) ∷ flatten r) q w below,
      )
