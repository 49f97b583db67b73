-- ===== src/RbTree.antt =====
-- src/base/rbtree.c: a left-leaning red-black tree.
--
-- A tree is the value that its nodes hold; `leaf` is NULL. The code reuses a node in place and no
-- other pointer to it is kept, so a function that changes a node returns the changed tree. The
-- nodes' allocator is not part of this file.
pub mod SortedList
pub mod Flatten
pub mod Search
pub mod Balance
pub mod Growth
pub mod Depth
pub mod Remove
mod Tests
use Prim.Native.Nat.Ordering.{lt, eq, gt}
use forfun.Prelude.{
  ℕ, zero, suc, ◌+◌, Bool, true, false, not, ◌&&◌, Option, none, some, if◌then◌else◌,
}
use forfun.Comparator.{Comparator}

-- `struct rb_node`, behind a pointer.
pub data Tree {ℓ κ} (K : Type ℓ) (V : Type κ) : Type (ℓ ⊔ κ) where
  leaf : Tree K V
  node : Bool → Tree K V → K → V → Tree K V → Tree K V

module _ {ℓ κ} {K : Type ℓ} {V : Type κ} where
  -- IS_RED
  abbrev pub is_red : Tree K V → Bool
  is_red leaf = false
  is_red (node red l k v r) = red

  abbrev pub left_is_red : Tree K V → Bool
  left_is_red leaf = false
  left_is_red (node red l k v r) = is_red l

  abbrev pub right_is_red : Tree K V → Bool
  right_is_red leaf = false
  right_is_red (node red l k v r) = is_red r

  -- IS_RED(node_p->left_p) && IS_RED(node_p->left_p->left_p)
  abbrev pub left_left_is_red : Tree K V → Bool
  left_left_is_red leaf = false
  left_left_is_red (node red l k v r) = is_red l && left_is_red l

  -- The assertion that the right child is there holds at each call: it has been tested.
  unfoldable pub rotate_left : Tree K V → Tree K V
  rotate_left (node red l k v (node right_red rl rk rv rr)) = node red (node true l k v rl) rk rv rr
  rotate_left t = t

  unfoldable pub rotate_right : Tree K V → Tree K V
  rotate_right (node red (node left_red ll lk lv lr) k v r) = node red ll lk lv (node true lr k v r)
  rotate_right t = t

  abbrev pub toggle : Tree K V → Tree K V
  toggle leaf = leaf
  toggle (node red l k v r) = node (not red) l k v r

  unfoldable pub color_flip : Tree K V → Tree K V
  color_flip leaf = leaf
  color_flip (node red l k v r) = node (not red) (toggle l) k v (toggle r)

  -- The three steps behind an insertion; a step applies to the node that the one before returns.
  unfoldable pub lean_left : Tree K V → Tree K V
  lean_left t = if not (left_is_red t) && right_is_red t then rotate_left t else t

  unfoldable pub lean_right : Tree K V → Tree K V
  lean_right t = if left_left_is_red t then rotate_right t else t

  unfoldable pub split_four : Tree K V → Tree K V
  split_four t = if left_is_red t && right_is_red t then color_flip t else t

  unfoldable pub balance : Tree K V → Tree K V
  balance t = split_four (lean_right (lean_left t))

  -- The node that allocRBNode has initialised, with its key and value.
  abbrev pub new_node : K → V → Tree K V
  new_node k v = node true leaf k v leaf

module _ {ℓ κ} {K : Type ℓ} {V : Type κ} (order : Comparator K) where
  -- The loop of searchRBTree walks down one branch; the value found is the result.
  unfoldable pub search_rb_tree : Tree K V → K → Option V
  search_rb_tree leaf q = none
  search_rb_tree (node red l k v r) q = elim (order.cmp q k) [
    | lt ↦ search_rb_tree l q
    | gt ↦ search_rb_tree r q
    | eq ↦ some v
  ]

  -- insertRBNode without USE_234_TREE. An equal key keeps its node and takes the new value.
  unfoldable pub insert_rb_node : Tree K V → K → V → Tree K V
  insert_rb_node leaf q w = new_node q w
  insert_rb_node (node red l k v r) q w = elim (order.cmp q k) [
    | eq ↦ balance (node red l k w r)
    | lt ↦ balance (node red (insert_rb_node l q w) k v r)
    | gt ↦ balance (node red l k v (insert_rb_node r q w))
  ]

  -- insertIntoRBTree; `allocated` is whether allocRBNode returned a node. `none` is the error.
  unfoldable pub insert_into_rb_tree : Bool → Tree K V → K → V → Option (Tree K V)
  insert_into_rb_tree allocated t q w = if allocated then some (insert_rb_node t q w) else none
