-- ===== src/RbTree/Remove.antt =====
-- The deletions of src/base/rbtree.c. A function that descends changes the node first, so its
-- recursion runs on fuel; the number of nodes is enough.
pub mod Shapes
pub mod Minimum
pub mod Pairs
pub mod Node
pub mod Right
pub mod Descent
pub mod Alike
pub mod Root
use Prim.Native.Nat.Ordering.{lt, eq, gt}
use forfun.Prelude.{ℕ, zero, suc, Bool, true, false, not, ◌&&◌, if◌then◌else◌}
use forfun.Comparator.{Comparator}
use forfun.RbTree.{
  Tree, leaf, node, is_red, left_is_red, right_is_red, rotate_left, rotate_right, color_flip,
  lean_right, split_four,
}
use forfun.RbTree.Depth.{size}

-- A result, a failed assertion, or the model's fuel running out.
pub data Run {ℓ} (A : Type ℓ) : Type ℓ where
  done : A → Run A
  assertion_failed : Run A
  out_of_fuel : Run A

infixl 5 ◌>>=◌
abbrev pub ◌>>=◌ {ℓ κ} : {A : Type ℓ} {B : Type κ} → Run A → (A → Run B) → Run B
done a >>= f = f a
assertion_failed >>= f = assertion_failed
out_of_fuel >>= f = out_of_fuel

module _ {ℓ κ} {K : Type ℓ} {V : Type κ} where
  abbrev pub is_null : Tree K V → Bool
  is_null leaf = true
  is_null (node red l k v r) = false

  abbrev pub right_left_is_red : Tree K V → Bool
  right_left_is_red leaf = false
  right_left_is_red (node red l k v r) = left_is_red r

  -- fixUp
  unfoldable pub turn_left : Tree K V → Tree K V
  turn_left t = if right_is_red t then rotate_left t else t

  unfoldable pub fix_up : Tree K V → Tree K V
  fix_up t = split_four (lean_right (turn_left t))

  -- node_p->right_p = rotateRight(node_p->right_p)
  abbrev pub rotate_right_child : Tree K V → Tree K V
  rotate_right_child leaf = leaf
  rotate_right_child (node red l k v r) = node red l k v (rotate_right r)

  unfoldable pub move_red_left : Tree K V → Tree K V
  move_red_left t =
      let t' = color_flip t in
      if right_left_is_red t' then color_flip (rotate_left (rotate_right_child t')) else t'

  abbrev pub has_both : Tree K V → Bool
  has_both leaf = false
  has_both (node red l k v r) = not (is_null l) && not (is_null r)

  abbrev pub second_left_is_red : Tree K V → Bool
  second_left_is_red leaf = false
  second_left_is_red (node red l k v r) = left_is_red l

  unfoldable pub move_red_right : Tree K V → Tree K V
  move_red_right t =
      let t' = color_flip t in
      if has_both t then (if second_left_is_red t' then color_flip (rotate_right t') else t') else t

  -- getMin of a node; the default is for NULL, at which it is not called.
  unfoldable pub get_min : Tree K V → K → V → K × V
  get_min leaf k v = (k, v)
  get_min (node red l k' v' r) k v = get_min l k' v'

  -- The descent of deleteMin to the left child, whose new value `rest` computes.
  abbrev pub on_left : (Tree K V → Run (Tree K V)) → Tree K V → Run (Tree K V)
  on_left rest leaf = out_of_fuel
  on_left rest (node red l k v r) = rest l >>= λ l'. done (fix_up (node red l' k v r))

  abbrev pub on_right : (Tree K V → Run (Tree K V)) → Tree K V → Run (Tree K V)
  on_right rest leaf = out_of_fuel
  on_right rest (node red l k v r) = rest r >>= λ r'. done (fix_up (node red l k v r'))

  unfoldable pub delete_min : ℕ → Tree K V → Run (Tree K V)
  delete_min zero t = out_of_fuel
  delete_min (suc fuel) leaf = assertion_failed
  delete_min (suc fuel) (node red leaf k v r) = done leaf
  delete_min (suc fuel) (node red (node left_red ll lk lv lr) k v r) = on_left (delete_min fuel) (
      if not left_red && not (is_red ll)
      then move_red_left (node red (node left_red ll lk lv lr) k v r)
      else node red (node left_red ll lk lv lr) k v r)

  -- The node takes the key and value of the least node on its right, which goes.
  abbrev pub replace_by_min : (Tree K V → Run (Tree K V)) → Tree K V → Run (Tree K V)
  replace_by_min rest leaf = out_of_fuel
  replace_by_min rest (node red l k v r) =
      let (mk, mv) = get_min r k v in rest r >>= λ r'. done (fix_up (node red l mk mv r'))

  abbrev pub make_left_ready : Tree K V → Tree K V
  make_left_ready leaf = leaf
  make_left_ready (node red l k v r) =
      if not (is_null l) && (not (is_red l) && not (left_is_red l))
      then move_red_left (node red l k v r)
      else node red l k v r

  abbrev pub make_right_ready : Tree K V → Tree K V
  make_right_ready leaf = leaf
  make_right_ready (node red l k v r) =
      if not (is_red r) && not (left_is_red r)
      then move_red_right (node red l k v r)
      else node red l k v r

  abbrev pub blacken : Tree K V → Tree K V
  blacken leaf = leaf
  blacken (node red l k v r) = node false l k v r

module _ {ℓ κ} {K : Type ℓ} {V : Type κ} (order : Comparator K) where
  abbrev pub is_key : K → Tree K V → Bool
  is_key q leaf = false
  is_key q (node red l k v r) = elim (order.cmp q k) [ eq ↦ true | _ ↦ false ]

  -- The `else` of deleteRBNode, behind its rotation: `minimum` and `rest` are the two descents.
  abbrev pub delete_right :
      K → (Tree K V → Run (Tree K V)) → (Tree K V → Run (Tree K V)) → Tree K V → Run (Tree K V)
  delete_right q minimum rest leaf = out_of_fuel
  delete_right q minimum rest (node red l k v r) =
      if is_key q (node red l k v r) && is_null r
      then (if is_null l then done leaf else assertion_failed)
      else if is_null r
      then done (fix_up (node red l k v r))
      else (let t = make_right_ready (node red l k v r) in
          if is_key q t then replace_by_min minimum t else on_right rest t)

  unfoldable pub delete_rb_node : ℕ → Tree K V → K → Run (Tree K V)
  delete_rb_node fuel leaf q = done leaf
  delete_rb_node zero (node red l k v r) q = out_of_fuel
  delete_rb_node (suc fuel) (node red l k v r) q = elim (order.cmp q k) [
    | lt ↦ on_left (λ t. delete_rb_node fuel t q) (make_left_ready (node red l k v r))
    | _ ↦
        delete_right q (delete_min fuel) (λ t. delete_rb_node fuel t q)
          (if is_red l then rotate_right (node red l k v r) else node red l k v r)
  ]

  unfoldable pub remove_from_rb_tree : Tree K V → K → Run (Tree K V)
  remove_from_rb_tree t q = delete_rb_node (size t) t q >>= λ t'. done (blacken t')
