-- ===== src/RbTree/Growth.antt =====
-- Insertion keeps the tree balanced.
use forfun.Prelude.{ℕ, suc, Bool, true, false, ◌⊎◌, inl, inr}
use forfun.Comparator.{Comparator, Ordering-cases}
use forfun.RbTree
use forfun.RbTree.{Tree, leaf, node, insert_rb_node, insert_into_rb_tree}
use forfun.RbTree.Balance.{
  Leaning, nil, red, black, Almost, almost, Either, red_left, red_right, red_both, red-Almost,
  black-Almost, black_left, black_right,
}

module _ {ℓ κ} {K : Type ℓ} {V : Type κ} where
  -- A tree as insertions leave it: a left-leaning red-black tree with a black root, or a red root
  -- whose left child may be red.
  abbrev pub IsBalanced : Tree K V → Type (ℓ ⊔ κ)
  IsBalanced t = (h : ℕ) × (Leaning false h t ⊎ Almost h t)

  -- What an insertion makes of a tree below the root.
  abbrev Grown : Bool → ℕ → Tree K V → Type (ℓ ⊔ κ)
  Grown false h t = Either h t
  Grown true h t = Almost h t

  grow_red_left :
      {h : ℕ} {l r : Tree K V} (k : K) (v : V)
      → Either h l
      → Leaning false h r
      → Almost h (RbTree.balance (node true l k v r))
  grow_red_left k v (inl x) y = red_left k v x y
  grow_red_left k v (inr x) y = red_left k v x y

  grow_red_right :
      {h : ℕ} {l r : Tree K V} (k : K) (v : V)
      → Leaning false h l
      → Either h r
      → Almost h (RbTree.balance (node true l k v r))
  grow_red_right k v x (inl y) = red_right k v x y
  grow_red_right k v x (inr y) = red_left k v x y

  grow_black_left :
      (c : Bool) {h : ℕ} (l : Tree K V) {r : Tree K V} (k : K) (v : V)
      → Grown c h l
      → Leaning false h r
      → Either (suc h) (RbTree.balance (node false l k v r))
  grow_black_left true l k v x y = black-Almost k v x y
  grow_black_left false l k v (inl x) y = black_left k v x y
  grow_black_left false l k v (inr x) y = black_left k v x y

  grow_black_right :
      {c : Bool} {h : ℕ} {l r : Tree K V} (k : K) (v : V)
      → Leaning c h l
      → Either h r
      → Either (suc h) (RbTree.balance (node false l k v r))
  grow_black_right k v x (inl y) = black_right k v x y
  grow_black_right k v x (inr y) = black_left k v x y

  -- At a red root, whose left child may be red.
  grow_root_left :
      (c : Bool) {h : ℕ} (l : Tree K V) {r : Tree K V} (k : K) (v : V)
      → Grown c h l
      → Leaning false h r
      → IsBalanced (RbTree.balance (node true l k v r))
  grow_root_left true {h} l k v x y = elim (red-Almost k v x y) [
    | inl a ↦ (h, inr a)
    | inr b ↦ (suc (suc h), inl b)
  ]
  grow_root_left false {h} l k v x y = (h, inr (grow_red_left k v x y))

  grow_root_right :
      {c : Bool} {h : ℕ} {l r : Tree K V} (k : K) (v : V)
      → Leaning c h l
      → Either h r
      → IsBalanced (RbTree.balance (node true l k v r))
  grow_root_right {c = true} {h} k v x (inl y) = (suc (suc h), inl (red_both k v x y))
  grow_root_right {c = false} {h} k v x (inl y) = (h, inr (red_right k v x y))
  grow_root_right {h} k v x (inr y) = (h, inr (red_left k v x y))

  red→Almost : {h : ℕ} {t : Tree K V} → Leaning true h t → Almost h t
  red→Almost (red x y) = almost x y

module _ {ℓ κ} {K : Type ℓ} {V : Type κ} (order : Comparator K) (q : K) (w : V) where
  insert_rb_node-Leaning :
      {c : Bool} {h : ℕ} {t : Tree K V} → Leaning c h t → Grown c h (insert_rb_node order t q w)
  unfolding insert_rb_node
  insert_rb_node-Leaning nil = inl (red nil nil)
  insert_rb_node-Leaning (red {k = k} {v = v} x y) = elim (Ordering-cases (order.cmp q k)) [
    | inl e ↦ rw (e, insert_rb_node) (grow_red_left k v (insert_rb_node-Leaning x) y)
    | inr (inl e) ↦ rw (e, insert_rb_node) (red_left k w x y)
    | inr (inr e) ↦ rw (e, insert_rb_node) (grow_red_right k v x (insert_rb_node-Leaning y))
  ]
  insert_rb_node-Leaning (black {c = c} {k = k} {v = v} x y) =
      elim (Ordering-cases (order.cmp q k)) [
        | inl e ↦ rw (e, insert_rb_node) (grow_black_left c _ k v (insert_rb_node-Leaning x) y)
        | inr (inl e) ↦ rw (e, insert_rb_node) (black_left k w x y)
        | inr (inr e) ↦ rw (e, insert_rb_node) (grow_black_right k v x (insert_rb_node-Leaning y))
      ]

  insert_rb_node-Almost :
      {h : ℕ} {t : Tree K V} → Almost h t → IsBalanced (insert_rb_node order t q w)
  unfolding insert_rb_node
  insert_rb_node-Almost (almost {c = c} {h = h} {k = k} {v = v} x y) =
      elim (Ordering-cases (order.cmp q k)) [
        | inl e ↦ rw (e, insert_rb_node) (grow_root_left c _ k v (insert_rb_node-Leaning x) y)
        | inr (inl e) ↦ rw (e, insert_rb_node) (h, inr (red_left k w x y))
        | inr (inr e) ↦ rw (e, insert_rb_node) (grow_root_right k v x (insert_rb_node-Leaning y))
      ]

  -- insertRBNode keeps a balanced tree balanced.
  pub insert_rb_node-IsBalanced :
      (t : Tree K V) → IsBalanced t → IsBalanced (insert_rb_node order t q w)
  insert_rb_node-IsBalanced t (h, inl x) = elim (insert_rb_node-Leaning x) [
    | inl r ↦ (h, inr (red→Almost r))
    | inr b ↦ (h, inl b)
  ]
  insert_rb_node-IsBalanced t (h, inr a) = insert_rb_node-Almost a
