-- ===== src/RbTree/Depth.antt =====
-- In a balanced tree every way down is short.
use native.Mathlib.Nat.{pow-suc}
use forfun.Prelude.{
  List, [], ◌∷◌, ℕ, suc, ◌+◌, ◌*◌, ◌^◌, ◌≤◌, Bool, true, false, inl, inr, arith, max,
}
use forfun.Comparator.{Comparator}
use forfun.RbTree.{Tree, leaf, node, insert_rb_node}
use forfun.RbTree.Balance.{Leaning, nil, red, black, almost}
use forfun.RbTree.Growth.{IsBalanced, insert_rb_node-IsBalanced}

abbrev red_one : Bool → ℕ
red_one true = 1
red_one false = 0

module _ {ℓ κ} {K : Type ℓ} {V : Type κ} where
  -- How far down a tree goes, and how many nodes it has.
  abbrev pub depth : Tree K V → ℕ
  depth leaf = 0
  depth (node c l k v r) = suc (max (depth l) (depth r))

  abbrev pub size : Tree K V → ℕ
  size leaf = 0
  size (node c l k v r) = suc (size l + size r)

  Leaning-depth :
      {c : Bool} {h : ℕ} {t : Tree K V}
      → Leaning c h t
      → (depth t ≤ 2 * h + red_one c) × (2 ^ h ≤ size t + 1)
  Leaning-depth nil = omega arith
  Leaning-depth (red x y) = omega (arith, Leaning-depth x, Leaning-depth y)
  Leaning-depth (black {c = true} {h = h} x y) =
      omega (arith, Leaning-depth x, Leaning-depth y, pow-suc 2 h)
  Leaning-depth (black {c = false} {h = h} x y) =
      omega (arith, Leaning-depth x, Leaning-depth y, pow-suc 2 h)

  IsBalanced-depth :
      (t : Tree K V) → IsBalanced t → (h : ℕ) × (depth t ≤ 2 * h + 2) × (2 ^ h ≤ size t + 1)
  IsBalanced-depth t (h, inl x) =
      (h, omega (arith, Leaning-depth x), omega (arith, Leaning-depth x))
  IsBalanced-depth t (h, inr (almost {c = true} x y)) = (
    h,
    omega (arith, Leaning-depth x, Leaning-depth y),
    omega (arith, Leaning-depth x, Leaning-depth y),
  )
  IsBalanced-depth t (h, inr (almost {c = false} x y)) = (
    h,
    omega (arith, Leaning-depth x, Leaning-depth y),
    omega (arith, Leaning-depth x, Leaning-depth y),
  )

module _ {ℓ κ} {K : Type ℓ} {V : Type κ} (order : Comparator K) where
  -- The tree after the insertion of each pair of a list, in their order.
  unfoldable pub insert_all : List (K × V) → Tree K V → Tree K V
  insert_all [] t = t
  insert_all ((k, v) ∷ kvs) t = insert_all kvs (insert_rb_node order t k v)

  insert_all-IsBalanced :
      (kvs : List (K × V)) (t : Tree K V) → IsBalanced t → IsBalanced (insert_all kvs t)
  unfolding insert_all
  insert_all-IsBalanced [] t b = b
  insert_all-IsBalanced ((k, v) ∷ kvs) t b =
      insert_all-IsBalanced kvs (insert_rb_node order t k v)
        (insert_rb_node-IsBalanced order k v t b)

  -- In the tree of any insertions into the empty tree, with n nodes, no way down is longer than twice
  -- the logarithm of n + 1, and two.
  pub insert_all-depth :
      (kvs : List (K × V))
      → (h : ℕ) × (depth (insert_all kvs leaf) ≤ 2 * h + 2)
        × (2 ^ h ≤ size (insert_all kvs leaf) + 1)
  insert_all-depth kvs =
      IsBalanced-depth (insert_all kvs leaf) (insert_all-IsBalanced kvs leaf (0, inl nil))
