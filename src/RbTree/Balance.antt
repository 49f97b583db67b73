-- ===== src/RbTree/Balance.antt =====
-- The balance of the tree: what insertion keeps.
--
-- The root is never made black by an insertion, so it may be red and have a red left child. Below
-- the root the tree is a left-leaning red-black tree.
use forfun.Prelude.{ℕ, suc, Bool, true, false, ◌⊎◌, inl, inr}
use forfun.RbTree.{
  Tree, leaf, node, balance, lean_left, lean_right, split_four, rotate_left, rotate_right,
  color_flip,
}

module _ {ℓ κ} {K : Type ℓ} {V : Type κ} where
  -- `Leaning red h t`: `t` has the given colour and `h` black nodes on every way down, no red node
  -- has a red child, and only left children are red.
  pub data Leaning : Bool → ℕ → Tree K V → Type (ℓ ⊔ κ) where
    nil : Leaning false 0 leaf
    red :
        {h : ℕ} {l r : Tree K V} {k : K} {v : V}
        → Leaning false h l
        → Leaning false h r
        → Leaning true h (node true l k v r)
    black :
        {c : Bool} {h : ℕ} {l r : Tree K V} {k : K} {v : V}
        → Leaning c h l
        → Leaning false h r
        → Leaning false (suc h) (node false l k v r)

  -- A red node whose left child may be red.
  pub data Almost : ℕ → Tree K V → Type (ℓ ⊔ κ) where
    almost :
        {c : Bool} {h : ℕ} {l r : Tree K V} {k : K} {v : V}
        → Leaning c h l
        → Leaning false h r
        → Almost h (node true l k v r)

  -- Some colour.
  abbrev pub Either : ℕ → Tree K V → Type (ℓ ⊔ κ)
  Either h t = Leaning true h t ⊎ Leaning false h t

  -- What `balance` returns for a red node, by the colours of its children.
  pub red_left :
      {c : Bool} {h : ℕ} {l r : Tree K V} (k : K) (v : V)
      → Leaning c h l
      → Leaning false h r
      → Almost h (balance (node true l k v r))
  unfolding balance lean_left lean_right split_four rotate_left rotate_right color_flip
  red_left k v nil nil = almost nil nil
  red_left k v (red nil y) nil = almost (red nil y) nil
  red_left k v (red (black a b) y) (black c d) = almost (red (black a b) y) (black c d)
  red_left k v (black a b) (black c d) = almost (black a b) (black c d)

  pub red_right :
      {h : ℕ} {l r : Tree K V} (k : K) (v : V)
      → Leaning false h l
      → Leaning true h r
      → Almost h (balance (node true l k v r))
  unfolding balance lean_left lean_right split_four rotate_left rotate_right color_flip
  red_right k v nil (red nil nil) = almost (red nil nil) nil
  red_right k v (black a b) (red x (black c d)) = almost (red (black a b) x) (black c d)

  pub red_both :
      {h : ℕ} {l r : Tree K V} (k : K) (v : V)
      → Leaning true h l
      → Leaning true h r
      → Leaning false (suc (suc h)) (balance (node true l k v r))
  unfolding balance lean_left lean_right split_four rotate_left rotate_right color_flip
  red_both k v (red nil y) (red z w) = black (black nil y) (black z w)
  red_both k v (red (black a b) y) (red z w) = black (black (black a b) y) (black z w)

  -- A red node over a left child that an insertion left with a red child of its own.
  pub red-Almost :
      {h : ℕ} {l r : Tree K V} (k : K) (v : V)
      → Almost h l
      → Leaning false h r
      → Almost h (balance (node true l k v r))
        ⊎ Leaning false (suc (suc h)) (balance (node true l k v r))
  unfolding balance lean_left lean_right split_four rotate_left rotate_right color_flip
  red-Almost k v (almost nil y) nil = inl (almost (red nil y) nil)
  red-Almost k v (almost (black a b) y) (black c d) = inl (almost (red (black a b) y) (black c d))
  red-Almost k v (almost (red x y) z) nil = inr (black (black x y) (black z nil))
  red-Almost k v (almost (red x y) z) (black c d) = inr (black (black x y) (black z (black c d)))

  -- The same for a black node.
  pub black-Almost :
      {h : ℕ} {l r : Tree K V} (k : K) (v : V)
      → Almost h l
      → Leaning false h r
      → Either (suc h) (balance (node false l k v r))
  unfolding balance lean_left lean_right split_four rotate_left rotate_right color_flip
  black-Almost k v (almost nil y) nil = inr (black (red nil y) nil)
  black-Almost k v (almost (black a b) y) (black c d) = inr (black (red (black a b) y) (black c d))
  black-Almost k v (almost (red x y) z) nil = inl (red (black x y) (black z nil))
  black-Almost k v (almost (red x y) z) (black c d) = inl (red (black x y) (black z (black c d)))

  pub black_left :
      {c : Bool} {h : ℕ} {l r : Tree K V} (k : K) (v : V)
      → Leaning c h l
      → Leaning false h r
      → Either (suc h) (balance (node false l k v r))
  unfolding balance lean_left lean_right split_four rotate_left rotate_right color_flip
  black_left k v nil nil = inr (black nil nil)
  black_left k v (red nil y) nil = inr (black (red nil y) nil)
  black_left k v (red (black a b) y) (black c d) = inr (black (red (black a b) y) (black c d))
  black_left k v (black a b) (black c d) = inr (black (black a b) (black c d))

  pub black_right :
      {c : Bool} {h : ℕ} {l r : Tree K V} (k : K) (v : V)
      → Leaning c h l
      → Leaning true h r
      → Either (suc h) (balance (node false l k v r))
  unfolding balance lean_left lean_right split_four rotate_left rotate_right color_flip
  black_right k v nil (red nil nil) = inr (black (red nil nil) nil)
  black_right k v (black a b) (red x (black c d)) = inr (black (red (black a b) x) (black c d))
  black_right k v (red nil y) (red z w) = inl (red (black nil y) (black z w))
  black_right k v (red (black a b) y) (red z w) = inl (red (black (black a b) y) (black z w))
