-- ===== src/RbTree/Remove/Shapes.antt =====
-- What fixUp returns, by the colours of the children, and that no step of a deletion loses a pair.
use forfun.Prelude.{ℕ, suc, ◌≡◌, refl, ◌∙◌, ap, Bool, true, false, inl, inr, List, ◌∷◌, ◌++◌}
use forfun.RbTree.{
  Tree, leaf, node, rotate_left, rotate_right, color_flip, lean_right, split_four, right_is_red,
}
use forfun.RbTree.Flatten.{
  flatten, flatten-if, flatten-rotate_left, flatten-lean_right, flatten-split_four,
}
use forfun.RbTree.Balance.{Leaning, nil, red, black, Either}
use forfun.RbTree.Remove.{Run, done, ◌>>=◌, turn_left, fix_up, get_min}

module _ {ℓ κ} {K : Type ℓ} {V : Type κ} where
  pub flatten-turn_left : (t : Tree K V) → flatten (turn_left t) ≡ flatten t
  unfolding turn_left
  flatten-turn_left t = flatten-if (right_is_red t) t (rotate_left t) (flatten-rotate_left t)

  pub flatten-fix_up : (t : Tree K V) → flatten (fix_up t) ≡ flatten t
  unfolding fix_up
  flatten-fix_up t =
      flatten-split_four (lean_right (turn_left t))
      ∙ flatten-lean_right (turn_left t)
      ∙ flatten-turn_left t

  pub fix_red :
      {h : ℕ} {l r : Tree K V} (k : K) (v : V)
      → Leaning false h l
      → Leaning false h r
      → Leaning true h (fix_up (node true l k v r))
  unfolding fix_up turn_left lean_right split_four rotate_left rotate_right color_flip
  fix_red k v nil nil = red nil nil
  fix_red k v (black a b) (black c d) = red (black a b) (black c d)

  pub fix_black_left :
      {c : Bool} {h : ℕ} {l r : Tree K V} (k : K) (v : V)
      → Leaning c h l
      → Leaning false h r
      → Leaning false (suc h) (fix_up (node false l k v r))
  unfolding fix_up turn_left lean_right split_four rotate_left rotate_right color_flip
  fix_black_left k v nil nil = black nil nil
  fix_black_left k v (red nil y) nil = black (red nil y) nil
  fix_black_left k v (red (black a b) y) (black c d) = black (red (black a b) y) (black c d)
  fix_black_left k v (black a b) (black c d) = black (black a b) (black c d)

  -- A red right child under a black left one turns left; two red children make the node red.
  fix_black_turn :
      {h : ℕ} {l r : Tree K V} (k : K) (v : V)
      → Leaning false h l
      → Leaning true h r
      → Leaning false (suc h) (fix_up (node false l k v r))
  unfolding fix_up turn_left lean_right split_four rotate_left rotate_right color_flip
  fix_black_turn k v nil (red nil nil) = black (red nil nil) nil
  fix_black_turn k v (black a b) (red x (black c d)) = black (red (black a b) x) (black c d)

  fix_black_both :
      {h : ℕ} {l r : Tree K V} (k : K) (v : V)
      → Leaning true h l
      → Leaning true h r
      → Leaning true (suc h) (fix_up (node false l k v r))
  unfolding fix_up turn_left lean_right split_four rotate_left rotate_right color_flip
  fix_black_both k v (red x y) (red nil nil) = red (black x y) (black nil nil)
  fix_black_both k v (red x y) (red z (black c d)) = red (black x y) (black z (black c d))

  pub fix_black_right :
      {h : ℕ} {l r : Tree K V} (k : K) (v : V)
      → Leaning false h l
      → Either h r
      → Leaning false (suc h) (fix_up (node false l k v r))
  fix_black_right k v x (inl y) = fix_black_turn k v x y
  fix_black_right k v x (inr y) = fix_black_left k v x y

  pub fix_black-Either :
      {h : ℕ} {l r : Tree K V} (k : K) (v : V)
      → Either h l
      → Either h r
      → Either (suc h) (fix_up (node false l k v r))
  fix_black-Either k v (inl x) (inl y) = inl (fix_black_both k v x y)
  fix_black-Either k v (inl x) (inr y) = inr (fix_black_left k v x y)
  fix_black-Either k v (inr x) y = inr (fix_black_right k v x y)

  -- A run that ends with a tree that satisfies `P`.
  pub data Removed {μ} (P : Tree K V → Type μ) : Run (Tree K V) → Type (ℓ ⊔ κ ⊔ μ) where
    removed : {t : Tree K V} → P t → Removed P (done t)

  pub Removed-bind {μ ν} :
      {P : Tree K V → Type μ} {Q : Tree K V → Type ν} {r : Run (Tree K V)} (f : Tree K V → Tree K V)
      → Removed P r
      → ((t : Tree K V) → P t → Q (f t))
      → Removed Q (r >>= λ t. done (f t))
  Removed-bind f (removed p) g = removed (g _ p)

  pub Removed-map {μ ν} :
      {P : Tree K V → Type μ} {Q : Tree K V → Type ν} {r : Run (Tree K V)}
      → Removed P r
      → ((t : Tree K V) → P t → Q t)
      → Removed Q r
  Removed-map (removed p) g = removed (g _ p)

  -- The first pair of a tree is the one that getMin finds.
  pub get_min-flatten :
      (l : Tree K V) (k : K) (v : V) (r : List (K × V))
      → (m : List (K × V)) × (flatten l ++ (k, v) ∷ r ≡ get_min l k v ∷ m)
  unfolding get_min
  get_min-flatten leaf k v r = (r, refl)
  get_min-flatten (node c ll lk lv lr) k v r =
      let (m, e) = get_min-flatten ll lk lv (flatten lr) in
      (m ++ (k, v) ∷ r, ap (λ x. x ++ (k, v) ∷ r) e)
