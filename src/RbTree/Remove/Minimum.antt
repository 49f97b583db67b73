-- ===== src/RbTree/Remove/Minimum.antt =====
-- deleteMin on the trees that a deletion hands to it: it ends, keeps the balance and takes the first
-- pair.
use forfun.Prelude.{
  ℕ, zero, suc, ◌+◌, ◌≤◌, ◌≡◌, refl, ◌∙◌, sym, ap, Bool, true, false, inl, inr, ◌∷◌, ◌++◌, arith,
}
use mathlib.Core.List.{append_assoc}
use forfun.RbTree.{Tree, node, rotate_left, rotate_right, color_flip}
use forfun.RbTree.Depth.{size}
use forfun.RbTree.Flatten.{flatten}
use forfun.RbTree.Balance.{Leaning, nil, red, black, Either}
use forfun.RbTree.Remove.{fix_up, delete_min, move_red_left}
use forfun.RbTree.Remove.Shapes.{
  fix_red, fix_black_left, fix_black-Either, Removed, removed, Removed-bind, flatten-fix_up,
}

module _ {ℓ κ} {K : Type ℓ} {V : Type κ} where
  -- `t'` holds what `t` holds behind its first pair.
  pub data LosesFirst (t t' : Tree K V) : Type (ℓ ⊔ κ) where
    loses : (m : K × V) → flatten t ≡ m ∷ flatten t' → LosesFirst t t'

  abbrev pub MinGone : ℕ → Tree K V → Tree K V → Type (ℓ ⊔ κ)
  MinGone h t t' = Either h t' × LosesFirst t t'

  -- The descent to the left child.
  LosesFirst-left :
      {c : Bool} {l l' : Tree K V} {k : K} {v : V} {r : Tree K V}
      → LosesFirst l l'
      → LosesFirst (node c l k v r) (fix_up (node c l' k v r))
  LosesFirst-left {c} {l' = l'} {k = k} {v = v} {r = r} (loses m e) =
      loses m
        (ap (λ x. x ++ (k, v) ∷ flatten r) e ∙ ap (◌∷◌ m) (sym (flatten-fix_up (node c l' k v r))))

  -- The colours do not count.
  LosesFirst-colors :
      {c c' d d' e e' : Bool} {t' a b x y : Tree K V} {j k i : K} {u v w : V}
      → LosesFirst (node c (node d a j u b) k v (node e x i w y)) t'
      → LosesFirst (node c' (node d' a j u b) k v (node e' x i w y)) t'
  LosesFirst-colors (loses m e) = loses m e

  -- Nor does the way in which moveRedLeft regroups the nodes.
  LosesFirst-move :
      {c1 c2 c3 c4 c5 c6 x y : Bool} {t' al ar b c d : Tree K V} {h i j k : K} {s u v w : V}
      → LosesFirst (node c1 (node c2 (node x al h s ar) i u b) j v (node c3 c k w d)) t'
      → LosesFirst (node c4 (node y al h s ar) i u (node c5 (node c6 b j v c) k w d)) t'
  LosesFirst-move {al = al} {ar = ar} {b = b} {c = c} {d = d} {h = h} {i = i} {j = j} {k = k}
        {s = s} {u = u} {v = v} {w = w} (loses m e) =
      let a = flatten al ++ (h, s) ∷ flatten ar in
      loses m (
        ap (λ x. a ++ (i, u) ∷ x)
          (append_assoc (flatten b) ((j, v) ∷ flatten c) ((k, w) ∷ flatten d))
        ∙ sym (append_assoc a ((i, u) ∷ flatten b) ((j, v) ∷ flatten c ++ (k, w) ∷ flatten d))
        ∙ e)

  pub settle :
      {h : ℕ} {l r : Tree K V} (k : K) (v : V)
      → Either h l
      → Leaning false h r
      → Leaning false (suc h) (fix_up (node false l k v r))
  settle k v (inl x) y = fix_black_left k v x y
  settle k v (inr x) y = fix_black_left k v x y

  mutual
    unfolding delete_min move_red_left rotate_left rotate_right color_flip

    pub delete_min-red :
        (fuel : ℕ) {h : ℕ} {t : Tree K V}
        → Leaning true h t
        → size t ≤ fuel
        → Removed (MinGone h t) (delete_min fuel t)
    delete_min-red zero (red x y) n = absurd (omega arith)
    delete_min-red (suc fuel) (red {k = k} {v = v} nil nil) n = removed (inr nil, loses (k, v) refl)
    delete_min-red (suc fuel) (red {k = k} {v = v} (black {k = j} {v = u} (red a b) y) z) n =
        Removed-bind _ (delete_min-black fuel j u (red a b) y (omega arith))
          λ t p. (inl (fix_red k v p.0 z), LosesFirst-left p.1)
    delete_min-red (suc fuel) (red {k = k} {v = v} (black nil x) (black nil y)) n =
        Removed-bind _ (delete_min-red fuel (red nil x) (omega arith)) λ t p.
          (fix_black-Either k v p.0 (inl (red nil y)), LosesFirst-colors (LosesFirst-left p.1))
    delete_min-red (suc fuel)
          (red {k = k} {v = v} (black nil x) (black {k = j} {v = u} (red {k = i} {v = w} y z) q))
          n =
        Removed-bind _ (delete_min-black fuel k v (red nil x) y (omega arith))
          λ t p. (inl (fix_red i w p.0 (black z q)), LosesFirst-move (LosesFirst-left p.1))
    delete_min-red (suc fuel) (red {k = k} {v = v} (black (black a b) x) (black (black c d) y)) n =
        Removed-bind _ (delete_min-red fuel (red (black a b) x) (omega arith)) λ t p. (
          fix_black-Either k v p.0 (inl (red (black c d) y)),
          LosesFirst-colors (LosesFirst-left p.1),
        )
    delete_min-red (suc fuel)
          (red {k = k} {v = v} (black (black a b) x) (black (red {k = i} {v = w} y z) q)) n =
        Removed-bind _ (delete_min-black fuel k v (red (black a b) x) y (omega arith))
          λ t p. (inl (fix_red i w p.0 (black z q)), LosesFirst-move (LosesFirst-left p.1))

    pub delete_min-black :
        (fuel : ℕ) {h : ℕ} {l r : Tree K V} (k : K) (v : V)
        → Leaning true h l
        → Leaning false h r
        → size l + size r + 1 ≤ fuel
        → Removed
            (λ t. Leaning false (suc h) t × LosesFirst (node false l k v r) t)
            (delete_min fuel (node false l k v r))
    delete_min-black zero k v x y n = absurd (omega arith)
    delete_min-black (suc fuel) k v (red x z) y n =
        Removed-bind _ (delete_min-red fuel (red x z) (omega arith))
          λ t p. (settle k v p.0 y, LosesFirst-left p.1)
