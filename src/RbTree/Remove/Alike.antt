-- ===== src/RbTree/Remove/Alike.antt =====
-- The colour of a node on which deleteRBNode is called changes only the colour of the node that it
-- returns.
use forfun.Prelude.{
  ℕ, zero, suc, ◌≡◌, refl, ap, Bool, true, false, inl, inr, if◌then◌else◌, not, ◌&&◌,
}
use forfun.Comparator.{Comparator, Ordering-cases}
use forfun.RbTree.{
  Tree, leaf, node, rotate_left, rotate_right, color_flip, is_red, left_is_red, left_left_is_red,
  lean_right, split_four, toggle,
}
use forfun.RbTree.Remove.{
  Run, done, assertion_failed, out_of_fuel, ◌>>=◌, turn_left, fix_up, delete_min, move_red_left,
  move_red_right, delete_rb_node, on_left, on_right, replace_by_min, make_left_ready,
  make_right_ready, delete_right, is_key, is_null, blacken,
}

module _ {ℓ κ} {K : Type ℓ} {V : Type κ} where
  -- Two trees that differ at most in the colour of their roots.
  pub data Alike : Tree K V → Tree K V → Type (ℓ ⊔ κ) where
    none : Alike leaf leaf
    some :
        (c d : Bool) {l : Tree K V} {k : K} {v : V} {r : Tree K V}
        → Alike (node c l k v r) (node d l k v r)

  pub Alike-blacken : {s t : Tree K V} → Alike s t → blacken s ≡ blacken t
  Alike-blacken none = refl
  Alike-blacken (some c d) = refl

  Alike-if :
      (b : Bool) {s t u v : Tree K V}
      → Alike s u
      → Alike t v
      → Alike (if b then s else t) (if b then u else v)
  Alike-if true p q = p
  Alike-if false p q = q

  flip-Alike : {s t : Tree K V} → Alike s t → Alike (color_flip s) (color_flip t)
  unfolding color_flip
  flip-Alike none = none
  flip-Alike (some c d) = some _ _

  left-Alike : {s t : Tree K V} → Alike s t → Alike (rotate_left s) (rotate_left t)
  unfolding rotate_left
  left-Alike none = none
  left-Alike (some c d {r = leaf}) = some c d
  left-Alike (some c d {r = node e l k v r}) = some c d

  right-Alike : {s t : Tree K V} → Alike s t → Alike (rotate_right s) (rotate_right t)
  unfolding rotate_right
  right-Alike none = none
  right-Alike (some c d {l = leaf}) = some c d
  right-Alike (some c d {l = node e l k v r}) = some c d

  turn_left-Alike : {s t : Tree K V} → Alike s t → Alike (turn_left s) (turn_left t)
  unfolding turn_left
  turn_left-Alike none = none
  turn_left-Alike (some c d {r = r}) = Alike-if (is_red r) (left-Alike (some c d)) (some c d)

  lean_right-Alike : {s t : Tree K V} → Alike s t → Alike (lean_right s) (lean_right t)
  unfolding lean_right
  lean_right-Alike none = none
  lean_right-Alike (some c d {l = l} {k} {v} {r}) =
      Alike-if (left_left_is_red (node c l k v r)) (right-Alike (some c d)) (some c d)

  split_four-Alike : {s t : Tree K V} → Alike s t → Alike (split_four s) (split_four t)
  unfolding split_four
  split_four-Alike none = none
  split_four-Alike (some c d {l = l} {k} {v} {r}) =
      Alike-if (is_red l && is_red r) (flip-Alike (some c d)) (some c d)

  fix_up-Alike : {s t : Tree K V} → Alike s t → Alike (fix_up s) (fix_up t)
  unfolding fix_up
  fix_up-Alike p = split_four-Alike (lean_right-Alike (turn_left-Alike p))

  move_red_left-Alike : {s t : Tree K V} → Alike s t → Alike (move_red_left s) (move_red_left t)
  unfolding move_red_left color_flip
  move_red_left-Alike none = none
  move_red_left-Alike (some c d {l = l} {k} {v} {r}) =
      Alike-if (left_is_red (toggle r)) (flip-Alike (left-Alike (some _ _))) (some _ _)

  move_red_right-Alike : {s t : Tree K V} → Alike s t → Alike (move_red_right s) (move_red_right t)
  unfolding move_red_right color_flip
  move_red_right-Alike none = none
  move_red_right-Alike (some c d {l = l} {k} {v} {r}) =
      Alike-if (not (is_null l) && not (is_null r))
        (Alike-if (left_is_red (toggle l)) (flip-Alike (right-Alike (some _ _))) (some _ _))
        (some c d)

  -- The runs end alike.
  pub data AlikeRuns : Run (Tree K V) → Run (Tree K V) → Type (ℓ ⊔ κ) where
    both_done : {s t : Tree K V} → Alike s t → AlikeRuns (done s) (done t)
    both_failed : AlikeRuns assertion_failed assertion_failed
    both_out : AlikeRuns out_of_fuel out_of_fuel

  AlikeRuns-if :
      (b : Bool) {s t u v : Run (Tree K V)}
      → AlikeRuns s u
      → AlikeRuns t v
      → AlikeRuns (if b then s else t) (if b then u else v)
  AlikeRuns-if true p q = p
  AlikeRuns-if false p q = q

  AlikeRuns-bind :
      (x : Run (Tree K V)) {f g : Tree K V → Tree K V}
      → ((t : Tree K V) → Alike (f t) (g t))
      → AlikeRuns (x >>= λ t. done (f t)) (x >>= λ t. done (g t))
  AlikeRuns-bind (done t) p = both_done (p t)
  AlikeRuns-bind assertion_failed p = both_failed
  AlikeRuns-bind out_of_fuel p = both_out

  on_left-Alike :
      (rest : Tree K V → Run (Tree K V)) {s t : Tree K V}
      → Alike s t
      → AlikeRuns (on_left rest s) (on_left rest t)
  on_left-Alike rest none = both_out
  on_left-Alike rest (some c d {l = l}) = AlikeRuns-bind (rest l) λ t. fix_up-Alike (some c d)

  on_right-Alike :
      (rest : Tree K V → Run (Tree K V)) {s t : Tree K V}
      → Alike s t
      → AlikeRuns (on_right rest s) (on_right rest t)
  on_right-Alike rest none = both_out
  on_right-Alike rest (some c d {r = r}) = AlikeRuns-bind (rest r) λ t. fix_up-Alike (some c d)

  replace_by_min-Alike :
      (rest : Tree K V → Run (Tree K V)) {s t : Tree K V}
      → Alike s t
      → AlikeRuns (replace_by_min rest s) (replace_by_min rest t)
  replace_by_min-Alike rest none = both_out
  replace_by_min-Alike rest (some c d {r = r}) =
      AlikeRuns-bind (rest r) λ t. fix_up-Alike (some c d)

  make_left_ready-Alike :
      {s t : Tree K V} → Alike s t → Alike (make_left_ready s) (make_left_ready t)
  make_left_ready-Alike none = none
  make_left_ready-Alike (some c d {l = l}) =
      Alike-if (not (is_null l) && (not (is_red l) && not (left_is_red l)))
        (move_red_left-Alike (some c d)) (some c d)

  make_right_ready-Alike :
      {s t : Tree K V} → Alike s t → Alike (make_right_ready s) (make_right_ready t)
  make_right_ready-Alike none = none
  make_right_ready-Alike (some c d {r = r}) =
      Alike-if (not (is_red r) && not (left_is_red r)) (move_red_right-Alike (some c d)) (some c d)

  pub AlikeRuns-blacken :
      {x y : Run (Tree K V)}
      → AlikeRuns x y
      → (x >>= λ t. done (blacken t)) ≡ (y >>= λ t. done (blacken t))
  AlikeRuns-blacken (both_done p) = ap done (Alike-blacken p)
  AlikeRuns-blacken both_failed = refl
  AlikeRuns-blacken both_out = refl

module _ {ℓ κ} {K : Type ℓ} {V : Type κ} (order : Comparator K) where
  same_key : (q : K) {s t : Tree K V} → Alike s t → is_key order q s ≡ is_key order q t
  same_key q none = refl
  same_key q (some c d) = refl

  right_part :
      (q : K) (minimum rest : Tree K V → Run (Tree K V)) {s t : Tree K V}
      → Alike s t
      → AlikeRuns
          (if is_key order q s then replace_by_min minimum s else on_right rest s)
          (if is_key order q t then replace_by_min minimum t else on_right rest t)
  right_part q minimum rest {s} {t} p =
      rw (same_key q p)
        (AlikeRuns-if (is_key order q t) (replace_by_min-Alike minimum p) (on_right-Alike rest p))

  delete_right-Alike :
      (q : K) (minimum rest : Tree K V → Run (Tree K V)) {s t : Tree K V}
      → Alike s t
      → AlikeRuns (delete_right order q minimum rest s) (delete_right order q minimum rest t)
  delete_right-Alike q minimum rest none = both_out
  delete_right-Alike q minimum rest (some c d {l = l} {k} {v} {r}) =
      AlikeRuns-if (is_key order q (node c l k v r) && is_null r)
        (AlikeRuns-if (is_null l) (both_done none) both_failed)
        (AlikeRuns-if (is_null r) (both_done (fix_up-Alike (some c d))) (
          right_part q minimum rest
            (make_right_ready-Alike (some c d {l = l} {k = k} {v = v} {r = r}))))

  pub delete_rb_node-Alike :
      (fuel : ℕ) (q : K) {s t : Tree K V}
      → Alike s t
      → AlikeRuns (delete_rb_node order fuel s q) (delete_rb_node order fuel t q)
  unfolding delete_rb_node
  delete_rb_node-Alike fuel q none = both_done none
  delete_rb_node-Alike zero q (some c d) = both_out
  delete_rb_node-Alike (suc fuel) q (some c d {l = l} {k} {v} {r}) =
      elim (Ordering-cases (order.cmp q k)) [
        | inl h ↦
            rw (h, delete_rb_node)
              (on_left-Alike (λ t. delete_rb_node order fuel t q)
                (make_left_ready-Alike (some c d {l = l} {k = k} {v = v} {r = r})))
        | inr (inl h) ↦
            rw (h, delete_rb_node)
              (delete_right-Alike q (delete_min fuel) (λ t. delete_rb_node order fuel t q)
                (ready c d))
        | inr (inr h) ↦
            rw (h, delete_rb_node)
              (delete_right-Alike q (delete_min fuel) (λ t. delete_rb_node order fuel t q)
                (ready c d))
      ]
    where
      ready :
          (c d : Bool)
          → Alike
              (if is_red l then rotate_right (node c l k v r) else node c l k v r)
              (if is_red l then rotate_right (node d l k v r) else node d l k v r)
      ready c d = Alike-if (is_red l) (right-Alike (some c d)) (some c d)
