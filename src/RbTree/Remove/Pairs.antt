-- ===== src/RbTree/Remove/Pairs.antt =====
-- What a step of deleteRBNode does to the pairs of the tree.
use Prim.Native.Nat.Ordering.{lt, eq, gt}
use forfun.Prelude.{◌≡◌, refl, ◌∙◌, sym, ap, Bool, inl, inr, ◌⊎◌, List, [], ◌∷◌, ◌++◌, arith}
use mathlib.Core.List.{append_assoc}
use forfun.Comparator.{Comparator}
use forfun.RbTree.{Tree, node}
use forfun.RbTree.Flatten.{flatten}
use forfun.RbTree.SortedList.{Below, delete}
use forfun.RbTree.Remove.{fix_up, get_min}
use forfun.RbTree.Remove.Shapes.{flatten-fix_up, get_min-flatten}
use forfun.RbTree.Remove.Minimum.{LosesFirst, loses}

module _ {ℓ} {A : Type ℓ} where
  -- How a list that stands to the left is split at the one before.
  pub turn :
      (a : List A) (x : A) (b : List A) (y : A) (c : List A)
      → (a ++ x ∷ b) ++ y ∷ c ≡ a ++ x ∷ (b ++ y ∷ c)
  turn a x b y c = append_assoc a (x ∷ b) (y ∷ c)

  pub move :
      (a : List A) (x : A) (b : List A) (y : A) (c : List A) (z : A) (d : List A)
      → (a ++ x ∷ b) ++ y ∷ (c ++ z ∷ d) ≡ a ++ x ∷ ((b ++ y ∷ c) ++ z ∷ d)
  move a x b y c z d = turn a x b y (c ++ z ∷ d) ∙ ap (λ l. a ++ x ∷ l) (sym (turn b y c z d))

module _ {ℓ κ} {K : Type ℓ} {V : Type κ} (order : Comparator K) where
  delete-left :
      (l : List (K × V)) (k : K) (v : V) (r : List (K × V)) (q : K)
      → order.cmp q k ≡ lt
      → delete order (l ++ (k, v) ∷ r) q ≡ delete order l q ++ (k, v) ∷ r
  unfolding delete
  delete-left [] k v r q h = rw (h, delete) refl
  delete-left ((j, u) ∷ l) k v r q h = ground (arith, delete-left l k v r q h)

  delete-right :
      (l : List (K × V)) (k : K) (m : List (K × V)) (q : K)
      → Below order k l
      → ((order.cmp q k ≡ eq) ⊎ (order.cmp q k ≡ gt))
      → delete order (l ++ m) q ≡ l ++ delete order m q
  unfolding delete
  delete-right [] k m q b h = refl
  delete-right ((j, u) ∷ l) k m q b h = ground (
    arith,
    delete-right l k m q b.1 h,
    order.cmp_flip q j,
    order.cmp_flip j k,
    order.cmp_flip q k,
    order.cmp_same q k j,
    order.lt_trans j k q b.0,
  )

  -- `t'` holds what `t` holds, less the pair of `q`.
  pub data Deletes (q : K) (t t' : Tree K V) : Type (ℓ ⊔ κ) where
    deletes : flatten t' ≡ delete order (flatten t) q → Deletes q t t'

  pub Deletes-left :
      {c : Bool} {l l' : Tree K V} {k : K} {v : V} {r : Tree K V} {q : K}
      → order.cmp q k ≡ lt
      → Deletes q l l'
      → Deletes q (node c l k v r) (fix_up (node c l' k v r))
  Deletes-left {c = c} {l = l} {l' = l'} {k = k} {v = v} {r = r} {q = q} h (deletes e) = deletes (
      flatten-fix_up (node c l' k v r)
      ∙ ap (λ x. x ++ (k, v) ∷ flatten r) e
      ∙ sym (delete-left (flatten l) k v (flatten r) q h))

  pub Deletes-right :
      {c : Bool} {l : Tree K V} {k : K} {v : V} {r r' : Tree K V} {q : K}
      → Below order k (flatten l)
      → order.cmp q k ≡ gt
      → Deletes q r r'
      → Deletes q (node c l k v r) (fix_up (node c l k v r'))
  unfolding delete
  Deletes-right {c = c} {l = l} {k = k} {v = v} {r = r} {r' = r'} {q = q} b h (deletes e) =
      let here : (k, v) ∷ delete order (flatten r) q ≡ delete order ((k, v) ∷ flatten r) q =
        rw (h, delete) refl in
      deletes (
        flatten-fix_up (node c l k v r')
        ∙ ap (λ x. flatten l ++ (k, v) ∷ x) e
        ∙ ap (λ x. flatten l ++ x) here
        ∙ sym (delete-right (flatten l) k ((k, v) ∷ flatten r) q b (inr h)))

  pub Deletes-min :
      {c d : Bool} {l : Tree K V} {k : K} {v : V} {rl : Tree K V} {rk : K} {rv : V}
      {rr r' : Tree K V} {q : K}
      → Below order k (flatten l)
      → order.cmp q k ≡ eq
      → LosesFirst (node d rl rk rv rr) r'
      → Deletes q
          (node c l k v (node d rl rk rv rr))
          (fix_up (node c l (get_min rl rk rv).0 (get_min rl rk rv).1 r'))
  unfolding delete
  Deletes-min {c = c} {l = l} {k = k} {v = v} {rl = rl} {rk = rk} {rv = rv} {rr = rr} {r' = r'}
        {q = q} b h (loses m e) =
      let r = flatten rl ++ (rk, rv) ∷ flatten rr in
      let (rest, first) = get_min-flatten rl rk rv (flatten rr) in
      let same : get_min rl rk rv ∷ flatten r' ≡ r = cc in
      let here : r ≡ delete order ((k, v) ∷ r) q = rw (h, delete) refl in
      deletes (
        flatten-fix_up (node c l (get_min rl rk rv).0 (get_min rl rk rv).1 r')
        ∙ ap (λ x. flatten l ++ x) (same ∙ here)
        ∙ sym (delete-right (flatten l) k ((k, v) ∷ r) q b (inl h)))

  -- What is deleted depends only on the pairs.
  pub Deletes-same :
      {q : K} {s t t' : Tree K V} → flatten s ≡ flatten t → Deletes q s t' → Deletes q t t'
  Deletes-same {q = q} e (deletes d) = deletes (d ∙ ap (λ m. delete order m q) e)

  pub Deletes-move :
      {c1 c2 c3 c4 c5 c6 x y : Bool} {t' al ar b c d : Tree K V} {h i j k q : K} {s u v w : V}
      → Deletes q (node c1 (node c2 (node x al h s ar) i u b) j v (node c3 c k w d)) t'
      → Deletes q (node c4 (node y al h s ar) i u (node c5 (node c6 b j v c) k w d)) t'
  Deletes-move {al = al} {ar = ar} {b = b} {c = c} {d = d} {h = h} {i = i} {j = j} {k = k} {s = s}
        {u = u} {v = v} {w = w} p =
      Deletes-same
        (move (flatten al ++ (h, s) ∷ flatten ar) (i, u) (flatten b) (j, v) (flatten c) (k, w)
          (flatten d))
        p

  pub Deletes-turn :
      {c1 c2 c3 c4 : Bool} {t' a a' b c c' : Tree K V} {i j q : K} {u v : V}
      → flatten a' ≡ flatten a
      → flatten c' ≡ flatten c
      → Deletes q (node c1 a' i u (node c2 b j v c')) t'
      → Deletes q (node c3 (node c4 a i u b) j v c) t'
  Deletes-turn {a = a} {a' = a'} {b = b} {c = c} {i = i} {j = j} {u = u} {v = v} e f p =
      Deletes-same
        (ap (λ m. flatten a' ++ (i, u) ∷ (flatten b ++ (j, v) ∷ m)) f
          ∙ ap (λ m. m ++ (i, u) ∷ (flatten b ++ (j, v) ∷ flatten c)) e
          ∙ sym (turn (flatten a) (i, u) (flatten b) (j, v) (flatten c)))
        p
