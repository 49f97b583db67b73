-- ===== src/HashTable/Rehash/Keeps.antt =====
-- src/base/base_hash.c: rehashNSteps moves the nodes and keeps the map.
use forfun.Prelude.{
  ℕ, ◌+◌, ◌%◌, ◌≤◌, ◌≡◌, refl, sym, ◌∙◌, Bool, true, false, Bool-cases, none, some, List, ◌∷◌,
  if◌then◌else◌, ◌==◌, ==_iff, ==_refl, inl, inr, subst, arith,
}
use forfun.HashTable.{
  HashKey, WhichBase, first, second, HashTable, other, same_base, base, set_base, set_entry,
  set_items_count,
}
use forfun.HashTable.Operations.{home}
use forfun.HashTable.Contents.{home_same, lookup, count, home_items, count-zero-lookup}
use forfun.HashTable.Rehash.{move_node}

pub same_base_refl : (c : WhichBase) → same_base c c ≡ true
same_base_refl first = refl
same_base_refl second = refl

pub same_base-other : (c : WhichBase) → same_base c (other c) ≡ false
same_base-other first = refl
same_base-other second = refl

module _ {ℓ} {K V : Type ℓ} (key : HashKey K) where
  -- The lists after a move to the other base.
  pub move_node-items :
      (c b : WhichBase) (t : HashTable K V) (idx : ℕ) (node : K × V) (rest : List (K × V)) (j : ℕ)
      → ((base (move_node key c (other c) t idx node rest) b).entries j).items ≡ (
          if same_base c b
          then (if j == idx then rest else ((base t b).entries j).items)
          else (if j == (key.hash node.0 % (base t (other c)).size)
              then node ∷ ((base t b).entries j).items
              else ((base t b).entries j).items))
  unfolding move_node set_items_count set_entry set_base base
  move_node-items first first t idx node rest j = ground arith
  move_node-items first second t idx node rest j =
      let h = key.hash node.0 % (base t second).size in
      elim (Bool-cases (j == h)) [
        | inl e ↦ rw ((==_iff j h).0 e) (rw (==_refl h) refl)
        | inr e ↦ rw (e) refl
      ]
  move_node-items second first t idx node rest j =
      let h = key.hash node.0 % (base t first).size in
      elim (Bool-cases (j == h)) [
        | inl e ↦ rw ((==_iff j h).0 e) (rw (==_refl h) refl)
        | inr e ↦ rw (e) refl
      ]
  move_node-items second second t idx node rest j = ground arith

  pub move_node-size :
      (c b : WhichBase) (t : HashTable K V) (idx : ℕ) (node : K × V) (rest : List (K × V))
      → (base (move_node key c (other c) t idx node rest) b).size ≡ (base t b).size
  unfolding move_node set_items_count set_entry set_base base
  move_node-size first first t idx node rest = refl
  move_node-size first second t idx node rest = refl
  move_node-size second first t idx node rest = refl
  move_node-size second second t idx node rest = refl

  -- What a move makes of the two lists that a key can be in.
  pub data Moved (q : K) (before before_other after after_other : List (K × V)) : Type ℓ where
    its_key :
        (v : V)
        → lookup key q before ≡ some v
        → lookup key q after ≡ none
        → lookup key q after_other ≡ some v
        → count key q after + count key q after_other ≤ 1
        → Moved q before before_other after after_other
    another_key :
        lookup key q after ≡ lookup key q before
        → lookup key q after_other ≡ lookup key q before_other
        → count key q after ≡ count key q before
        → count key q after_other ≡ count key q before_other
        → Moved q before before_other after after_other

  -- Whether the key is among those of the entry, and of the entry that is inserted to.
  Moved-cons :
      (q k : K) (v : V) (rest b : List (K × V)) (there : Bool)
      → key.same k q ≡ false
      → Moved q ((k, v) ∷ rest) b rest (if there then (k, v) ∷ b else b)
  unfolding lookup count
  Moved-cons q k v rest b true ne =
      another_key (ground arith) (ground arith) (ground arith) (ground arith)
  Moved-cons q k v rest b false ne =
      another_key (ground arith) (ground arith) (ground arith) (ground arith)

  Moved-beside :
      (q k : K) (v : V) (a b : List (K × V)) (there : Bool)
      → key.same k q ≡ false
      → Moved q a b a (if there then (k, v) ∷ b else b)
  unfolding lookup count
  Moved-beside q k v a b true ne = another_key refl (ground arith) refl (ground arith)
  Moved-beside q k v a b false ne = another_key refl refl refl refl

  Moved-key :
      (q k : K) (v : V) (rest b : List (K × V))
      → key.same k q ≡ true
      → count key q ((k, v) ∷ rest) + count key q b ≤ 1
      → Moved q ((k, v) ∷ rest) b rest ((k, v) ∷ b)
  unfolding lookup count
  Moved-key q k v rest b e once =
      its_key v (ground arith) (count-zero-lookup key q rest (ground arith)) (ground arith)
        (ground arith)

  module _ (c : WhichBase) (t : HashTable K V) (idx : ℕ) (node : K × V) (rest : List (K × V))
      (q : K) where
    move_node-home :
        home_items key (move_node key c (other c) t idx node rest) c q
        ≡ (if home key (base t c) q == idx then rest else home_items key t c q)
    unfolding home_items home
    move_node-home =
        rw
          (
            home_items,
            home,
            move_node-size c c t idx node rest,
            move_node-items c c t idx node rest,
            same_base_refl c,
          )
          refl

    move_node-home-other :
        home_items key (move_node key c (other c) t idx node rest) (other c) q ≡ (
          if home key (base t (other c)) q == home key (base t (other c)) node.0
          then node ∷ home_items key t (other c) q
          else home_items key t (other c) q)
    unfolding home_items home
    move_node-home-other =
        rw
          (
            home_items,
            home,
            move_node-size c (other c) t idx node rest,
            move_node-items c (other c) t idx node rest,
            same_base-other c,
          )
          refl

    abbrev Moves : Type ℓ
    Moves =
        Moved q (home_items key t c q) (home_items key t (other c) q)
          (home_items key (move_node key c (other c) t idx node rest) c q)
          (home_items key (move_node key c (other c) t idx node rest) (other c) q)

    home_items-at :
        ((base t c).entries idx).items ≡ node ∷ rest
        → (home key (base t c) q == idx) ≡ true
        → home_items key t c q ≡ node ∷ rest
    unfolding home_items
    home_items-at at e = rw (home_items, (==_iff (home key (base t c) q) idx).0 e) at

    pub move_node-Moves :
        ((base t c).entries idx).items ≡ node ∷ rest
        → home key (base t c) node.0 ≡ idx
        → count key q (home_items key t c q) + count key q (home_items key t (other c) q) ≤ 1
        → Moves
    move_node-Moves at placed once = elim (Bool-cases (key.same node.0 q)) [
      | inl e ↦
          let here = home_items-at at (home-here e placed) in
          rw (move_node-home, move_node-home-other, home-here e placed, home-same e, here)
            (Moved-key q node.0 node.1 rest (home_items key t (other c) q) e (
              subst (λ m. count key q m + count key q (home_items key t (other c) q) ≤ 1) here
                once))
      | inr e ↦ elim (Bool-cases (home key (base t c) q == idx)) [
        | inl h ↦
            rw (move_node-home, move_node-home-other, h, home_items-at at h)
              (Moved-cons q node.0 node.1 rest (home_items key t (other c) q) _ e)
        | inr h ↦
            rw (move_node-home, move_node-home-other, h)
              (Moved-beside q node.0 node.1 (home_items key t c q) (home_items key t (other c) q) _
                e)
      ]
    ]
      where
        home-here :
            key.same node.0 q ≡ true
            → home key (base t c) node.0 ≡ idx
            → (home key (base t c) q == idx) ≡ true
        home-here e p = (==_iff _ _).1 (sym (home_same key (base t c) node.0 q e) ∙ p)

        home-same :
            key.same node.0 q ≡ true
            → (home key (base t (other c)) q == home key (base t (other c)) node.0) ≡ true
        home-same e = (==_iff _ _).1 (sym (home_same key (base t (other c)) node.0 q e))
