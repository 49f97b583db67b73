-- ===== src/HashTable/Rehash/Moving.antt =====
-- src/base/base_hash.c: a node that rehashNSteps moves leaves the table well formed, with the same map.
use forfun.Prelude.{
  ℕ, suc, ◌+◌, ◌%◌, ◌≤◌, ◌<◌, ◌≡◌, refl, sym, ap, ◌∙◌, true, false, Bool-cases, some, List, ◌∷◌,
  length, ◌==◌, ==_iff, ==_refl, inl, inr, ◌⊎◌, subst, arith, or_else,
}
use forfun.HashTable.{
  HashKey, WhichBase, first, second, HashTable, other, base, set_base, set_entry, set_items_count,
  count_down,
}
use forfun.HashTable.Operations.{home}
use forfun.HashTable.Contents.{
  in_base, nodes, nodes-at, total-write, lookup, count, Placed, home_items, contents,
}
use forfun.HashTable.Invariant.{
  IsPlaced, IsTable, IsWithin-same, moving-IsTable, IsCounted, contents-moving,
}
use forfun.HashTable.Rehash.{move_node}
use forfun.HashTable.Rehash.Keeps.{
  same_base_refl, same_base-other, move_node-items, move_node-size, Moved, its_key, another_key,
  move_node-Moves,
}

pub current_or_other : (c b : WhichBase) → (b ≡ c) ⊎ (b ≡ other c)
current_or_other first first = inl refl
current_or_other first second = inr refl
current_or_other second first = inr refl
current_or_other second second = inl refl

module _ {ℓ} {K V : Type ℓ} (key : HashKey K) where
  -- The table is well formed and holds the same map; the choice of bases and their sizes are kept.
  pub record Keeps (t u : HashTable K V) : Type ℓ where
    pub table : IsTable key u
    pub same_contents : (q : K) → contents key u q ≡ contents key t q
    pub same_rehashing : u.is_rehashing ≡ t.is_rehashing
    pub same_insert : u.rehash_insert_base ≡ t.rehash_insert_base
    pub same_size : (b : WhichBase) → (base u b).size ≡ (base t b).size
    pub same_nodes : nodes u ≡ nodes t

  move_node-items_count :
      (c : WhichBase) (t : HashTable K V) (idx : ℕ) (node : K × V) (rest : List (K × V))
      → (base (move_node key c (other c) t idx node rest) c).items_count
        ≡ count_down (base t c).items_count
  unfolding move_node set_items_count set_entry set_base base
  move_node-items_count first t idx node rest = refl
  move_node-items_count second t idx node rest = refl

  module _ (t : HashTable K V) (idx : ℕ) (node : K × V) (rest : List (K × V)) where
    abbrev c : WhichBase
    c = t.current_base

    abbrev result : HashTable K V
    result = move_node key c (other c) t idx node rest

    pub move_node-current : result.current_base ≡ c
    unfolding move_node set_items_count set_entry set_base base
    move_node-current = refl

    move_node-rehashing : result.is_rehashing ≡ t.is_rehashing
    unfolding move_node set_items_count set_entry set_base base
    move_node-rehashing = refl

    move_node-insert : result.rehash_insert_base ≡ t.rehash_insert_base
    unfolding move_node set_items_count set_entry set_base base
    move_node-insert = refl

    pub move_node-pos : result.rehash_pos ≡ t.rehash_pos
    unfolding move_node set_items_count set_entry set_base base
    move_node-pos = refl

    move_node-aborted : result.aborted ≡ t.aborted
    unfolding move_node set_items_count set_entry set_base base
    move_node-aborted = refl

    module _ (at : ((base t c).entries idx).items ≡ node ∷ rest) where
      move_node-Placed_here :
          (placed : IsPlaced key t) (j : ℕ)
          → Placed key (base result c).size j ((base result c).entries j).items
      move_node-Placed_here placed j =
          rw (move_node-size, move_node-items, same_base_refl)
            (elim (Bool-cases (j == idx)) [
              | inl e ↦
                  let here = (==_iff j idx).0 e in
                  rw (here, ==_refl idx)
                    (subst (λ m. Placed key (base t c).size idx m) at (placed c idx)).1
              | inr e ↦ rw (e) (placed c j)
            ])

      move_node-Placed_beside :
          (placed : IsPlaced key t) (j : ℕ)
          → Placed key (base result (other c)).size j ((base result (other c)).entries j).items
      move_node-Placed_beside placed j =
          let h = key.hash node.0 % (base t (other c)).size in
          rw (move_node-size, move_node-items, same_base-other)
            (elim (Bool-cases (j == h)) [
              | inl e ↦
                  let here = (==_iff j h).0 e in rw (here, ==_refl h) (refl, placed (other c) h)
              | inr e ↦ rw (e) (placed (other c) j)
            ])

      move_node-Placed : IsPlaced key t → IsPlaced key result
      move_node-Placed placed b j = elim (current_or_other c b) [
        | inl e ↦ rw (e) (move_node-Placed_here placed j)
        | inr e ↦ rw (e) (move_node-Placed_beside placed j)
      ]

      same_beside :
          (j : ℕ)
          → (j == idx) ≡ false
          → ((base result c).entries j).items ≡ ((base t c).entries j).items
      same_beside j ne = rw (move_node-items key c c t idx node rest j, same_base_refl c, ne) refl

      taken : ((base result c).entries idx).items ≡ rest
      taken = rw (move_node-items key c c t idx node rest idx, same_base_refl c, ==_refl idx) refl

      fewer : idx < (base t c).size → in_base t c ≡ in_base result c + 1
      fewer below =
          let written =
            total-write (base t c).entries (base result c).entries (base t c).size idx below
              same_beside in
          let before : length ((base t c).entries idx).items ≡ suc (length rest) = ap length at in
          let after : length ((base result c).entries idx).items ≡ length rest = ap length taken in
          rw (move_node-size key c c t idx node rest) (omega arith)

      more : 0 < (base t (other c)).size → in_base result (other c) ≡ in_base t (other c) + 1
      more sized =
          let d = other c in
          let j = key.hash node.0 % (base t d).size in
          let written =
            total-write (base t d).entries (base result d).entries (base t d).size j (omega arith)
              beside in
          let after : length ((base result d).entries j).items
              ≡ suc (length ((base t d).entries j).items) =
            ap length put in
          rw (move_node-size key c d t idx node rest) (omega arith)
        where
          beside :
              (i : ℕ)
              → (i == (key.hash node.0 % (base t (other c)).size)) ≡ false
              → ((base result (other c)).entries i).items ≡ ((base t (other c)).entries i).items
          beside i ne =
              rw (move_node-items key c (other c) t idx node rest i, same_base-other c, ne) refl

          put :
              ((base result (other c)).entries (key.hash node.0 % (base t (other c)).size)).items
              ≡ node
                ∷ ((base t (other c)).entries (key.hash node.0 % (base t (other c)).size)).items
          put =
              let j = key.hash node.0 % (base t (other c)).size in
              rw (move_node-items key c (other c) t idx node rest j, same_base-other c, ==_refl j)
                refl

      move_node-nodes : idx < (base t c).size → 0 < (base t (other c)).size → nodes result ≡ nodes t
      move_node-nodes below sized =
          let less = fewer below in
          let grown = more sized in rw (nodes-at result c, nodes-at t c) (omega arith)

      move_node-IsCounted : IsCounted (base t c) → idx < (base t c).size → IsCounted (base result c)
      unfolding count_down
      move_node-IsCounted counted below =
          let before = counted.counted in
          let fits = counted.fits in
          let less = fewer below in
          record {
            counted = rw (move_node-items_count c t idx node rest) (omega arith);
            fits = rw (move_node-items_count c t idx node rest) (omega arith);
          }

      -- A node that is moved from the current base to the other.
      pub move_node-Keeps :
          IsTable key t
          → t.is_rehashing ≡ true
          → t.rehash_insert_base ≡ some (other c)
          → 0 < (base t (other c)).size
          → IsCounted (base t c)
          → idx < (base t c).size
          → Keeps t result
      unfolding home or_else
      move_node-Keeps is going e sized_other counted below = record {
        table =
            moving-IsTable key result c move_node-current
              (IsWithin-same key t result move_node-current move_node-rehashing move_node-insert
                move_node-pos move_node-aborted (λ b. move_node-size key c b t idx node rest)
                is.within)
              (rw (move_node-size key c c t idx node rest) is.sized) (move_node-Placed is.placed)
              once (move_node-rehashing ∙ going) (move_node-insert ∙ e)
              (rw (move_node-size key c (other c) t idx node rest) sized_other)
              (move_node-IsCounted counted below);
        same_contents = λ q.
            contents-moving key result c move_node-current q (move_node-rehashing ∙ going)
              (move_node-insert ∙ e)
            ∙ same q
            ∙ sym (contents-moving key t c refl q going e);
        same_rehashing = move_node-rehashing;
        same_insert = move_node-insert;
        same_size = λ b. move_node-size key c b t idx node rest;
        same_nodes = move_node-nodes below sized_other;
      }
        where
          here : home key (base t c) node.0 ≡ idx
          here = (subst (λ m. Placed key (base t c).size idx m) at (is.placed c idx)).0

          moves :
              (q : K)
              → Moved key q
                  (home_items key t c q)
                  (home_items key t (other c) q)
                  (home_items key result c q)
                  (home_items key result (other c) q)
          moves q = move_node-Moves key c t idx node rest q at here (is.apart q)

          once :
              (q : K)
              → count key q (home_items key result c q)
                  + count key q (home_items key result (other c) q)
                ≤ 1
          once q = elim (moves q) [
            | its_key v _ _ _ n ↦ n
            | another_key _ _ m n ↦ let apart = is.apart q in omega arith
          ]

          same :
              (q : K)
              → or_else
                  (lookup key q (home_items key result c q))
                  (lookup key q (home_items key result (other c) q))
                ≡ or_else
                    (lookup key q (home_items key t c q))
                    (lookup key q (home_items key t (other c) q))
          same q = elim (moves q) [
            | its_key v l m n _ ↦ rw (l, m, n) refl
            | another_key l m _ _ ↦ rw (l, m) refl
          ]
