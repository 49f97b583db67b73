-- ===== src/HashTable/Change.antt =====
-- src/base/base_hash.c: what a change of one entry, the key's, makes of the table and of its map.
use forfun.Prelude.{
  ℕ, ◌%◌, ◌≤◌, ◌≡◌, refl, sym, true, false, ◌&&◌, Bool-cases, Option, none, some, List, [], ◌∷◌,
  if◌then◌else◌, ◌==◌, ==_iff, ==_refl, inl, inr, arith, or_else,
}
use forfun.HashTable.{HashKey, WhichBase, HashTable, other, same_base, base}
use forfun.HashTable.Operations.{home}
use forfun.HashTable.Contents.{lookup, count, Placed, home_items, home_same, count-zero-lookup}
use forfun.HashTable.Invariant.{or_else-none, IsApart, IsPlaced}
use forfun.HashTable.Rehash.Keeps.{same_base_refl, same_base-other}
use forfun.HashTable.Rehash.Moving.{current_or_other}

unfoldable pub found {ℓ} : {V : Type ℓ} → Option V → ℕ
found none = 0
found (some v) = 1

found-le {ℓ} : {V : Type ℓ} (o : Option V) → found o ≤ 1
unfolding found
found-le none = omega arith
found-le (some v) = omega arith

module _ {ℓ} {K V : Type ℓ} (key : HashKey K) where
  -- The map with the value at one key replaced, or taken away.
  abbrev pub changed : K → Option V → (K → Option V) → K → Option V
  changed k ov f q = if key.same k q then ov else f q

  pub lookup-same :
      (k q : K) (m : List (K × V)) → key.same k q ≡ true → lookup key q m ≡ lookup key k m
  unfolding lookup
  lookup-same k q [] e = refl
  lookup-same k q ((j, v) ∷ m) e = rw (key.same_right k q j e, lookup-same k q m e) refl

  pub count-same :
      (k q : K) (m : List (K × V)) → key.same k q ≡ true → count key q m ≡ count key k m
  unfolding count
  count-same k q [] e = refl
  count-same k q ((j, v) ∷ m) e = rw (key.same_right k q j e, count-same k q m e) refl

  -- The base is asked for keys: it is the current one, or the one that a rehash inserts to.
  pub data InUse (t : HashTable K V) (b : WhichBase) : Type ℓ where
    current : b ≡ t.current_base → InUse t b
    target :
        t.is_rehashing ≡ true
        → t.rehash_insert_base ≡ some (other t.current_base)
        → b ≡ other t.current_base
        → InUse t b

  -- Only the list of one entry differs, and the counts of its base.
  pub record EntryChanged (t u : HashTable K V) (b : WhichBase) (i : ℕ) (m : List (K × V))
      : Type ℓ where
    pub same_current : u.current_base ≡ t.current_base
    pub same_rehashing : u.is_rehashing ≡ t.is_rehashing
    pub same_insert : u.rehash_insert_base ≡ t.rehash_insert_base
    pub same_pos : u.rehash_pos ≡ t.rehash_pos
    pub same_aborted : u.aborted ≡ t.aborted
    pub same_size : (c : WhichBase) → (base u c).size ≡ (base t c).size
    pub items :
        (c : WhichBase) (j : ℕ)
        → ((base u c).entries j).items
          ≡ (if same_base b c && (j == i) then m else ((base t c).entries j).items)
    pub other_count : (base u (other b)) ≡ base t (other b)

  -- The new list has the value at the key, and the other keys as before.
  pub record ListChanged (k : K) (ov : Option V) (before after : List (K × V)) : Type ℓ where
    pub reads : (q : K) → lookup key q after ≡ changed k ov (λ p. lookup key p before) q
    pub counts :
        (q : K)
        → (key.same k q ≡ true → count key q after ≡ found ov)
          × (key.same k q ≡ false → count key q after ≡ count key q before)
    pub placed :
        (size j : ℕ) → Placed key size j before → key.hash k % size ≡ j → Placed key size j after

  module _ (t u : HashTable K V) (b : WhichBase) (k : K) (ov : Option V) (m : List (K × V))
      (entry : EntryChanged t u b (home key (base t b) k) m)
      (list : ListChanged k ov (home_items key t b k) m) where
    pub changed-home :
        (q : K)
        → home_items key u b q
          ≡ (if home key (base t b) q == home key (base t b) k then m else home_items key t b q)
    unfolding home_items home
    changed-home q = rw (home_items, home, entry.same_size b, entry.items b, same_base_refl b) refl

    pub same-home : (q : K) → home_items key u (other b) q ≡ home_items key t (other b) q
    unfolding home_items home
    same-home q =
        rw (home_items, home, entry.same_size (other b), entry.items (other b), same_base-other b)
          refl

    -- The entry of a key that is not in the changed entry.
    elsewhere :
        (q : K) → (home key (base t b) q == home key (base t b) k) ≡ false → key.same k q ≡ false
    elsewhere q e = elim (Bool-cases (key.same k q)) [
      | inr s ↦ s
      | inl s ↦
          let same =
            (==_iff (home key (base t b) q) (home key (base t b) k)).1
              (sym (home_same key (base t b) k q s)) in
          absurd (cc)
    ]

    changed-Placed_here :
        IsPlaced key t → (j : ℕ) → Placed key (base u b).size j ((base u b).entries j).items
    unfolding home_items home
    changed-Placed_here placed j =
        let h = home key (base t b) k in
        rw (entry.same_size b, entry.items b j, same_base_refl b)
          (elim (Bool-cases (j == h)) [
            | inl e ↦
                rw ((==_iff j h).0 e, ==_refl h) (list.placed (base t b).size h (placed b h) refl)
            | inr e ↦ rw (e) (placed b j)
          ])

    pub changed-Placed : IsPlaced key t → IsPlaced key u
    changed-Placed placed c j = elim (current_or_other b c) [
      | inl e ↦ rw (e) (changed-Placed_here placed j)
      | inr e ↦ rw (e, entry.other_count) (placed (other b) j)
    ]

    home_items-at :
        (q : K)
        → (home key (base t b) q == home key (base t b) k) ≡ true
        → home_items key t b q ≡ home_items key t b k
    unfolding home_items
    home_items-at q e =
        rw (home_items, (==_iff (home key (base t b) q) (home key (base t b) k)).0 e) refl

    pub changed-lookup :
        (q : K)
        → lookup key q (home_items key u b q)
          ≡ changed k ov (λ p. lookup key p (home_items key t b p)) q
    changed-lookup q = elim (Bool-cases (home key (base t b) q == home key (base t b) k)) [
      | inl e ↦ rw (changed-home q, e, home_items-at q e) (list.reads q)
      | inr e ↦ rw (changed-home q, e, elsewhere q e) refl
    ]

    pub changed-count :
        (q : K)
        → (key.same k q ≡ true → count key q (home_items key u b q) ≡ found ov)
          × (key.same k q ≡ false
              → count key q (home_items key u b q) ≡ count key q (home_items key t b q))
    changed-count q = elim (Bool-cases (home key (base t b) q == home key (base t b) k)) [
      | inl e ↦ rw (changed-home q, e, home_items-at q e) (list.counts q)
      | inr e ↦
          let apart = elsewhere q e in rw (changed-home q, e) ((λ s. absurd (cc)), (λ s. refl))
    ]

    module _ (absent : count key k (home_items key t (other b) k) ≡ 0) where
      pub absent_at : (q : K) → key.same k q ≡ true → count key q (home_items key t (other b) q) ≡ 0
      unfolding home_items
      absent_at q s =
          rw (home_items, sym (home_same key (base t (other b)) k q s), count-same k q _ s) absent

      pub changed-IsApart : IsApart key t b → IsApart key u b
      changed-IsApart apart q = elim (Bool-cases (key.same k q)) [
        | inl s ↦
            let here = (changed-count q).0 s in
            let there = absent_at q s in let few = found-le ov in rw (same-home q) (omega arith)
        | inr s ↦
            let here = (changed-count q).1 s in
            let before = apart q in rw (same-home q) (omega arith)
      ]

      pub either_order :
          (q : K)
          → (or_else
                (lookup key q (home_items key u b q))
                (lookup key q (home_items key u (other b) q))
              ≡ changed k ov
                  (λ p.
                    or_else
                      (lookup key p (home_items key t b p))
                      (lookup key p (home_items key t (other b) p)))
                  q)
            × (or_else
                  (lookup key q (home_items key u (other b) q))
                  (lookup key q (home_items key u b q))
                ≡ changed k ov
                    (λ p.
                      or_else
                        (lookup key p (home_items key t (other b) p))
                        (lookup key p (home_items key t b p)))
                    q)
      unfolding or_else
      either_order q = elim (Bool-cases (key.same k q)) [
        | inl s ↦
            let none_there = count-zero-lookup key q _ (absent_at q s) in
            rw (changed-lookup q, same-home q, s, none_there) (or_else-none ov, refl)
        | inr s ↦ rw (changed-lookup q, same-home q, s) (refl, refl)
      ]
