-- ===== src/HashTable/Visited.antt =====
-- src/base/base_hash.c: mapHashTable visits the items of the map.
use forfun.Prelude.{
  ℕ, zero, suc, ◌+◌, ◌≤◌, ◌<◌, ◌≡◌, refl, sym, ◌∙◌, Bool, false, Bool-cases, none, List, [], ◌∷◌,
  ◌++◌, if◌then◌else◌, ltb, ◌==◌, ==_iff, inl, inr, ◌⊎◌, subst, arith, or_else,
}
use forfun.HashTable.{HashKey, HashEntry, HashBase, HashTable, HeldLocks, base}
use forfun.HashTable.Operations.{home}
use forfun.HashTable.Contents.{
  lookup, count, Placed, Placed-count, home_items, contents, count-zero-lookup, home-lt,
}
use forfun.HashTable.Invariant.{or_else-none, IsCounted-IsEmptyBase, IsTable, contents-still}
use forfun.HashTable.Insert.{at_rest, do_rehash-still}
use forfun.HashTable.Visit.{MapFunc, map_list, map_entries, map_base, map_hash_table}

left_le : (a b : ℕ) → a + b ≤ 1 → a ≤ 1
left_le a b few = omega arith

module _ {ℓ} {K V : Type ℓ} where
  -- The items of some entries, from `i` on.
  unfoldable pub items_from : (ℕ → HashEntry K V) → ℕ → ℕ → List (K × V)
  items_from entries i zero = []
  items_from entries i (suc n) = (entries i).items ++ items_from entries (suc i) n

  -- The items that are visited.
  visited : HashBase K V → List (K × V)
  visited b = if ltb 0 b.items_count then items_from b.entries 0 b.size else []

module _ {ℓ} {K V S : Type ℓ} (g : S → K × V → S) where
  -- The state after some items.
  unfoldable pub fold : S → List (K × V) → S
  fold s [] = s
  fold s (p ∷ m) = fold (g s p) m

  fold-append : (s : S) (m n : List (K × V)) → fold s (m ++ n) ≡ fold (fold s m) n
  unfolding fold
  fold-append s [] n = refl
  fold-append s (p ∷ m) n = fold-append (g s p) m n

module _ {ℓ} {K V S E : Type ℓ} (g : S → K × V → S) where
  -- A map function that returns no error.
  abbrev pub never_fails : MapFunc K V S E
  never_fails s p = (g s p, none)

  map_list-fold :
      (ignore : Bool) (s : S) (m : List (K × V))
      → map_list never_fails ignore (s, none) m ≡ (fold g s m, none)
  unfolding map_list fold
  map_list-fold ignore s [] = refl
  map_list-fold ignore s (p ∷ m) = map_list-fold ignore (g s p) m

  map_entries-fold :
      (ignore : Bool) (entries : ℕ → HashEntry K V) (i n : ℕ) (s : S)
      → map_entries never_fails ignore entries i n (s, none)
        ≡ (fold g s (items_from entries i n), none)
  unfolding map_entries items_from fold
  map_entries-fold ignore entries i zero s = refl
  map_entries-fold ignore entries i (suc n) s =
      rw
        (
          map_list-fold ignore s (entries i).items,
          map_entries-fold ignore entries (suc i) n,
          fold-append g s (entries i).items (items_from entries (suc i) n),
        )
        refl

  map_base-fold :
      (ignore : Bool) (b : HashBase K V) (s : S)
      → map_base never_fails ignore b (s, none) ≡ (fold g s (visited b), none)
  unfolding map_base visited fold
  map_base-fold ignore b s = elim (Bool-cases (ltb 0 b.items_count)) [
    | inl e ↦ rw (map_base, visited, e) (map_entries-fold ignore b.entries 0 b.size s)
    | inr e ↦ rw (map_base, visited, e) refl
  ]

module _ {ℓ} {K V : Type ℓ} (key : HashKey K) where
  lookup-append :
      (q : K) (m n : List (K × V))
      → lookup key q (m ++ n) ≡ or_else (lookup key q m) (lookup key q n)
  unfolding lookup or_else
  lookup-append q [] n = refl
  lookup-append q ((k, v) ∷ m) n = elim (Bool-cases (key.same k q)) [
    | inl e ↦ rw (e) refl
    | inr e ↦ rw (e) (lookup-append q m n)
  ]

  count-append : (q : K) (m n : List (K × V)) → count key q (m ++ n) ≡ count key q m + count key q n
  unfolding count
  count-append q [] n = omega arith
  count-append q ((k, v) ∷ m) n = let rest = count-append q m n in ground arith

  module _ (b : HashBase K V) (placed : (j : ℕ) → Placed key b.size j (b.entries j).items)
      (q : K) where
    abbrev h : ℕ
    h = home key b q

    not_in_entry : (i : ℕ) → (h == i) ≡ false → lookup key q (b.entries i).items ≡ none
    unfolding home
    not_in_entry i ne =
        count-zero-lookup key q (b.entries i).items
          (Placed-count key b.size i q (b.entries i).items (placed i) ne)

    apart : (i n : ℕ) → (h < i) ⊎ (i + suc n ≤ h) → (h == i) ≡ false
    apart i n (inl p) = ground arith
    apart i n (inr p) = ground arith

    beyond : (i n : ℕ) → (h < i) ⊎ (i + suc n ≤ h) → (h < suc i) ⊎ (suc i + n ≤ h)
    beyond i n (inl p) = inl (omega arith)
    beyond i n (inr p) = inr (omega arith)

    none_in_entry : (i : ℕ) → (h == i) ≡ false → count key q (b.entries i).items ≡ 0
    unfolding home
    none_in_entry i ne = Placed-count key b.size i q (b.entries i).items (placed i) ne

    lookup-outside :
        (i n : ℕ) → (h < i) ⊎ (i + n ≤ h) → lookup key q (items_from b.entries i n) ≡ none
    unfolding items_from lookup or_else
    lookup-outside i zero out = refl
    lookup-outside i (suc n) out =
        rw
          (
            lookup-append q (b.entries i).items (items_from b.entries (suc i) n),
            not_in_entry i (apart i n out),
          )
          (lookup-outside (suc i) n (beyond i n out))

    lookup-inside :
        (i n : ℕ)
        → i ≤ h
        → h < i + n
        → lookup key q (items_from b.entries i n) ≡ lookup key q (b.entries h).items
    unfolding items_from or_else
    lookup-inside i zero low high = absurd (omega arith)
    lookup-inside i (suc n) low high = elim (Bool-cases (h == i)) [
      | inl e ↦
          let at = (==_iff h i).0 e in
          rw
            (
              lookup-append q (b.entries i).items (items_from b.entries (suc i) n),
              lookup-outside (suc i) n (inl (omega arith)),
              or_else-none _,
              at,
            )
            refl
      | inr e ↦
          rw
            (lookup-append q (b.entries i).items (items_from b.entries (suc i) n), not_in_entry i e)
            (lookup-inside (suc i) n (ground arith) (omega arith))
    ]

    count-outside : (i n : ℕ) → (h < i) ⊎ (i + n ≤ h) → count key q (items_from b.entries i n) ≡ 0
    unfolding items_from count
    count-outside i zero out = refl
    count-outside i (suc n) out =
        let after = count-outside (suc i) n (beyond i n out) in
        rw
          (
            count-append q (b.entries i).items (items_from b.entries (suc i) n),
            none_in_entry i (apart i n out),
          )
          (omega arith)

    count-inside :
        (i n : ℕ)
        → i ≤ h
        → h < i + n
        → count key q (items_from b.entries i n) ≡ count key q (b.entries h).items
    unfolding items_from
    count-inside i zero low high = absurd (omega arith)
    count-inside i (suc n) low high = elim (Bool-cases (h == i)) [
      | inl e ↦
          let at = (==_iff h i).0 e in
          let none_after = count-outside (suc i) n (inl (omega arith)) in
          rw (count-append q (b.entries i).items (items_from b.entries (suc i) n), none_after, at)
            (omega arith)
      | inr e ↦
          let rest = count-inside (suc i) n (ground arith) (omega arith) in
          rw
            (count-append q (b.entries i).items (items_from b.entries (suc i) n), none_in_entry i e)
            (omega arith)
    ]

  -- No key is visited twice.
  visited-once :
      (t : HashTable K V)
      → IsTable key t
      → (q : K) → count key q (visited (base t t.current_base)) ≤ 1
  unfolding home_items visited count
  visited-once t is q =
      let c = t.current_base in
      let b = base t c in
      let below = home-lt key b q is.sized in
      let apart = is.apart q in
      let inside = count-inside b (is.placed c) q 0 b.size (omega arith) (omega arith) in
      elim (Bool-cases (ltb 0 b.items_count)) [
        | inl e ↦ rw (visited, e) (subst (λ n. n ≤ 1) (sym inside) (left_le _ _ apart))
        | inr e ↦ rw (visited, e) (omega arith)
      ]

  visited-reads :
      (t : HashTable K V)
      → IsTable key t
      → t.is_rehashing ≡ false
      → (q : K) → lookup key q (visited (base t t.current_base)) ≡ contents key t q
  unfolding home_items visited lookup
  visited-reads t is resting q =
      let c = t.current_base in
      let b = base t c in
      elim (Bool-cases (ltb 0 b.items_count)) [
        | inl e ↦
            let below = home-lt key b q is.sized in
            rw (visited, e)
              (lookup-inside b (is.placed c) q 0 b.size (omega arith) (omega arith)
                ∙ sym (contents-still key t c refl q resting))
        | inr e ↦
            let counted = (at_rest key t is resting).1 in
            let empty = IsCounted-IsEmptyBase key t c is.sized counted (ground arith) in
            rw (visited, e)
              (sym (
                contents-still key t c refl q resting
                ∙ count-zero-lookup key q (home_items key t c q) (empty q)))
      ]

  -- On a well-formed table at rest, mapHashTable calls a function that never fails on the items of a
  -- list, one after the other: the list read as an association list is the map, and no two of its items
  -- have equal keys, so each item of the map is visited once. The table is left as it was.
  pub map_hash_table-visits :
      {S E : Type ℓ} (locks : HeldLocks K) (t : HashTable K V) (g : S → K × V → S) (s : S)
      (ignore : Bool)
      → IsTable key t
      → t.is_rehashing ≡ false
      → (m : List (K × V)) × (map_hash_table key locks t (never_fails {E = E} g) s ignore
          ≡ (fold g s m, none, t))
        × ((q : K) → lookup key q m ≡ contents key t q)
        × ((q : K) → count key q m ≤ 1)
  unfolding map_hash_table
  map_hash_table-visits locks t g s ignore is resting =
      let b = base t t.current_base in
      (
        visited b,
        simp
            (
              map_hash_table,
              do_rehash-still key locks t resting,
              resting,
              map_base-fold g ignore b s,
            )
            refl,
        visited-reads t is resting,
        visited-once t is,
      )
