-- ===== src/HashTable/Map.antt =====
-- src/base/base_hash.c: findInHashTable, updateHashTable and removeFromHashTable as operations on a
-- map.
use forfun.Prelude.{
  ◌+◌, ◌≤◌, ◌<◌, ◌≡◌, refl, sym, ◌∙◌, true, Bool-cases, Option, none, some, length, inl, inr, arith,
}
use forfun.HashTable.{
  HashKey, HashError, no_error, no_such_key, WhichBase, HashEntry, HashTable, HeldLocks, base,
  count_down, first_found, pointed,
}
use forfun.HashTable.Operations.{
  home, find_do_func, find_in_hash_table, update_do_func, update_hash_table, remove_from_base,
  remove_from_hash_table,
}
use forfun.HashTable.Contents.{nodes, lookup, home_items, contents, home_same, home-lt}
use forfun.HashTable.Invariant.{IsTable, IsCounted}
use forfun.HashTable.Rehash.{do_rehash}
use forfun.HashTable.Rehash.Loop.{do_rehash-Keeps}
use forfun.HashTable.Change.{changed, lookup-same}
use forfun.HashTable.Changed.{changed-contents}
use forfun.HashTable.Search.{located}
use forfun.HashTable.Entries.{
  erase, remove_from_list-none, remove_from_list-some, erase-ListChanged,
}
use forfun.HashTable.Tables.{
  changed-nodes, InUse-sized, unlinked, unlinked-EntryChanged, unlinked-items_count, changed-total,
}
use forfun.HashTable.Laws.{once_in, not_there, there, find_and_do-FindDo}

-- The code of a search, from what the map has at the key.
abbrev pub search_code {ℓ} : {V : Type ℓ} → Option V → HashError
search_code none = no_such_key
search_code (some v) = no_error

module _ {ℓ} {K V : Type ℓ} (key : HashKey K) where
  -- The map with the value at a key replaced, when it has one.
  abbrev pub updated : K → V → (K → Option V) → K → Option V
  updated k w f q = elim (f k) [ none ↦ f q | some v ↦ changed key k (some w) f q ]

  updated-none : (k : K) (w : V) (f : K → Option V) (q : K) → f k ≡ none → updated k w f q ≡ f q
  updated-none k w f q e = rw (updated, e) refl

  updated-some :
      (k : K) (w : V) (f : K → Option V) (q : K) (v : V)
      → f k ≡ some v
      → updated k w f q ≡ changed key k (some w) f q
  updated-some k w f q v e = rw (updated, e) refl

  home-lookup-same :
      (t : HashTable K V) (b : WhichBase) (k q : K)
      → key.same k q ≡ true
      → lookup key q (home_items key t b q) ≡ lookup key k (home_items key t b k)
  unfolding home_items
  home-lookup-same t b k q s =
      rw (home_items, sym (home_same key (base t b) k q s)) (lookup-same key k q _ s)

  pub contents-same :
      (t : HashTable K V) (k q : K) → key.same k q ≡ true → contents key t q ≡ contents key t k
  unfolding contents first_found
  contents-same t k q s =
      rw
        (
          home-lookup-same t t.current_base k q s,
          home-lookup-same t (pointed t.rehash_insert_base) k q s,
        )
        refl

  -- A value that is already there, and none where there is none.
  pub changed_idle :
      (t : HashTable K V) (k q : K) (ov : Option V)
      → contents key t k ≡ ov
      → changed key k ov (contents key t) q ≡ contents key t q
  changed_idle t k q ov e = elim (Bool-cases (key.same k q)) [
    | inl s ↦ rw (s) (sym (contents-same t k q s ∙ e))
    | inr s ↦ rw (s) refl
  ]

  module _ (locks : HeldLocks K) (t : HashTable K V) (k : K) (is : IsTable key t) where
    -- findInHashTable on a well-formed table returns what the map has at the key, with ER_HASH_NO_SUCH_KEY
    -- when it has nothing, whichever locks are held; the table that it leaves, some steps of a rehash
    -- later, is well formed and stands for the same map. No assertion fails: a well-formed table has
    -- not aborted.
    pub find_in_hash_table-contents :
        let r = find_in_hash_table key locks t k in
        (r.0 ≡ search_code (contents key t k))
        × (r.1 ≡ contents key t k)
        × IsTable key r.2
        × ((q : K) → contents key r.2 q ≡ contents key t q)
        × (nodes r.2 ≡ nodes t)
    unfolding find_in_hash_table find_do_func
    find_in_hash_table-contents = elim (find_and_do-FindDo key locks find_do_func t k is) [
      | not_there e r ↦
          let kept = (do_rehash-Keeps key locks t is).0 in
          rw (e, r) (refl, refl, kept.table, kept.same_contents, kept.same_nodes)
      | there v e code out table map n ↦
          rw (e) (code, out, table, λ q. map q ∙ changed_idle t k q (some v) e, n)
    ]

    -- updateHashTable on a well-formed table replaces the value at the key and hands the old one to
    -- free_func_p, when the map has one; when it has none, it returns ER_HASH_NO_SUCH_KEY and the map is
    -- as before. The table stays well formed, so no assertion fails.
    pub update_hash_table-contents :
        (w : V)
        → let r = update_hash_table key locks t k w in
          (r.0 ≡ search_code (contents key t k))
          × (r.1 ≡ contents key t k)
          × IsTable key r.2
          × ((q : K) → contents key r.2 q ≡ updated k w (contents key t) q)
          × (nodes r.2 ≡ nodes t)
    unfolding update_hash_table update_do_func
    update_hash_table-contents w = elim (find_and_do-FindDo key locks (update_do_func w) t k is) [
      | not_there e r ↦
          let kept = (do_rehash-Keeps key locks t is).0 in
          rw (e, r)
            (
              refl,
              refl,
              kept.table,
              λ q. kept.same_contents q ∙ sym (updated-none k w (contents key t) q e),
              kept.same_nodes,
            )
      | there v e code out table map n ↦
          rw (e) (code, out, table, λ q. map q ∙ sym (updated-some k w (contents key t) q v e), n)
    ]

  -- The pair that a removal hands out: none, or the value that was there.
  abbrev pub RemovedPair : Option V → K → Option (K × V) → Type ℓ
  RemovedPair before k none = before ≡ none
  RemovedPair before k (some (j, v)) = (before ≡ some v) × (key.same j k ≡ true)

  -- The entry after a removal, and the pair that was removed.
  remove_from_base-none :
      (t : HashTable K V) (k : K) (b : WhichBase)
      → lookup key k (home_items key t b k) ≡ none
      → remove_from_base key k t b ≡ none
  unfolding remove_from_base home_items
  remove_from_base-none t k b h =
      rw
        (
          remove_from_base,
          remove_from_list-none key k (((base t b).entries (home key (base t b) k)).items) h,
        )
        refl

  abbrev erased : HashTable K V → K → WhichBase → HashTable K V
  erased t k b =
      let i = home key (base t b) k in
      let n = ((base t b).entries i).list_length in
      unlinked t b i
        (record { items = erase key k (home_items key t b k); list_length = count_down n }) n

  remove_from_base-some :
      (t : HashTable K V) (k : K) (b : WhichBase) (v : V)
      → lookup key k (home_items key t b k) ≡ some v
      → (j : K) × (key.same j k ≡ true)
        × (remove_from_base key k t b ≡ some (no_error, some (j, v), erased t k b))
        × (length (erase key k (home_items key t b k)) + 1 ≡ length (home_items key t b k))
  unfolding remove_from_base home_items
  remove_from_base-some t k b v h =
      let m = ((base t b).entries (home key (base t b) k)).items in
      let (j, same, removed, shorter) = remove_from_list-some key k m v h in
      (j, same, rw (remove_from_base, removed) refl, shorter)

  erased-IsCounted :
      (t : HashTable K V) (k : K) (b : WhichBase)
      → 0 < (base t b).size
      → length (erase key k (home_items key t b k)) + 1 ≡ length (home_items key t b k)
      → IsCounted (base t b)
      → IsCounted (base (erased t k b) b)
  unfolding home_items count_down
  erased-IsCounted t k b sized shorter c =
      let i = home key (base t b) k in
      let n = ((base t b).entries i).list_length in
      let m = erase key k (home_items key t b k) in
      let e : HashEntry K V = record { items = m; list_length = count_down n } in
      let whole =
        changed-total key t (erased t k b) b i m (unlinked-EntryChanged key t b i e n)
          (home-lt key (base t b) k sized) in
      let counted = c.counted in
      let fits = c.fits in
      record {
        counted = rw (unlinked-items_count t b i e n) (omega arith);
        fits = rw (unlinked-items_count t b i e n) (omega arith);
      }

  erased-nodes :
      (t : HashTable K V) (k : K) (b : WhichBase)
      → 0 < (base t b).size
      → length (erase key k (home_items key t b k)) + 1 ≡ length (home_items key t b k)
      → nodes (erased t k b) + 1 ≡ nodes t
  unfolding home_items
  erased-nodes t k b sized shorter =
      let i = home key (base t b) k in
      let n = ((base t b).entries i).list_length in
      let m = erase key k (home_items key t b k) in
      let e : HashEntry K V = record { items = m; list_length = count_down n } in
      let whole =
        changed-nodes key t (erased t k b) b i m (unlinked-EntryChanged key t b i e n)
          (home-lt key (base t b) k sized) in
      omega arith

  module _ (locks : HeldLocks K) (t : HashTable K V) (k : K) (is : IsTable key t) where
    -- removeFromHashTable on a well-formed table takes the key from the map. With no error it hands to
    -- free_func_p the value that the map had, with a key that compares equal; when the map has none, it
    -- returns ER_HASH_NO_SUCH_KEY and the map is as before. The table stays well formed, so no
    -- assertion fails.
    pub remove_from_hash_table-contents :
        let r = remove_from_hash_table key locks t k in
        (r.0 ≡ search_code (contents key t k))
        × IsTable key r.2
        × ((q : K) → contents key r.2 q ≡ changed key k none (contents key t) q)
        × RemovedPair (contents key t k) k r.1
        × (nodes r.2 ≤ nodes t)
    unfolding remove_from_hash_table
    remove_from_hash_table-contents =
        let u = do_rehash key locks t in
        let kept = (do_rehash-Keeps key locks t is).0 in
        let misses = remove_from_base-none u k in
        elim (located key u k kept.table) [
          | inl m ↦
              let nothing = sym (kept.same_contents k) ∙ m.reads in
              rw (m.finds_none _ (remove_from_base key k u) misses, nothing)
                (
                  refl,
                  kept.table,
                  λ q. kept.same_contents q ∙ sym (changed_idle t k q none nothing),
                  refl,
                  (let same = kept.same_nodes in omega arith),
                )
          | inr p ↦
              let b = p.which in
              let m = home_items key u b k in
              let i = home key (base u b) k in
              let n = ((base u b).entries i).list_length in
              let e : HashEntry K V = record {
                items = erase key k m;
                list_length = count_down n;
              } in
              let (j, same, removed, shorter) = remove_from_base-some u k b p.value p.holds in
              let (table, map) =
                changed-contents key u (erased u k b) b k none (erase key k m)
                  (unlinked-EntryChanged key u b i e n)
                  (erase-ListChanged key k m (once_in key locks u b k kept.table p.in_use)) p.absent
                  (erased-IsCounted u k b (InUse-sized key u b kept.table p.in_use) shorter)
                  kept.table p.in_use in
              let found = sym (kept.same_contents k) ∙ p.reads in
              let same_nodes = kept.same_nodes in
              let fewer = erased-nodes u k b (InUse-sized key u b kept.table p.in_use) shorter in
              rw (p.finds _ (remove_from_base key k u) _ misses removed, found)
                (
                  refl,
                  table,
                  λ q. map q ∙ rw (kept.same_contents q) refl,
                  (refl, same),
                  omega arith,
                )
        ]
