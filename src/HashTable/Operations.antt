-- ===== src/HashTable/Operations.antt =====
-- src/base/base_hash.c: the search for a key and the operations on the table.
use forfun.Prelude.{
  ℕ, ◌*◌, ◌%◌, max, Bool, true, ◌&&◌, ◌||◌, not, Option, none, some, List, [], ◌∷◌, if◌then◌else◌,
  ◌==◌, ltb, every_below,
}
use forfun.HashTable.{
  HashKey, HashError, no_error, duplicate_key, no_such_key, out_of_virtual_memory, WhichBase,
  HashBase, HashTable, HeldLocks, least_hash_entries, collision_count_threshold, count_up,
  count_down, other, same_base, pointed, init_hash_entry, base, set_base, set_entry,
  set_items_count, set_collision_count, alloc_collision_list_node, free_collision_list_node,
  first_found,
}
use forfun.HashTable.Rehash.{do_rehash}

-- What a FIND_DO_FUNC makes of the node's value: the code that it returns, the new value, and the
-- value that it hands out.
abbrev pub DoFunc {ℓ} : Type ℓ → Type ℓ
DoFunc V = V → HashError × V × Option V

unfoldable pub find_do_func {ℓ} : {V : Type ℓ} → DoFunc V
find_do_func v = (no_error, v, some v)

-- The value handed out is the old one, which free_func_p gets.
unfoldable pub update_do_func {ℓ} : {V : Type ℓ} → V → DoFunc V
update_do_func w v = (no_error, w, some v)

-- The locks that are held for the second search of an insertion: the entry's too.
unfoldable pub and_head {ℓ} : {K : Type ℓ} → HeldLocks K → WhichBase → ℕ → HeldLocks K
and_head locks b i = record locks { head = λ c j. locks.head c j || (same_base c b && (j == i)) }

module _ {ℓ} {K V : Type ℓ} where
  -- The statistics of a base whose entry had so many items.
  unfoldable pub count_removal : HashTable K V → WhichBase → ℕ → HashTable K V
  count_removal t b list_length =
      let changed =
        if ltb collision_count_threshold list_length
        then set_collision_count t b (count_down (base t b).collision_count)
        else t in
      set_items_count changed b (count_down (base changed b).items_count)

  -- collision_count / items_count > REHASH_RATIO, as fractions.
  unfoldable pub exceeds_rehash_ratio : HashBase K V → Bool
  exceeds_rehash_ratio b = ltb b.items_count (5 * b.collision_count)

  -- What is asserted of the old entries of a base, when it has some: no nodes, and no lock held.
  unfoldable pub unused_entries : HeldLocks K → WhichBase → HashBase K V → Bool
  unused_entries locks b x =
      (x.size == 0)
      || every_below (max x.size least_hash_entries)
          (λ i. ltb (x.entries i).list_length 1 && not (locks.head b i))

  -- The base that is not the current one gets new entries.
  unfoldable pub start_rehash : HeldLocks K → Bool → HashTable K V → HashError × HashTable K V
  start_rehash locks entries_allocated t =
      let b = other t.current_base in
      let pointing = record t { rehash_insert_base = some b } in
      if entries_allocated
      then (
        no_error,
        record (set_base pointing b (record (base t b) {
          entries = λ _. init_hash_entry;
          size = 2 * max (base t b).size least_hash_entries;
        })) {
          rehash_pos = 0;
          is_rehashing = true;
          aborted = t.aborted || not (unused_entries locks b (base t b));
        },
      )
      else (out_of_virtual_memory, pointing)

  -- The new node is linked and counted, and a rehash is started when there are many collisions. The
  -- code sets no flag for a new collision: collision_count stays.
  unfoldable pub link_and_count :
      HeldLocks K → Bool → HashTable K V → WhichBase → ℕ → K → V → HashError × HashTable K V
  link_and_count locks entries_allocated t b i k v =
      let entry = (base t b).entries i in
      let linked =
        set_entry t b i
          (record { items = (k, v) ∷ entry.items; list_length = count_up entry.list_length }) in
      let counted = set_items_count linked b (count_up (base linked b).items_count) in
      if exceeds_rehash_ratio (base counted b) && not counted.is_rehashing && not locks.rehash
      then start_rehash locks entries_allocated counted
      else (no_error, counted)

module _ {ℓ} {K V : Type ℓ} (key : HashKey K) where
  -- hash_key % size
  unfoldable pub home : HashBase K V → K → ℕ
  home b k = key.hash k % b.size

  abbrev pub consed :
      K × V
      → Option (HashError × List (K × V) × Option V)
      → Option (HashError × List (K × V) × Option V)
  consed p none = none
  consed p (some (e, m, out)) = some (e, p ∷ m, out)

  unfoldable pub do_in_list :
      DoFunc V → K → List (K × V) → Option (HashError × List (K × V) × Option V)
  do_in_list do_func k [] = none
  do_in_list do_func k ((j, v) ∷ m) =
      let rest = do_in_list do_func k m in
      let (e, w, out) = do_func v in
      if key.same j k then some (e, (j, w) ∷ m, out) else consed (j, v) rest

  -- The search of one base: the list of the key's entry is written back.
  unfoldable pub do_in_base :
      DoFunc V → K → HashTable K V → WhichBase → Option (HashError × Option V × HashTable K V)
  do_in_base do_func k t b =
      let i = home (base t b) k in
      let entry = (base t b).entries i in
      elim (do_in_list do_func k entry.items) [
        | none ↦ none
        | some (e, m, out) ↦
            some (e, out, set_entry t b i (record { items = m; list_length = entry.list_length }))
      ]

  abbrev pub or_no_such_key {κ} :
      {R : Type κ}
      → HashTable K V
      → Option (HashError × Option R × HashTable K V)
      → HashError × Option R × HashTable K V
  or_no_such_key t none = (no_such_key, none, t)
  or_no_such_key t (some r) = r

  unfoldable pub find_and_do :
      HeldLocks K → HashTable K V → K → DoFunc V → HashError × Option V × HashTable K V
  find_and_do locks t k do_func =
      let u = do_rehash key locks t in or_no_such_key u (first_found u (do_in_base do_func k u))

  unfoldable pub find_in_hash_table :
      HeldLocks K → HashTable K V → K → HashError × Option V × HashTable K V
  find_in_hash_table locks t k = find_and_do locks t k find_do_func

  unfoldable pub update_hash_table :
      HeldLocks K → HashTable K V → K → V → HashError × Option V × HashTable K V
  update_hash_table locks t k w = find_and_do locks t k (update_do_func w)

  abbrev pub consed_removed :
      K × V → Option ((K × V) × List (K × V)) → Option ((K × V) × List (K × V))
  consed_removed p none = none
  consed_removed p (some (q, m)) = some (q, p ∷ m)

  unfoldable pub remove_from_list : K → List (K × V) → Option ((K × V) × List (K × V))
  remove_from_list k [] = none
  remove_from_list k ((j, v) ∷ m) =
      let rest = remove_from_list k m in
      if key.same j k then some ((j, v), m) else consed_removed (j, v) rest

  unfoldable pub remove_from_base :
      K → HashTable K V → WhichBase → Option (HashError × Option (K × V) × HashTable K V)
  remove_from_base k t b =
      let i = home (base t b) k in
      let entry = (base t b).entries i in
      elim (remove_from_list k entry.items) [
        | none ↦ none
        | some (p, m) ↦
            let unlinked =
              set_entry t b i (record { items = m; list_length = count_down entry.list_length }) in
            some (
              no_error,
              some p,
              free_collision_list_node (count_removal unlinked b entry.list_length),
            )
      ]

  -- The pair handed out is the one that free_func_p gets.
  unfoldable pub remove_from_hash_table :
      HeldLocks K → HashTable K V → K → HashError × Option (K × V) × HashTable K V
  remove_from_hash_table locks t k =
      let u = do_rehash key locks t in or_no_such_key u (first_found u (remove_from_base k u))

  abbrev pub link_if_absent :
      HeldLocks K
      → Bool
      → WhichBase
      → ℕ
      → K
      → V
      → HashError × Option V × HashTable K V
      → HashError × HashTable K V
  link_if_absent locks entries_allocated b i k v (no_such_key, _, t) =
      link_and_count locks entries_allocated t b i k v
  link_if_absent locks entries_allocated b i k v (no_error, _, t) =
      (duplicate_key, free_collision_list_node t)
  link_if_absent locks entries_allocated b i k v (e, _, t) = (e, free_collision_list_node t)

  -- With a node, the key is searched again under the lock of its entry.
  abbrev pub insert_node :
      HeldLocks K
      → Bool
      → WhichBase
      → ℕ
      → K
      → V
      → HashTable K V
      → Option (HashTable K V)
      → HashError × HashTable K V
  insert_node locks entries_allocated b i k v t none = (out_of_virtual_memory, t)
  insert_node locks entries_allocated b i k v t (some u) =
      link_if_absent locks entries_allocated b i k v
        (find_and_do (and_head locks b i) u k find_do_func)

  abbrev pub insert_if_absent :
      HeldLocks K
      → Bool
      → Bool
      → WhichBase
      → ℕ
      → K
      → V
      → HashError × Option V × HashTable K V
      → HashError × HashTable K V
  insert_if_absent locks area_allocated entries_allocated b i k v (no_such_key, _, t) =
      insert_node locks entries_allocated b i k v t (alloc_collision_list_node area_allocated t)
  insert_if_absent locks area_allocated entries_allocated b i k v (no_error, _, t) =
      (duplicate_key, t)
  insert_if_absent locks area_allocated entries_allocated b i k v (e, _, t) = (e, t)

  unfoldable pub insert_to_hash_table_imp :
      HeldLocks K → Bool → Bool → HashTable K V → WhichBase → K → V → HashError × HashTable K V
  insert_to_hash_table_imp locks area_allocated entries_allocated t b k v =
      insert_if_absent locks area_allocated entries_allocated b (home (base t b) k) k v
        (find_in_hash_table locks t k)

  -- Whether malloc succeeds, for an area of nodes and for the entries of a rehash.
  unfoldable pub insert_to_hash_table :
      HeldLocks K → Bool → Bool → HashTable K V → K → V → HashError × HashTable K V
  insert_to_hash_table locks area_allocated entries_allocated t k v =
      let u = do_rehash key locks t in
      insert_to_hash_table_imp locks area_allocated entries_allocated u
        (if u.is_rehashing then pointed u.rehash_insert_base else u.current_base) k v
