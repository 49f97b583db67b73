-- ===== src/HashTable/Visit.antt =====
-- src/base/base_hash.c: mapHashTable and destroyHashTable.
--
-- A map function takes the state that it changes, in place of `arg`, and returns its code: `none` for
-- NO_ERROR.
use forfun.Prelude.{ℕ, zero, suc, Bool, true, Option, none, some, List, [], ◌∷◌, if◌then◌else◌, ltb}
use forfun.HashTable.{HashKey, HashEntry, HashBase, HashTable, HeldLocks, base, pointed}
use forfun.HashTable.Rehash.{do_rehash}

abbrev pub MapFunc {ℓ} : Type ℓ → Type ℓ → Type ℓ → Type ℓ → Type ℓ
MapFunc K V S E = S → K × V → S × Option E

module _ {ℓ} {K V S E : Type ℓ} where
  -- The list of an entry. An error that is not ignored leaves the list.
  unfoldable pub map_list : MapFunc K V S E → Bool → S × Option E → List (K × V) → S × Option E
  map_list f ignore_error (s, error) [] = (s, error)
  map_list f ignore_error (s, error) (p ∷ m) =
      let (s1, e) = f s p in
      let rest = map_list f ignore_error (s1, none) m in
      elim e [ none ↦ rest | some e ↦ if ignore_error then rest else (s1, some e) ]

  -- The entries from `i` on. The error of an entry does not end the loop.
  unfoldable pub map_entries :
      MapFunc K V S E → Bool → (ℕ → HashEntry K V) → ℕ → ℕ → S × Option E → S × Option E
  map_entries f ignore_error entries i zero r = r
  map_entries f ignore_error entries i (suc n) r =
      map_entries f ignore_error entries (suc i) n (map_list f ignore_error r (entries i).items)

  unfoldable pub map_base : MapFunc K V S E → Bool → HashBase K V → S × Option E → S × Option E
  map_base f ignore_error b r =
      if ltb 0 b.items_count then map_entries f ignore_error b.entries 0 b.size r else r

  unfoldable pub map_hash_table :
      HashKey K
      → HeldLocks K
      → HashTable K V
      → MapFunc K V S E
      → S
      → Bool
      → S × Option E × HashTable K V
  map_hash_table key locks t f s ignore_error =
      let u = do_rehash key locks t in
      let (s1, error) = map_base f ignore_error (base u u.current_base) (s, none) in
      let (s2, error2) =
        map_base f ignore_error (base u (pointed u.rehash_insert_base)) (s1, none) in
      elim error [
        | some e ↦ (s1, some e, u)
        | none ↦ if u.is_rehashing then (s2, error2, u) else (s1, none, u)
      ]

  -- What free_func_p, if there is one, makes of its state.
  unfoldable pub destroy_hash_table :
      HashKey K → HeldLocks K → HashTable K V → Option (MapFunc K V S E) → S → S
  destroy_hash_table key locks t none s = s
  destroy_hash_table key locks t (some free_func) s =
      (map_hash_table key locks t free_func s true).0
