-- ===== src/HashTable/Created.antt =====
-- src/base/base_hash.c: what createHashTable makes.
use forfun.Prelude.{
  true_and_false, ◌*◌, ℕ, zero, suc, ◌≤◌, ◌<◌, ◌≡◌, refl, sym, max, Bool, true, false, none, some,
  subst, arith,
}
use forfun.HashTable.{
  HashKey, first, second, HashTable, base, create_hash_table, new_base, init_hash_entry,
  free_collision_list_alloc, least_hash_entries,
}
use forfun.HashTable.Contents.{lookup, count, home_items, contents, total, nodes}
use forfun.HashTable.Invariant.{IsPlaced, IsTable, contents-still, still-IsTable}

no_items {ℓ} : (K V : Type ℓ) (n : ℕ) → total {K = K} {V = V} (λ _. init_hash_entry) n ≡ 0
unfolding total init_hash_entry
no_items K V zero = refl
no_items K V (suc n) = rw (no_items K V n) refl

module _ {ℓ} {K V : Type ℓ} (key : HashKey K) where
  -- Whatever the code makes of a table that holds nothing.
  abbrev IsEmptyTable : HashTable K V → Type ℓ
  IsEmptyTable t = IsTable key t × (nodes t ≡ 0) × ((q : K) → contents key t q ≡ none)

  fresh : ℕ → HashTable K V
  fresh n = record {
    current_base = first;
    base1 = new_base n;
    base2 = new_base 0;
    free_list = free_collision_list_alloc;
    rehash_pos = 0;
    rehash_insert_base = none;
    is_rehashing = false;
    pause_rehash_count = 0;
    aborted = false;
  }

  fresh-IsEmptyTable : (n : ℕ) → 0 < n → n ≤ 2 * least_hash_entries → IsEmptyTable (fresh n)
  unfolding fresh new_base init_hash_entry nodes base home_items count lookup total
  fresh-IsEmptyTable n sized few = (
    still-IsTable key (fresh n) first refl
        (record {
          running = refl;
          resting = λ _. (few, refl);
          going = λ e. absurd (true_and_false true refl (sym e));
        })
        sized placed (λ q. omega arith) refl (λ q. refl)
        (record { counted = sym (no_items K V n); fits = omega arith }),
    let first_empty = no_items K V n in omega arith,
    λ q. contents-still key (fresh n) first refl q refl,
  )
    where
      placed : IsPlaced key (fresh n)
      placed first j = tt
      placed second j = tt

  -- The table that createHashTable returns for at most 2048 entries is well formed, has no node and no
  -- rehash, and stands for the map that has nothing.
  pub create_hash_table-empty :
      (reserve : ℕ) (a b c : Bool) (t : HashTable K V)
      → reserve ≤ 2 * least_hash_entries
      → create_hash_table reserve a b c ≡ some t
      → IsTable key t × (nodes t ≡ 0) × ((q : K) → contents key t q ≡ none)
  unfolding create_hash_table fresh
  create_hash_table-empty reserve true true true t few made =
      subst IsEmptyTable (some-same made)
        (fresh-IsEmptyTable (max reserve least_hash_entries) (omega arith) (omega arith))
    where
      some-same : {x y : HashTable K V} → some x ≡ some y → x ≡ y
      some-same e = cc
  create_hash_table-empty reserve true true false t few made = absurd (cc)
  create_hash_table-empty reserve true false c t few made = absurd (cc)
  create_hash_table-empty reserve false b c t few made = absurd (cc)
