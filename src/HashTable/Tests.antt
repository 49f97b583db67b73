-- ===== src/HashTable/Tests.antt =====
-- Runs of the hash table, and the instances of the theorems on it.
use forfun.Prelude.{
  ℕ, ◌+◌, ◌^◌, ◌≤◌, ◌<◌, ◌≡◌, refl, true, false, none, some, List, [], ◌∷◌, ◌==◌, ==_iff, ==_refl,
  arith, or_else,
}
use forfun.HashTable.{
  HashKey, first, second, HashTable, HeldLocks, create_hash_table, new_base, base, first_found,
  alloc_collision_list_node, set_items_count, set_entry, set_base, count_up, can_rehash,
  init_hash_entry,
}
use forfun.HashTable.Rehash.{rehash_n_steps, do_rehash}
use forfun.HashTable.Rehash.Moving.{Keeps}
use forfun.HashTable.Rehash.Loop.{rehash_n_steps-returns, do_rehash-Keeps}
use forfun.HashTable.Operations.{
  find_in_hash_table, update_hash_table, remove_from_hash_table, insert_to_hash_table, start_rehash,
  insert_to_hash_table_imp, find_and_do, find_do_func, do_in_base, do_in_list, home, link_and_count,
  exceeds_rehash_ratio, and_head,
}
use forfun.HashTable.Contents.{contents, nodes, lookup, count}
use forfun.HashTable.Invariant.{IsTable}
use forfun.HashTable.Change.{changed}
use forfun.HashTable.Insert.{start_rehash-kept}
use forfun.HashTable.Inserted.{Inserts, insert_to_hash_table-contents}
use forfun.HashTable.Map.{
  search_code, updated, RemovedPair, find_in_hash_table-contents, update_hash_table-contents,
  remove_from_hash_table-contents,
}
use forfun.HashTable.Visit.{map_hash_table}
use forfun.HashTable.Visited.{fold, never_fails, map_hash_table-visits}
use forfun.HashTable.Created.{create_hash_table-empty}
use forfun.HashTable.Client.{
  HashCall, insert, update, call, run, run_map, Refines, call-Refines, run-create_hash_table,
}

-- Numbers, hashed to themselves.
==_same : (a b c : ℕ) → (a == b) ≡ true → (a == c) ≡ (b == c)
==_same a b c h = rw ((==_iff a b).0 h) refl

==_same-right : (a b c : ℕ) → (a == b) ≡ true → (c == a) ≡ (c == b)
==_same-right a b c h = rw ((==_iff a b).0 h) refl

abbrev nat_key : HashKey ℕ
nat_key = record {
  hash = λ n. n;
  same = λ a b. a == b;
  same_refl = ==_refl;
  same_hash = λ a b h. (==_iff a b).0 h;
  same_left = ==_same;
  same_right = ==_same-right;
}

abbrev no_locks : HeldLocks ℕ
no_locks = record { head = λ b i. false; node = λ k. false; update = λ b. false; rehash = false }

-- The locks of the first node and of the second entry are held.
abbrev some_locks : HeldLocks ℕ
some_locks = record {
  head = λ b i. i == 1;
  node = λ k. k == 7;
  update = λ b. false;
  rehash = false;
}

abbrev empty_table : HashTable ℕ ℕ
empty_table = record {
  current_base = first;
  base1 = new_base 1024;
  base2 = new_base 0;
  free_list = 1024;
  rehash_pos = 0;
  rehash_insert_base = none;
  is_rehashing = false;
  pause_rehash_count = 0;
  aborted = false;
}

created : create_hash_table 0 true true true ≡ some empty_table
unfolding create_hash_table
created = refl

-- 7 and 1031 have the same entry.
abbrev calls : List (HashCall ℕ ℕ)
calls =
    insert no_locks 7 70
    ∷ insert no_locks 1031 71
    ∷ insert some_locks 8 80
    ∷ insert no_locks 7 72
    ∷ update no_locks 1031 73
    ∷ []

run-create_hash_table_example :
    Refines nat_key (run nat_key calls empty_table) (run_map nat_key calls (λ _. none))
    × ((run nat_key calls empty_table).1.aborted ≡ false)
run-create_hash_table_example =
    run-create_hash_table nat_key 0 true true true empty_table calls (omega arith) created
      (omega arith)

-- One node, in the first entry.
abbrev one_item : HashTable ℕ ℕ
one_item = (call nat_key (insert no_locks 7 70) empty_table).1

one_item-IsTable : IsTable nat_key one_item × (nodes one_item + 1 < 2 ^ 64)
one_item-IsTable =
    let (is, no_nodes, empty) =
      create_hash_table-empty nat_key 0 true true true empty_table (omega arith) created in
    let (refines, more) =
      call-Refines nat_key (insert no_locks 7 70) empty_table is (omega arith) in
    (refines.2, omega arith)

one_item-at_rest : one_item.is_rehashing ≡ false
unfolding call insert_to_hash_table insert_to_hash_table_imp find_in_hash_table find_and_do
    do_rehash find_do_func first_found do_in_base do_in_list home base new_base init_hash_entry
    alloc_collision_list_node link_and_count exceeds_rehash_ratio set_items_count set_entry set_base
    count_up can_rehash and_head or_else
one_item-at_rest = refl

-- The table when a rehash has begun.
abbrev rehashing : HashTable ℕ ℕ
rehashing = (start_rehash no_locks true one_item).1

rehashing-IsTable : IsTable nat_key rehashing
rehashing-IsTable =
    (start_rehash-kept nat_key no_locks true one_item one_item-IsTable.0 one_item-at_rest).0

rehash_n_steps-returns_example :
    (u : HashTable ℕ ℕ) × (rehash_n_steps nat_key some_locks rehashing 100 ≡ some u)
    × Keeps nat_key rehashing u
    × (u.aborted ≡ false)
unfolding start_rehash
rehash_n_steps-returns_example =
    rehash_n_steps-returns nat_key some_locks rehashing 100 rehashing-IsTable refl

do_rehash-Keeps_example :
    Keeps nat_key rehashing (do_rehash nat_key no_locks rehashing)
    × ((do_rehash nat_key no_locks rehashing).aborted ≡ false)
do_rehash-Keeps_example = do_rehash-Keeps nat_key no_locks rehashing rehashing-IsTable

find_in_hash_table-contents_example :
    let r = find_in_hash_table nat_key no_locks rehashing 7 in
    (r.0 ≡ search_code (contents nat_key rehashing 7))
    × (r.1 ≡ contents nat_key rehashing 7)
    × IsTable nat_key r.2
    × ((q : ℕ) → contents nat_key r.2 q ≡ contents nat_key rehashing q)
    × (nodes r.2 ≡ nodes rehashing)
find_in_hash_table-contents_example =
    find_in_hash_table-contents nat_key no_locks rehashing 7 rehashing-IsTable

update_hash_table-contents_example :
    let r = update_hash_table nat_key no_locks rehashing 7 5 in
    (r.0 ≡ search_code (contents nat_key rehashing 7))
    × (r.1 ≡ contents nat_key rehashing 7)
    × IsTable nat_key r.2
    × ((q : ℕ) → contents nat_key r.2 q ≡ updated nat_key 7 5 (contents nat_key rehashing) q)
    × (nodes r.2 ≡ nodes rehashing)
update_hash_table-contents_example =
    update_hash_table-contents nat_key no_locks rehashing 7 rehashing-IsTable 5

remove_from_hash_table-contents_example :
    let r = remove_from_hash_table nat_key no_locks rehashing 7 in
    (r.0 ≡ search_code (contents nat_key rehashing 7))
    × IsTable nat_key r.2
    × ((q : ℕ) → contents nat_key r.2 q ≡ changed nat_key 7 none (contents nat_key rehashing) q)
    × RemovedPair nat_key (contents nat_key rehashing 7) 7 r.1
    × (nodes r.2 ≤ nodes rehashing)
remove_from_hash_table-contents_example =
    remove_from_hash_table-contents nat_key no_locks rehashing 7 rehashing-IsTable

insert_to_hash_table-contents_example :
    let r = insert_to_hash_table nat_key some_locks false true one_item 1031 71 in
    IsTable nat_key r.1
    × (nodes r.1 ≤ nodes one_item + 1)
    × Inserts nat_key one_item 1031 71 false true r
insert_to_hash_table-contents_example =
    insert_to_hash_table-contents nat_key some_locks false true one_item 1031 71 one_item-IsTable.0
      one_item-IsTable.1

-- The sum of the values.
abbrev add_value : ℕ → ℕ × ℕ → ℕ
add_value s p = s + p.1

map_hash_table-visits_example :
    (m : List (ℕ × ℕ)) × (map_hash_table nat_key no_locks one_item
        (never_fails {E = ℕ} add_value)
        0
        false
      ≡ (fold add_value 0 m, none, one_item))
    × ((q : ℕ) → lookup nat_key q m ≡ contents nat_key one_item q)
    × ((q : ℕ) → count nat_key q m ≤ 1)
map_hash_table-visits_example =
    map_hash_table-visits nat_key no_locks one_item add_value 0 false one_item-IsTable.0
      one_item-at_rest

-- The state that is left when a base of 4096 entries, with its last items behind the end of the base
-- that takes its place, has been moved: the next operation fails an assertion.
abbrev moved_table : HashTable ℕ ℕ
moved_table = record {
  current_base = second;
  base1 = new_base 4096;
  base2 = new_base 2048;
  free_list = 1024;
  rehash_pos = 4000;
  rehash_insert_base = some second;
  is_rehashing = true;
  pause_rehash_count = 0;
  aborted = false;
}

moved_table-aborts : (find_in_hash_table nat_key no_locks moved_table 7).2.aborted ≡ true
unfolding find_in_hash_table find_and_do do_rehash rehash_n_steps first_found do_in_base do_in_list
    home base new_base init_hash_entry can_rehash or_else
moved_table-aborts = refl
