-- ===== src/HashTable/Client.antt =====
-- src/base/base_hash.c: what a client of the table sees over a sequence of calls.
use mathlib.Core.Path.{fun_ext}
use forfun.Prelude.{
  ℕ, ◌*◌, ◌+◌, ◌^◌, ◌≤◌, ◌<◌, ◌≡◌, refl, sym, Bool, true, false, Option, none, some, List, [], ◌∷◌,
  length, inl, inr, ◌⊎◌, subst, arith,
}
use forfun.HashTable.{
  HashKey, HashError, no_error, duplicate_key, out_of_virtual_memory, HashTable, HeldLocks,
  create_hash_table, least_hash_entries,
}
use forfun.HashTable.Operations.{
  find_in_hash_table, update_hash_table, remove_from_hash_table, insert_to_hash_table,
}
use forfun.HashTable.Contents.{contents, nodes}
use forfun.HashTable.Invariant.{IsTable}
use forfun.HashTable.Change.{changed}
use forfun.HashTable.Map.{
  search_code, updated, RemovedPair, find_in_hash_table-contents, update_hash_table-contents,
  remove_from_hash_table-contents,
}
use forfun.HashTable.Inserted.{duplicate, no_node, inserted, insert_to_hash_table-contents}
use forfun.HashTable.Created.{create_hash_table-empty}

-- A call, with the locks that others hold during it.
pub data HashCall {ℓ} (K V : Type ℓ) : Type ℓ where
  insert : HeldLocks K → K → V → HashCall K V
  update : HeldLocks K → K → V → HashCall K V
  remove : HeldLocks K → K → HashCall K V
  find : HeldLocks K → K → HashCall K V

-- The code that a call returns, and the value that it hands to the caller or to free_func_p.
abbrev pub Answer {ℓ} : Type ℓ → Type ℓ
Answer V = HashError × Option V

abbrev value_of {ℓ} : {K V : Type ℓ} → Option (K × V) → Option V
value_of none = none
value_of (some (k, v)) = some v

abbrev answer {ℓ} : {V : Type ℓ} → HashError → Option V → Answer V
answer e v = (e, v)

ap_pair {ℓ} :
    {V : Type ℓ} {a b : HashError} {c d : Option V} → a ≡ b → c ≡ d → answer a c ≡ answer b d
ap_pair e h = rw (e, h) refl

-- Memory that is there is not refused.
granted :
    {e : HashError} → (e ≡ no_error) ⊎ ((e ≡ out_of_virtual_memory) × (true ≡ false)) → e ≡ no_error
granted (inl h) = h
granted (inr (h, k)) = absurd (cc)

module _ {ℓ} {K V : Type ℓ} (key : HashKey K) where
  -- A call on the table, while malloc has memory.
  unfoldable pub call : HashCall K V → HashTable K V → Answer V × HashTable K V
  call (insert locks k v) t =
      let r = insert_to_hash_table key locks true true t k v in ((r.0, none), r.1)
  call (update locks k v) t = let r = update_hash_table key locks t k v in ((r.0, r.1), r.2)
  call (remove locks k) t =
      let r = remove_from_hash_table key locks t k in ((r.0, value_of r.1), r.2)
  call (find locks k) t = let r = find_in_hash_table key locks t k in ((r.0, r.1), r.2)

  unfoldable pub run : List (HashCall K V) → HashTable K V → List (Answer V) × HashTable K V
  run [] t = ([], t)
  run (c ∷ cs) t = let (a, u) = call c t in let (answers, w) = run cs u in (a ∷ answers, w)

  -- The same calls on a function from keys to values.
  unfoldable pub call_map : HashCall K V → (K → Option V) → Answer V × (K → Option V)
  call_map (insert locks k v) f = elim (f k) [
    | none ↦ ((no_error, none), changed key k (some v) f)
    | some w ↦ ((duplicate_key, none), f)
  ]
  call_map (update locks k v) f = ((search_code (f k), f k), updated key k v f)
  call_map (remove locks k) f = ((search_code (f k), f k), changed key k none f)
  call_map (find locks k) f = ((search_code (f k), f k), f)

  unfoldable pub run_map : List (HashCall K V) → (K → Option V) → List (Answer V) × (K → Option V)
  run_map [] f = ([], f)
  run_map (c ∷ cs) f =
      let (a, g) = call_map c f in let (answers, h) = run_map cs g in (a ∷ answers, h)

  -- A result of the table that refines one of the map.
  abbrev pub Refines {κ} : {A : Type κ} → A × HashTable K V → A × (K → Option V) → Type (ℓ ⊔ κ)
  Refines r s = (r.0 ≡ s.0) × (contents key r.1 ≡ s.1) × IsTable key r.1

  value_of-removed :
      (before : Option V) (k : K) (p : Option (K × V))
      → RemovedPair key before k p
      → value_of p ≡ before
  value_of-removed before k none h = sym h
  value_of-removed before k (some (j, v)) h = sym h.0

  pub call-Refines :
      (c : HashCall K V) (t : HashTable K V)
      → IsTable key t
      → nodes t + 1 < 2 ^ 64
      → Refines (call c t) (call_map c (contents key t)) × (nodes (call c t).1 ≤ nodes t + 1)
  unfolding call call_map
  call-Refines (find locks k) t is room =
      let (code, out, table, map, same) = find_in_hash_table-contents key locks t k is in
      ((ap_pair code out, fun_ext map, table), omega arith)
  call-Refines (update locks k v) t is room =
      let (code, out, table, map, same) = update_hash_table-contents key locks t k is v in
      ((ap_pair code out, fun_ext map, table), omega arith)
  call-Refines (remove locks k) t is room =
      let (code, table, map, pair, fewer) = remove_from_hash_table-contents key locks t k is in
      (
        (ap_pair code (value_of-removed (contents key t k) k _ pair), fun_ext map, table),
        omega arith,
      )
  call-Refines (insert locks k v) t is room =
      let (table, more, outcome) =
        insert_to_hash_table-contents key locks true true t k v is room in
      elim outcome [
        | duplicate w found code map ↦
            rw (call_map, found) ((ap_pair code refl, fun_ext map, table), more)
        | no_node absent h code map ↦ absurd (cc)
        | inserted absent code map ↦
            rw (call_map, absent) ((ap_pair (granted code) refl, fun_ext map, table), more)
      ]

  run-Refines :
      (cs : List (HashCall K V)) (t : HashTable K V)
      → IsTable key t
      → nodes t + length cs < 2 ^ 64
      → Refines (run cs t) (run_map cs (contents key t))
  unfolding run run_map
  run-Refines [] t is room = (refl, refl, is)
  run-Refines (c ∷ cs) t is room =
      let ((first_answer, same, table), more) = call-Refines c t is (omega arith) in
      let u = (call c t).1 in
      let (answers, final, end) =
        subst (λ f. Refines (run cs u) (run_map cs f)) same
          (run-Refines cs u table (omega arith)) in
      (rw (first_answer, answers) refl, final, end)

  -- Over any sequence of insertions, updates, removals and searches on the table that createHashTable
  -- returned for at most 2048 entries, of fewer than 2 ^ 64 calls, no assertion fails and the answers
  -- are those of the same operations on a function from keys to values that starts without a value, and
  -- the table ends well formed with that function as its map: whichever locks are held during each
  -- call, however far a rehash has gone, and while malloc has memory.
  pub run-create_hash_table :
      (reserve : ℕ) (a b c : Bool) (t : HashTable K V) (cs : List (HashCall K V))
      → reserve ≤ 2 * least_hash_entries
      → create_hash_table reserve a b c ≡ some t
      → length cs < 2 ^ 64
      → Refines (run cs t) (run_map cs (λ _. none)) × ((run cs t).1.aborted ≡ false)
  run-create_hash_table reserve a b c t cs few made room =
      let (is, no_nodes, empty) = create_hash_table-empty key reserve a b c t few made in
      let (answers, final, end) =
        subst (λ f. Refines (run cs t) (run_map cs f)) (fun_ext empty)
          (run-Refines cs t is (omega arith)) in
      ((answers, final, end), end.within.running)
