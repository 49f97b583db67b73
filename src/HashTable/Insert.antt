-- ===== src/HashTable/Insert.antt =====
-- src/base/base_hash.c: insertToHashTable as an operation on a map.
use forfun.Prelude.{
  true_and_false, ltb, ◌||◌, not, ℕ, zero, suc, ◌+◌, ◌-◌, ◌*◌, ◌≤◌, ◌<◌, ◌≡◌, refl, sym, ap, ◌∙◌,
  Bool, true, false, Bool-cases, none, some, [], length, inl, inr, ◌⊎◌, subst, arith, max, ltb,
  or_else,
}
use forfun.HashTable.{
  HashKey, HashError, no_error, out_of_virtual_memory, WhichBase, first, second, HashEntry,
  HashTable, HeldLocks, other, base, init_hash_entry, set_base, first_found,
  alloc_collision_list_node, least_hash_entries, free_collision_list_alloc, HashBase,
}
use forfun.HashTable.Operations.{home, start_rehash, unused_entries}
use forfun.HashTable.Contents.{
  in_base, nodes-at, total, count, home_items, contents, in_base, nodes, nodes-at,
  count-zero-lookup,
}
use forfun.HashTable.Invariant.{
  IsTable, IsCounted, IsEmptyBase, IsPlaced, still, moving, moved, contents-still, contents-moving,
  IsWithin, still-IsTable, moving-IsTable, or_else-none,
}
use forfun.HashTable.Rehash.{do_rehash}
use forfun.HashTable.Rehash.Moving.{Keeps, current_or_other}

no_total {ℓ} :
    {K V : Type ℓ} (entries : ℕ → HashEntry K V)
    → ((j : ℕ) → (entries j).items ≡ [])
    → (n : ℕ) → total entries n ≡ 0
unfolding total
no_total entries fresh zero = refl
no_total entries fresh (suc n) = rw (no_total entries fresh n) (ap (λ m. 0 + length m) (fresh n))

module _ {ℓ} {K V : Type ℓ} (key : HashKey K) where
  free_list-Keeps :
      (t : HashTable K V) (n : ℕ) → IsTable key t → Keeps key t (record t { free_list = n })
  unfolding contents first_found home_items base nodes
  free_list-Keeps t n is = record {
    table = record {
      within = record {
        running = is.within.running;
        resting = is.within.resting;
        going = is.within.going;
      };
      sized = is.sized;
      placed = is.placed;
      apart = is.apart;
      phase = elim is.phase [
        | still a b c ↦ still a b c
        | moving a b c d ↦ moving a b c d
        | moved a b c ↦ moved a b c
      ];
    };
    same_contents = λ q. refl;
    same_rehashing = refl;
    same_insert = refl;
    same_size = λ b. refl;
    same_nodes = refl;
  }

  pub alloc-Keeps :
      (area_allocated : Bool) (t : HashTable K V)
      → IsTable key t
      → ((alloc_collision_list_node area_allocated t ≡ none) × (area_allocated ≡ false))
        ⊎ ((u : HashTable K V) × (alloc_collision_list_node area_allocated t ≡ some u)
            × Keeps key t u
            × (u.current_base ≡ t.current_base))
  unfolding alloc_collision_list_node
  alloc-Keeps true t is = elim (Bool-cases (ltb 0 t.free_list)) [
    | inl e ↦ inr (
      record t { free_list = t.free_list - 1 },
      rw (e) refl,
      free_list-Keeps t (t.free_list - 1) is,
      refl,
    )
    | inr e ↦ inr (
      record t { free_list = free_collision_list_alloc - 1 },
      rw (e) refl,
      free_list-Keeps t (free_collision_list_alloc - 1) is,
      refl,
    )
  ]
  alloc-Keeps false t is = elim (Bool-cases (ltb 0 t.free_list)) [
    | inl e ↦ inr (
      record t { free_list = t.free_list - 1 },
      rw (e) refl,
      free_list-Keeps t (t.free_list - 1) is,
      refl,
    )
    | inr e ↦ inl (rw (e) refl, refl)
  ]

  pub do_rehash-still :
      (locks : HeldLocks K) (t : HashTable K V) → t.is_rehashing ≡ false → do_rehash key locks t ≡ t
  unfolding do_rehash
  do_rehash-still locks t h = rw (do_rehash, h) refl

  base-set_other :
      (t : HashTable K V) (c : WhichBase) (x : HashBase K V)
      → base (set_base t (other c) x) c ≡ base t c
  unfolding base set_base
  base-set_other t first x = refl
  base-set_other t second x = refl

  base-set_base :
      (t : HashTable K V) (b : WhichBase) (x : HashBase K V) → base (set_base t b x) b ≡ x
  unfolding base set_base
  base-set_base t first x = refl
  base-set_base t second x = refl

  -- What a table at rest is.
  pub at_rest :
      (t : HashTable K V)
      → IsTable key t
      → t.is_rehashing ≡ false
      → IsEmptyBase key t (other t.current_base) × IsCounted (base t t.current_base)
  at_rest t is h = elim is.phase [
    | still _ empty counted ↦ (empty, counted)
    | moving h' _ _ _ ↦ absurd (cc)
    | moved h' _ _ ↦ absurd (cc)
  ]

  -- A rehash begins: the other base has new entries.
  module _ (t w : HashTable K V) (x : HashBase K V) (is : IsTable key t)
      (h : t.is_rehashing ≡ false) (at : w.current_base ≡ t.current_base)
      (h_w : w.is_rehashing ≡ true) (e_w : w.rehash_insert_base ≡ some (other t.current_base))
      (same : base w t.current_base ≡ base t t.current_base)
      (new : base w (other t.current_base) ≡ x) (sized : 0 < x.size) (within : IsWithin key w)
      (fresh : (j : ℕ) → (x.entries j).items ≡ []) where
    new_items : (q : K) → home_items key w (other t.current_base) q ≡ []
    unfolding home_items
    new_items q = rw (home_items, new) (fresh (home key x q))

    old_items : (q : K) → home_items key w t.current_base q ≡ home_items key t t.current_base q
    unfolding home_items
    old_items q = rw (home_items, same) refl

    no_items-count : (q : K) → count key q (home_items key w (other t.current_base) q) ≡ 0
    unfolding count
    no_items-count q = rw (new_items q) refl

    begun-Placed : IsPlaced key w
    begun-Placed b j = elim (current_or_other t.current_base b) [
      | inl e ↦ rw (e, same) (is.placed t.current_base j)
      | inr e ↦ rw (e, new, fresh j) tt
    ]

    begun-IsTable : IsTable key w
    begun-IsTable =
        moving-IsTable key w t.current_base at within (rw (same) is.sized) begun-Placed
          (λ q.
            let apart = is.apart q in
            let none_there = no_items-count q in rw (old_items q) (omega arith))
          h_w e_w (rw (new) sized) (subst IsCounted (sym same) (at_rest t is h).1)

    begun-contents : (q : K) → contents key w q ≡ contents key t q
    unfolding or_else
    begun-contents q =
        rw
          (
            contents-moving key w t.current_base at q h_w e_w,
            contents-still key t t.current_base refl q h,
            old_items q,
            count-zero-lookup key q _ (no_items-count q),
          )
          (or_else-none _)

    begun-nodes : nodes w ≤ nodes t
    begun-nodes =
        let c = t.current_base in
        let kept : in_base w c ≡ in_base t c = ap (λ y. total y.entries y.size) same in
        let none_there : in_base w (other c) ≡ 0 =
          ap (λ y. total y.entries y.size) new ∙ no_total x.entries fresh x.size in
        rw (nodes-at w c, nodes-at t c) (omega arith)

  -- A base without entries has none that are in use.
  no_entries-running :
      (locks : HeldLocks K) (b : WhichBase) (o : HashBase K V) (aborted : Bool)
      → aborted ≡ false
      → o.size ≡ 0
      → aborted || not (unused_entries locks b o) ≡ false
  unfolding unused_entries
  no_entries-running locks b o aborted runs none_there = rw (runs, none_there) refl

  begun-IsWithin :
      (t w : HashTable K V) (x : HashBase K V)
      → IsTable key t
      → w.current_base ≡ t.current_base
      → w.is_rehashing ≡ true
      → w.rehash_insert_base ≡ some (other t.current_base)
      → base w t.current_base ≡ base t t.current_base
      → base w (other t.current_base) ≡ x
      → w.rehash_pos ≡ 0
      → w.aborted ≡ false
      → (base t t.current_base).size ≤ x.size
      → IsWithin key w
  unfolding base
  begun-IsWithin t w x is at h e same new pos runs roomy = record {
    running = runs;
    resting = λ resting. absurd (true_and_false w.is_rehashing h resting);
    going = λ _. (rw (at, same, pos) is.sized, rw (at, e, same, new) roomy);
  }

  -- Whether a rehash can be started or not, the table is well formed, with the same map.
  abbrev pub StartKept : HashTable K V → Bool → HashError × HashTable K V → Type ℓ
  StartKept t entries_allocated r =
      IsTable key r.1
      × ((q : K) → contents key r.1 q ≡ contents key t q)
      × ((r.0 ≡ no_error) ⊎ ((r.0 ≡ out_of_virtual_memory) × (entries_allocated ≡ false)))
      × (nodes r.1 ≤ nodes t)

  pub start_rehash-kept :
      (locks : HeldLocks K) (entries_allocated : Bool) (t : HashTable K V)
      → IsTable key t
      → t.is_rehashing ≡ false
      → StartKept t entries_allocated (start_rehash locks entries_allocated t)
  unfolding start_rehash base home_items contents first_found set_base init_hash_entry nodes
  start_rehash-kept locks false t is h = (
    still-IsTable key (record t { rehash_insert_base = some (other t.current_base) }) t.current_base
        refl
        (record {
          running = is.within.running;
          resting = is.within.resting;
          going = λ going. absurd (true_and_false t.is_rehashing going h);
        })
        is.sized is.placed is.apart h (at_rest t is h).0 (at_rest t is h).1,
    λ q. rw (h) refl,
    inr (refl, refl),
    omega arith,
  )
  start_rehash-kept locks true t is h =
      let w = (start_rehash locks true t).1 in
      let o = base t (other t.current_base) in
      let x : HashBase K V = record o {
        entries = λ _. init_hash_entry;
        size = 2 * max o.size least_hash_entries;
      } in
      let t1 = record t { rehash_insert_base = some (other t.current_base) } in
      let same = base-set_other t1 t.current_base x in
      let new = base-set_base t1 (other t.current_base) x in
      let (roomy, none_there) = is.within.resting h in
      let runs =
        no_entries-running locks (other t.current_base) o t.aborted is.within.running none_there in
      let within = begun-IsWithin t w x is refl refl refl same new refl runs (omega arith) in
      (
        begun-IsTable t w x is h refl refl refl same new (omega arith) within (λ j. refl),
        begun-contents t w x is h refl refl refl same new (omega arith) within (λ j. refl),
        inl refl,
        begun-nodes t w x is h refl refl refl same new (omega arith) within (λ j. refl),
      )
