-- ===== src/HashTable/Inserted.antt =====
-- src/base/base_hash.c: insertToHashTable as an operation on a map.
use forfun.Prelude.{
  ℕ, ◌+◌, ◌^◌, ◌≤◌, ◌<◌, ◌≡◌, refl, sym, ap, ◌∙◌, Bool, true, false, not, ◌&&◌, Bool-cases, Option,
  none, some, ◌∷◌, inl, inr, ◌⊎◌, subst, arith, if◌then◌else◌, or_else,
}
use forfun.HashTable.{
  HashBase, HashKey, HashError, no_error, duplicate_key, out_of_virtual_memory, WhichBase,
  HashEntry, HashTable, HeldLocks, other, base, pointed, count_up,
}
use forfun.HashTable.Operations.{
  home, find_do_func, find_in_hash_table, find_and_do, exceeds_rehash_ratio, link_and_count,
  and_head, link_if_absent, insert_to_hash_table_imp, insert_to_hash_table,
}
use forfun.HashTable.Contents.{
  count, home_items, contents, nodes, nodes-at, home-lt, lookup-none-count,
}
use forfun.HashTable.Invariant.{
  contents-still, contents-moving, contents-moved, IsTable, IsCounted, still, moving, moved,
}
use forfun.HashTable.Rehash.{do_rehash}
use forfun.HashTable.Rehash.Kept.{Keeps-trans, other_twice}
use forfun.HashTable.Rehash.Loop.{do_rehash-Keeps}
use forfun.HashTable.Change.{changed, InUse, current, target}
use forfun.HashTable.Changed.{changed-contents}
use forfun.HashTable.Entries.{cons-ListChanged}
use forfun.HashTable.Tables.{
  changed-nodes, InUse-sized, linked, linked-EntryChanged, linked-items_count, changed-total,
}
use forfun.HashTable.Laws.{not_there, there, find_and_do-FindDo}
use forfun.HashTable.Map.{changed_idle}
use forfun.HashTable.Insert.{alloc-Keeps, do_rehash-still, start_rehash-kept}

or_else-both {ℓ} : {A : Type ℓ} (a b : Option A) → or_else a b ≡ none → (a ≡ none) × (b ≡ none)
unfolding or_else
or_else-both none b h = (refl, h)
or_else-both (some x) b h = absurd (cc)

module _ {ℓ} {K V : Type ℓ} (key : HashKey K) where
  -- The outcomes of an insertion: a duplicate, no memory for a node, and a new item, also when there is
  -- no memory for a rehash.
  pub data Inserts (t : HashTable K V) (k : K) (v : V) (area_allocated entries_allocated : Bool)
      (r : HashError × HashTable K V) : Type ℓ where
    duplicate :
        (w : V)
        → contents key t k ≡ some w
        → r.0 ≡ duplicate_key
        → ((q : K) → contents key r.1 q ≡ contents key t q)
        → Inserts t k v area_allocated entries_allocated r
    no_node :
        contents key t k ≡ none
        → area_allocated ≡ false
        → r.0 ≡ out_of_virtual_memory
        → ((q : K) → contents key r.1 q ≡ contents key t q)
        → Inserts t k v area_allocated entries_allocated r
    inserted :
        contents key t k ≡ none
        → (r.0 ≡ no_error) ⊎ ((r.0 ≡ out_of_virtual_memory) × (entries_allocated ≡ false))
        → ((q : K) → contents key r.1 q ≡ changed key k (some v) (contents key t) q)
        → Inserts t k v area_allocated entries_allocated r

  -- The base that an insertion goes to.
  abbrev insert_base : HashTable K V → WhichBase
  insert_base t = if t.is_rehashing then pointed t.rehash_insert_base else t.current_base

  -- A base that a key can be put into.
  abbrev IsTarget : HashTable K V → K → WhichBase → Type ℓ
  IsTarget t k b =
      InUse key t b
      × (count key k (home_items key t b k) ≡ 0)
      × (count key k (home_items key t (other b) k) ≡ 0)

  insert_base-IsTarget :
      (t : HashTable K V) (k : K)
      → IsTable key t
      → contents key t k ≡ none
      → IsTarget t k (insert_base t)
  insert_base-IsTarget t k is none_there =
      let c = t.current_base in
      elim is.phase [
        | still h empty _ ↦
            let absent = sym (contents-still key t c refl k h) ∙ none_there in
            subst (IsTarget t k) (sym (chosen h))
              (current refl, lookup-none-count key k (home_items key t c k) absent, empty k)
        | moved h e empty ↦
            let absent = sym (contents-moved key t c refl k h e) ∙ none_there in
            subst (IsTarget t k) (sym (chosen h ∙ ap pointed e))
              (current refl, lookup-none-count key k (home_items key t c k) absent, empty k)
        | moving h e _ _ ↦
            let (here, beside) =
              or_else-both _ _ (sym (contents-moving key t c refl k h e) ∙ none_there) in
            subst (IsTarget t k) (sym (chosen h ∙ ap pointed e)) (
              target h e refl,
              lookup-none-count key k (home_items key t (other c) k) beside,
              subst (λ b. count key k (home_items key t b k) ≡ 0) (sym (other_twice c))
                  (lookup-none-count key k (home_items key t c k) here),
            )
      ]
    where
      chosen :
          {b : Bool}
          → t.is_rehashing ≡ b
          → insert_base t ≡ (if b then pointed t.rehash_insert_base else t.current_base)
      chosen h = rw (h) refl

  linked-IsCounted :
      (t : HashTable K V) (b : WhichBase) (k : K) (v : V) (n : ℕ)
      → 0 < (base t b).size
      → nodes t + 1 < 2 ^ 64
      → let i = home key (base t b) k in
        let e : HashEntry K V = record { items = (k, v) ∷ home_items key t b k; list_length = n } in
        IsCounted (base t b) → IsCounted (base (linked t b i e) b)
  unfolding home_items count_up
  linked-IsCounted t b k v n sized room c =
      let i = home key (base t b) k in
      let m = (k, v) ∷ home_items key t b k in
      let e : HashEntry K V = record { items = m; list_length = n } in
      let whole =
        changed-total key t (linked t b i e) b i m (linked-EntryChanged key t b i e)
          (home-lt key (base t b) k sized) in
      let counted = c.counted in
      let all = nodes-at t b in
      record {
        counted = rw (linked-items_count t b i e) (omega arith);
        fits = rw (linked-items_count t b i e) (omega arith);
      }

  linked-nodes :
      (t : HashTable K V) (b : WhichBase) (k : K) (v : V) (n : ℕ)
      → 0 < (base t b).size
      → let i = home key (base t b) k in
        let e : HashEntry K V = record { items = (k, v) ∷ home_items key t b k; list_length = n } in
        nodes (linked t b i e) ≤ nodes t + 1
  unfolding home_items
  linked-nodes t b k v n sized =
      let i = home key (base t b) k in
      let m = (k, v) ∷ home_items key t b k in
      let e : HashEntry K V = record { items = m; list_length = n } in
      let whole =
        changed-nodes key t (linked t b i e) b i m (linked-EntryChanged key t b i e)
          (home-lt key (base t b) k sized) in
      omega arith

  -- What linking a node leaves.
  abbrev Links : HashTable K V → K → V → Bool → HashError × HashTable K V → Type ℓ
  Links t k v entries_allocated r =
      IsTable key r.1
      × ((q : K) → contents key r.1 q ≡ changed key k (some v) (contents key t) q)
      × ((r.0 ≡ no_error) ⊎ ((r.0 ≡ out_of_virtual_memory) × (entries_allocated ≡ false)))
      × (nodes r.1 ≤ nodes t + 1)

  link_and_count-Links :
      (locks : HeldLocks K) (entries_allocated : Bool) (t : HashTable K V) (b : WhichBase) (k : K)
      (v : V)
      → IsTable key t
      → IsTarget t k b
      → nodes t + 1 < 2 ^ 64
      → Links t k v entries_allocated
          (link_and_count locks entries_allocated t b (home key (base t b) k) k v)
  unfolding link_and_count home_items
  link_and_count-Links locks entries_allocated t b k v is (in_use, absent, absent_other) room =
      let i = home key (base t b) k in
      let n = count_up ((base t b).entries i).list_length in
      let m = home_items key t b k in
      let e : HashEntry K V = record { items = (k, v) ∷ m; list_length = n } in
      let u = linked t b i e in
      let entry = linked-EntryChanged key t b i e in
      let (table, map) =
        changed-contents key t u b k (some v) ((k, v) ∷ m) entry (cons-ListChanged key k v m absent)
          absent_other (linked-IsCounted t b k v n (InUse-sized key t b is in_use) room) is
          in_use in
      let starts = exceeds_rehash_ratio (base u b) && not u.is_rehashing && not locks.rehash in
      let more = linked-nodes t b k v n (InUse-sized key t b is in_use) in
      elim (Bool-cases starts) [
        | inr e ↦ rw (e) (table, map, inl refl, more)
        | inl e ↦
            let (is_started, same, code, no_more) =
              start_rehash-kept key locks entries_allocated u table (
                at_rest_when (exceeds_rehash_ratio (base u b)) u.is_rehashing (not locks.rehash)
                  e) in
            rw (e) (is_started, λ q. same q ∙ map q, code, omega arith)
      ]
    where
      at_rest_when : (a b c : Bool) → (a && not b && c) ≡ true → b ≡ false
      at_rest_when a b c h = ground arith

  home_size : (x y : HashBase K V) (k : K) → x.size ≡ y.size → home key x k ≡ home key y k
  unfolding home
  home_size x y k e = rw (e) refl

  changed-same :
      (k : K) (ov : Option V) (u t : HashTable K V)
      → ((q : K) → contents key u q ≡ contents key t q)
      → (q : K) → changed key k ov (contents key u) q ≡ changed key k ov (contents key t) q
  changed-same k ov u t same q = rw (same q) refl

  -- The second search, and the linking. `d` is the table in which the base was chosen.
  inserted_node :
      (locks held : HeldLocks K) (entries_allocated : Bool) (t d : HashTable K V) (k : K) (v : V)
      → IsTable key t
      → contents key t k ≡ none
      → t.is_rehashing ≡ d.is_rehashing
      → t.rehash_insert_base ≡ d.rehash_insert_base
      → (d.is_rehashing ≡ false → t.current_base ≡ d.current_base)
      → ((b : WhichBase) → (base t b).size ≡ (base d b).size)
      → nodes t + 1 < 2 ^ 64
      → let b = insert_base d in
        Links t k v entries_allocated (
          link_if_absent key locks entries_allocated b
            (home key (base d b) k)
            k
            v
            (find_and_do key held t k find_do_func))
  inserted_node locks held entries_allocated t d k v is none_there h e at size room =
      elim (find_and_do-FindDo key held find_do_func t k is) [
        | there w found _ _ _ _ _ ↦ absurd (cc)
        | not_there _ r ↦
            let w = do_rehash key held t in
            let kept = (do_rehash-Keeps key held t is).0 in
            let none_in = kept.same_contents k ∙ none_there in
            let (table, map, code, more) =
              link_and_count-Links locks entries_allocated w (insert_base w) k v kept.table
                (insert_base-IsTarget w k kept.table none_in) (rw (kept.same_nodes) room) in
            rw (r) (
              subst
                (λ b.
                  Links t k v entries_allocated
                    (link_and_count locks entries_allocated w b (home key (base d b) k) k v))
                (same_target w (kept.same_rehashing ∙ h) (kept.same_insert ∙ e) (λ resting.
                  ap (λ x. x.current_base) (do_rehash-still key held t (h ∙ resting)) ∙ at resting))
                (subst
                  (λ i.
                    Links t k v entries_allocated
                      (link_and_count locks entries_allocated w (insert_base w) i k v))
                  (home_size (base w (insert_base w)) (base d (insert_base w)) k
                    (kept.same_size (insert_base w) ∙ size (insert_base w)))
                  (
                    table,
                    λ q. map q ∙ changed-same k (some v) w t kept.same_contents q,
                    code,
                    (let same = kept.same_nodes in omega arith),
                  )))
      ]
    where
      same_target :
          (w : HashTable K V)
          → w.is_rehashing ≡ d.is_rehashing
          → w.rehash_insert_base ≡ d.rehash_insert_base
          → (d.is_rehashing ≡ false → w.current_base ≡ d.current_base)
          → insert_base w ≡ insert_base d
      same_target w h e at = elim (Bool-cases d.is_rehashing) [
        | inl going ↦ rw (h, going, e) refl
        | inr resting ↦ rw (h, resting) (at resting)
      ]

  module _ (locks : HeldLocks K) (area_allocated entries_allocated : Bool) (t : HashTable K V)
      (k : K) (v : V) (is : IsTable key t) (room : nodes t + 1 < 2 ^ 64) where
    -- insertToHashTable on a well-formed table of fewer than 2 ^ 64 - 1 nodes, whichever locks are held:
    -- it leaves a well-formed table, without a failed assertion, with at most one more node. With the key in the map it returns
    -- ER_HASH_DUPLICATE_KEY, and when an area for nodes is refused it can return
    -- ER_GENERIC_OUT_OF_VIRTUAL_MEMORY; the map is then as before. Otherwise the map has the value at
    -- the key and is as before at the other keys, and there is no error, or
    -- ER_GENERIC_OUT_OF_VIRTUAL_MEMORY because the entries for a rehash were refused.
    pub insert_to_hash_table-contents :
        let r = insert_to_hash_table key locks area_allocated entries_allocated t k v in
        IsTable key r.1
        × (nodes r.1 ≤ nodes t + 1)
        × Inserts t k v area_allocated entries_allocated r
    unfolding insert_to_hash_table insert_to_hash_table_imp find_in_hash_table find_do_func
    insert_to_hash_table-contents =
        let u = do_rehash key locks t in
        let kept = (do_rehash-Keeps key locks t is).0 in
        elim (find_and_do-FindDo key locks find_do_func u k kept.table) [
          | there w found code out table map n ↦
              let same : (q : K)
                  → contents key (find_and_do key locks u k find_do_func).2 q ≡ contents key t q =
                λ q. map q ∙ changed_idle key u k q (some w) found ∙ kept.same_contents q in
              rw (code) (
                table,
                (let same_nodes = kept.same_nodes in omega arith),
                duplicate w (sym (kept.same_contents k) ∙ found) refl same,
              )
          | not_there none_there r ↦
              let u1 = do_rehash key locks u in
              let kept1 = (do_rehash-Keeps key locks u kept.table).0 in
              let none_in = sym (kept.same_contents k) ∙ none_there in
              let so_far = Keeps-trans key t u u1 kept kept1 in
              elim (alloc-Keeps key area_allocated u1 kept1.table) [
                | inl (no_memory, refused) ↦
                    rw (r, no_memory)
                      (
                        so_far.table,
                        (let same_nodes = so_far.same_nodes in omega arith),
                        no_node none_in refused refl so_far.same_contents,
                      )
                | inr (u2, taken, kept2, at) ↦
                    let whole = Keeps-trans key t u1 u2 so_far kept2 in
                    let (table, map, code, more) =
                      inserted_node locks
                        (and_head locks (insert_base u) (home key (base u (insert_base u)) k))
                        entries_allocated u2 u k v kept2.table (whole.same_contents k ∙ none_in)
                        (kept2.same_rehashing ∙ kept1.same_rehashing)
                        (kept2.same_insert ∙ kept1.same_insert)
                        (λ resting.
                          at ∙ ap (λ x. x.current_base) (do_rehash-still key locks u resting))
                        (λ b. kept2.same_size b ∙ kept1.same_size b) (rw (whole.same_nodes) room) in
                    rw (r, taken)
                      (
                        table,
                        (let same_nodes = whole.same_nodes in omega arith),
                        inserted none_in code
                            (λ q. map q ∙ changed-same k (some v) u2 t whole.same_contents q),
                      )
              ]
        ]
