-- ===== src/HashTable/Laws.antt =====
-- src/base/base_hash.c: the operations refine those of a map.
use forfun.Prelude.{◌≤◌, ◌<◌, ◌≡◌, refl, sym, ap, ◌∙◌, Option, none, some, inl, inr, subst, arith}
use forfun.HashTable.{
  set_entry, HashKey, HashError, no_such_key, WhichBase, HashEntry, HashTable, HeldLocks, base,
}
use forfun.HashTable.Operations.{home, DoFunc, do_in_base, find_and_do, or_no_such_key}
use forfun.HashTable.Contents.{
  home-lt, set_entry-items_count, lookup, count, home_items, contents, nodes, in_base,
}
use forfun.HashTable.Invariant.{IsTable, IsCounted}
use forfun.HashTable.Rehash.{do_rehash}
use forfun.HashTable.Rehash.Loop.{do_rehash-Keeps}
use forfun.HashTable.Change.{changed, InUse, current, target}
use forfun.HashTable.Changed.{changed-contents}
use forfun.HashTable.Search.{located}
use forfun.HashTable.Entries.{
  assign, do_in_list-none, do_in_list-some, length-assign, assign-ListChanged,
}
use forfun.HashTable.Tables.{changed-nodes, InUse-sized, set_entry-EntryChanged, changed-total}

module _ {ℓ} {K V : Type ℓ} (key : HashKey K) (locks : HeldLocks K) where
  pub once_in :
      (t : HashTable K V) (b : WhichBase) (k : K)
      → IsTable key t
      → InUse key t b
      → count key k (home_items key t b k) ≤ 1
  once_in t b k is (current at) = let apart = is.apart k in rw (at) (omega arith)
  once_in t b k is (target h e to) = let apart = is.apart k in rw (to) (omega arith)

  do_in_base-none :
      (f : DoFunc V) (t : HashTable K V) (k : K) (b : WhichBase)
      → lookup key k (home_items key t b k) ≡ none
      → do_in_base key f k t b ≡ none
  unfolding do_in_base home_items
  do_in_base-none f t k b h =
      rw
        (do_in_base, do_in_list-none key f k (((base t b).entries (home key (base t b) k)).items) h)
        refl

  -- The table after a search that found the key.
  abbrev assigned : DoFunc V → HashTable K V → K → WhichBase → V → HashTable K V
  assigned f t k b v =
      let i = home key (base t b) k in
      set_entry t b i (record {
        items = assign key k (f v).1 (home_items key t b k);
        list_length = ((base t b).entries i).list_length;
      })

  do_in_base-some :
      (f : DoFunc V) (t : HashTable K V) (k : K) (b : WhichBase) (v : V)
      → lookup key k (home_items key t b k) ≡ some v
      → do_in_base key f k t b ≡ some ((f v).0, (f v).2, assigned f t k b v)
  unfolding do_in_base home_items
  do_in_base-some f t k b v h =
      rw
        (
          do_in_base,
          do_in_list-some key f k (((base t b).entries (home key (base t b) k)).items) v h,
        )
        refl

  same_count :
      (f : DoFunc V) (t : HashTable K V) (k : K) (b : WhichBase) (v : V)
      → 0 < (base t b).size
      → (in_base (assigned f t k b v) b ≡ in_base t b)
        × (IsCounted (base t b) → IsCounted (base (assigned f t k b v) b))
        × (nodes (assigned f t k b v) ≡ nodes t)
  unfolding home_items
  same_count f t k b v sized =
      let u = assigned f t k b v in
      let m = home_items key t b k in
      let i = home key (base t b) k in
      let w = assign key k (f v).1 m in
      let e : HashEntry K V = record {
        items = w;
        list_length = ((base t b).entries i).list_length;
      } in
      let kept = length-assign key k (f v).1 m in
      let whole =
        changed-total key t u b i w (set_entry-EntryChanged key t b i e)
          (home-lt key (base t b) k sized) in
      let same : in_base u b ≡ in_base t b = omega arith in
      let nodes_kept =
        changed-nodes key t u b i w (set_entry-EntryChanged key t b i e)
          (home-lt key (base t b) k sized) in
      (
        same,
        λ c. record {
          counted = set_entry-items_count t b i e b ∙ c.counted ∙ sym same;
          fits = rw (set_entry-items_count t b i e b) c.fits;
        },
        omega arith,
      )

  -- What a search does to the map, when the key is not there and when it is.
  pub data FindDo (f : DoFunc V) (t : HashTable K V) (k : K)
      (r : HashError × Option V × HashTable K V) : Type ℓ where
    not_there :
        contents key t k ≡ none → r ≡ (no_such_key, none, do_rehash key locks t) → FindDo f t k r
    there :
        (v : V)
        → contents key t k ≡ some v
        → r.0 ≡ (f v).0
        → r.1 ≡ (f v).2
        → IsTable key r.2
        → ((q : K) → contents key r.2 q ≡ changed key k (some (f v).1) (contents key t) q)
        → nodes r.2 ≡ nodes t
        → FindDo f t k r

  pub find_and_do-FindDo :
      (f : DoFunc V) (t : HashTable K V) (k : K)
      → IsTable key t
      → FindDo f t k (find_and_do key locks t k f)
  unfolding find_and_do
  find_and_do-FindDo f t k is =
      let u = do_rehash key locks t in
      let kept = (do_rehash-Keeps key locks t is).0 in
      let misses = do_in_base-none f u k in
      elim (located key u k kept.table) [
        | inl m ↦
            not_there (sym (kept.same_contents k) ∙ m.reads)
              (ap (or_no_such_key key u) (m.finds_none _ (do_in_base key f k u) misses))
        | inr p ↦
            let b = p.which in
            let v = p.value in
            let counts = same_count f u k b v (InUse-sized key u b kept.table p.in_use) in
            let (table, map) =
              changed-contents key u (assigned f u k b v) b k (some (f v).1)
                (assign key k (f v).1 (home_items key u b k)) (set_entry-EntryChanged key u b _ _)
                (assign-ListChanged key k (f v).1 v (home_items key u b k) p.holds
                  (once_in u b k kept.table p.in_use))
                p.absent counts.1 kept.table p.in_use in
            subst (FindDo f t k)
              (sym (
                ap (or_no_such_key key u)
                  (p.finds _ (do_in_base key f k u) _ misses (do_in_base-some f u k b v p.holds))))
              (there v (sym (kept.same_contents k) ∙ p.reads) refl refl table
                (λ q. map q ∙ changed_after k (some (f v).1) u t kept.same_contents q)
                (counts.2 ∙ kept.same_nodes))
      ]
    where
      changed_after :
          (k : K) (ov : Option V) (u t : HashTable K V)
          → ((q : K) → contents key u q ≡ contents key t q)
          → (q : K) → changed key k ov (contents key u) q ≡ changed key k ov (contents key t) q
      changed_after k ov u t same q = rw (same q) refl
