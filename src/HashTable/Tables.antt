-- ===== src/HashTable/Tables.antt =====
-- src/base/base_hash.c: the tables in which one entry has a new list, and what they count.
use forfun.Prelude.{
  ℕ, ◌+◌, ◌<◌, ◌≡◌, refl, sym, ap, ◌∙◌, Bool, true, false, ◌&&◌, Bool-cases, List, length, inl, inr,
  subst, arith, if◌then◌else◌, ◌==◌, ==_refl, ltb,
}
use forfun.HashTable.{
  HashKey, WhichBase, first, second, HashEntry, HashTable, other, base, set_base, set_entry,
  set_items_count, set_collision_count, same_base, free_collision_list_node, count_up, count_down,
  collision_count_threshold, pointed,
}
use forfun.HashTable.Operations.{count_removal}
use forfun.HashTable.Contents.{nodes, nodes-at, in_base, total, total-write}
use forfun.HashTable.Invariant.{IsTable, still, moving, moved}
use forfun.HashTable.Change.{InUse, current, target, EntryChanged}
use forfun.HashTable.Changed.{other-ne}
use forfun.HashTable.Rehash.Keeps.{same_base_refl, same_base-other}
use forfun.HashTable.Rehash.Moving.{current_or_other}

module _ {ℓ} {K V : Type ℓ} where
  -- The table after a removal.
  abbrev pub unlinked : HashTable K V → WhichBase → ℕ → HashEntry K V → ℕ → HashTable K V
  unlinked t b i e list_length =
      free_collision_list_node (count_removal (set_entry t b i e) b list_length)

  pub unlinked-items_count :
      (t : HashTable K V) (b : WhichBase) (i : ℕ) (e : HashEntry K V) (list_length : ℕ)
      → (base (unlinked t b i e list_length) b).items_count ≡ count_down (base t b).items_count
  unfolding free_collision_list_node count_removal set_items_count set_collision_count set_entry
      set_base base
  unlinked-items_count t first i e n = ground arith
  unlinked-items_count t second i e n = ground arith

  -- The table after an insertion.
  abbrev pub linked : HashTable K V → WhichBase → ℕ → HashEntry K V → HashTable K V
  linked t b i e =
      let u = set_entry t b i e in set_items_count u b (count_up (base u b).items_count)

  pub linked-items_count :
      (t : HashTable K V) (b : WhichBase) (i : ℕ) (e : HashEntry K V)
      → (base (linked t b i e) b).items_count ≡ count_up (base t b).items_count
  unfolding set_items_count set_entry set_base base
  linked-items_count t first i e = refl
  linked-items_count t second i e = refl

  written :
      (b : Bool) (e f : HashEntry K V)
      → (if b then e else f).items ≡ (if b then e.items else f.items)
  written true e f = refl
  written false e f = refl

module _ {ℓ} {K V : Type ℓ} (key : HashKey K) where
  -- A base in use has entries.
  pub InUse-sized :
      (t : HashTable K V) (b : WhichBase) → IsTable key t → InUse key t b → 0 < (base t b).size
  InUse-sized t b is (current at) = subst (λ c. 0 < (base t c).size) (sym at) is.sized
  InUse-sized t b is (target h e to) = elim is.phase [
    | still h' _ _ ↦ absurd (cc)
    | moving _ _ sized _ ↦ subst (λ c. 0 < (base t c).size) (sym to) sized
    | moved _ e' _ ↦ absurd (other-ne t.current_base (ap pointed (sym e ∙ e')))
  ]

  entry_changed :
      (t u : HashTable K V) (b : WhichBase) (i : ℕ) (m : List (K × V))
      → u.current_base ≡ t.current_base
      → u.is_rehashing ≡ t.is_rehashing
      → u.rehash_insert_base ≡ t.rehash_insert_base
      → u.rehash_pos ≡ t.rehash_pos
      → u.aborted ≡ t.aborted
      → (base u b).size ≡ (base t b).size
      → ((j : ℕ)
          → ((base u b).entries j).items ≡ (if j == i then m else ((base t b).entries j).items))
      → base u (other b) ≡ base t (other b)
      → EntryChanged key t u b i m
  entry_changed t u b i m at h e pos aborted size items beside = record {
    same_current = at;
    same_rehashing = h;
    same_insert = e;
    same_pos = pos;
    same_aborted = aborted;
    same_size = sizes;
    items = lists;
    other_count = beside;
  }
    where
      sizes : (c : WhichBase) → (base u c).size ≡ (base t c).size
      sizes c = elim (current_or_other b c) [
        | inl is ↦ rw (is) size
        | inr is ↦ rw (is, beside) refl
      ]

      lists :
          (c : WhichBase) (j : ℕ)
          → ((base u c).entries j).items
            ≡ (if same_base b c && (j == i) then m else ((base t c).entries j).items)
      lists c j = elim (current_or_other b c) [
        | inl is ↦ rw (is, same_base_refl b) (items j)
        | inr is ↦ rw (is, beside, same_base-other b) refl
      ]

  pub set_entry-EntryChanged :
      (t : HashTable K V) (b : WhichBase) (i : ℕ) (e : HashEntry K V)
      → EntryChanged key t (set_entry t b i e) b i e.items
  unfolding set_entry set_base base
  set_entry-EntryChanged t first i e =
      entry_changed t (set_entry t first i e) first i e.items refl refl refl refl refl refl
        (λ j. written (j == i) e (t.base1.entries j)) refl
  set_entry-EntryChanged t second i e =
      entry_changed t (set_entry t second i e) second i e.items refl refl refl refl refl refl
        (λ j. written (j == i) e (t.base2.entries j)) refl

  pub unlinked-EntryChanged :
      (t : HashTable K V) (b : WhichBase) (i : ℕ) (e : HashEntry K V) (list_length : ℕ)
      → EntryChanged key t (unlinked t b i e list_length) b i e.items
  unfolding free_collision_list_node count_removal set_items_count set_collision_count set_entry
      set_base base
  unlinked-EntryChanged t first i e n = elim (Bool-cases (ltb collision_count_threshold n)) [
    | inl c ↦ rw (c) (
        entry_changed t _ first i e.items refl refl refl refl refl refl
          (λ j. written (j == i) e (t.base1.entries j)) refl)
    | inr c ↦ rw (c) (
        entry_changed t _ first i e.items refl refl refl refl refl refl
          (λ j. written (j == i) e (t.base1.entries j)) refl)
  ]
  unlinked-EntryChanged t second i e n = elim (Bool-cases (ltb collision_count_threshold n)) [
    | inl c ↦ rw (c) (
        entry_changed t _ second i e.items refl refl refl refl refl refl
          (λ j. written (j == i) e (t.base2.entries j)) refl)
    | inr c ↦ rw (c) (
        entry_changed t _ second i e.items refl refl refl refl refl refl
          (λ j. written (j == i) e (t.base2.entries j)) refl)
  ]

  pub linked-EntryChanged :
      (t : HashTable K V) (b : WhichBase) (i : ℕ) (e : HashEntry K V)
      → EntryChanged key t (linked t b i e) b i e.items
  unfolding set_items_count set_entry set_base base
  linked-EntryChanged t first i e =
      entry_changed t (linked t first i e) first i e.items refl refl refl refl refl refl
        (λ j. written (j == i) e (t.base1.entries j)) refl
  linked-EntryChanged t second i e =
      entry_changed t (linked t second i e) second i e.items refl refl refl refl refl refl
        (λ j. written (j == i) e (t.base2.entries j)) refl

  -- The number of nodes after a change of one list.
  pub changed-total :
      (t u : HashTable K V) (b : WhichBase) (i : ℕ) (m : List (K × V))
      → EntryChanged key t u b i m
      → i < (base t b).size
      → total (base u b).entries (base u b).size + length ((base t b).entries i).items
        ≡ total (base t b).entries (base t b).size + length m
  changed-total t u b i m entry below =
      let here : ((base u b).entries i).items ≡ m = entry.items b i ∙ hit (same_base_refl b) in
      let result =
        total-write (base t b).entries (base u b).entries (base t b).size i below
          (λ j ne. entry.items b j ∙ miss j ne) in
      rw (entry.same_size b) (
        subst
          (λ l.
            total (base u b).entries (base t b).size + length ((base t b).entries i).items
            ≡ total (base t b).entries (base t b).size + length l)
          here result)
    where
      hit :
          same_base b b ≡ true
          → (if same_base b b && (i == i) then m else ((base t b).entries i).items) ≡ m
      hit e = rw (e, ==_refl i) refl

      miss :
          (j : ℕ)
          → (j == i) ≡ false
          → (if same_base b b && (j == i) then m else ((base t b).entries j).items)
            ≡ ((base t b).entries j).items
      miss j e = rw (same_base_refl b, e) refl

  pub changed-nodes :
      (t u : HashTable K V) (b : WhichBase) (i : ℕ) (m : List (K × V))
      → EntryChanged key t u b i m
      → i < (base t b).size
      → nodes u + length ((base t b).entries i).items ≡ nodes t + length m
  changed-nodes t u b i m entry below =
      let here = changed-total t u b i m entry below in
      let beside : in_base u (other b) ≡ in_base t (other b) =
        ap (λ x. total x.entries x.size) entry.other_count in
      rw (nodes-at u b, nodes-at t b) (omega arith)
