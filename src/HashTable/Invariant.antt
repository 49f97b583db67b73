-- ===== src/HashTable/Invariant.antt =====
-- src/base/base_hash.c: when a hash table is well formed, at rest and in each phase of a rehash.
use forfun.Prelude.{
  ℕ, ◌*◌, ◌+◌, ◌%◌, ◌^◌, ◌≤◌, ◌<◌, ◌≡◌, refl, sym, ◌∙◌, true, false, Option, none, some, List, [],
  ◌∷◌, length, subst, ap, arith, or_else,
}
use forfun.HashTable.{
  HashKey, WhichBase, HashBase, HashTable, other, pointed, least_hash_entries, base, first_found,
}
use forfun.HashTable.Operations.{home}
use forfun.HashTable.Contents.{total, length-total, lookup, count, Placed, home_items, contents}

module _ {ℓ} {K V : Type ℓ} where
  -- items_count is the number of nodes.
  pub record IsCounted (b : HashBase K V) : Type ℓ where
    pub counted : b.items_count ≡ total b.entries b.size
    pub fits : b.items_count < 2 ^ 64

pub or_else-none {ℓ} : {A : Type ℓ} (o : Option A) → or_else o none ≡ o
unfolding or_else
or_else-none none = refl
or_else-none (some a) = refl

or_else-same {ℓ} : {A : Type ℓ} (o : Option A) → or_else o o ≡ o
unfolding or_else
or_else-same none = refl
or_else-same (some a) = refl

module _ {ℓ} {K V : Type ℓ} (key : HashKey K) where
  abbrev pub IsEmptyBase : HashTable K V → WhichBase → Type ℓ
  IsEmptyBase t b = (q : K) → count key q (home_items key t b q) ≡ 0

  -- Each node of each base is in the entry of its hash.
  abbrev pub IsPlaced : HashTable K V → Type 0
  IsPlaced t = (b : WhichBase) (j : ℕ) → Placed key (base t b).size j ((base t b).entries j).items

  -- A key is in one node at most, in one of the bases.
  abbrev pub IsApart : HashTable K V → WhichBase → Type ℓ
  IsApart t c =
      (q : K) → count key q (home_items key t c q) + count key q (home_items key t (other c) q) ≤ 1

  -- No rehash; one that moves items to the other base; and one that has moved them all, which is never
  -- left, since is_rehashing is not reset.
  pub data Phase (t : HashTable K V) : Type ℓ where
    still :
        t.is_rehashing ≡ false
        → IsEmptyBase t (other t.current_base)
        → IsCounted (base t t.current_base)
        → Phase t
    moving :
        t.is_rehashing ≡ true
        → t.rehash_insert_base ≡ some (other t.current_base)
        → 0 < (base t (other t.current_base)).size
        → IsCounted (base t t.current_base)
        → Phase t
    moved :
        t.is_rehashing ≡ true
        → t.rehash_insert_base ≡ some t.current_base
        → IsEmptyBase t (other t.current_base)
        → Phase t

  -- No assertion has failed, and none will: the position of a rehash is one of its entries, and stays
  -- one when the base that is inserted to takes its place. Before the rehash, the base that it will
  -- insert to has no entries, and is given as many as the current one has.
  pub record IsWithin (t : HashTable K V) : Type 0 where
    pub running : t.aborted ≡ false
    pub resting :
        t.is_rehashing ≡ false
        → ((base t t.current_base).size ≤ 2 * least_hash_entries)
          × ((base t (other t.current_base)).size ≡ 0)
    pub going :
        t.is_rehashing ≡ true
        → (t.rehash_pos < (base t t.current_base).size)
          × ((base t t.current_base).size ≤ (base t (pointed t.rehash_insert_base)).size)

  pub IsWithin-same :
      (t u : HashTable K V)
      → u.current_base ≡ t.current_base
      → u.is_rehashing ≡ t.is_rehashing
      → u.rehash_insert_base ≡ t.rehash_insert_base
      → u.rehash_pos ≡ t.rehash_pos
      → u.aborted ≡ t.aborted
      → ((b : WhichBase) → (base u b).size ≡ (base t b).size)
      → IsWithin t
      → IsWithin u
  IsWithin-same t u c r i p a s is = record {
    running = a ∙ is.running;
    resting = λ h. rw (s (u.current_base), s (other u.current_base), c) (is.resting (sym r ∙ h));
    going = λ h.
        rw (s (u.current_base), s (pointed u.rehash_insert_base), c, i, p) (is.going (sym r ∙ h));
  }

  pub record IsTable (t : HashTable K V) : Type ℓ where
    pub within : IsWithin t
    pub sized : 0 < (base t t.current_base).size
    pub placed : IsPlaced t
    pub apart : IsApart t t.current_base
    pub phase : Phase t

  -- What the map is in each phase.
  module _ (t : HashTable K V) (c : WhichBase) (at : t.current_base ≡ c) where
    pub contents-still :
        (q : K) → t.is_rehashing ≡ false → contents key t q ≡ lookup key q (home_items key t c q)
    unfolding contents first_found home_items base or_else
    contents-still q h = rw (at, h) (or_else-none _)

    pub contents-moving :
        (q : K)
        → t.is_rehashing ≡ true
        → t.rehash_insert_base ≡ some (other c)
        → contents key t q
          ≡ or_else
              (lookup key q (home_items key t c q))
              (lookup key q (home_items key t (other c) q))
    unfolding contents first_found home_items base or_else
    contents-moving q h e = rw (at, h, e) refl

    pub contents-moved :
        (q : K)
        → t.is_rehashing ≡ true
        → t.rehash_insert_base ≡ some c
        → contents key t q ≡ lookup key q (home_items key t c q)
    unfolding contents first_found home_items base or_else
    contents-moved q h e = rw (at, h, e) (or_else-same _)

    -- A table whose current base is known.
    known-IsTable :
        IsWithin t → 0 < (base t c).size → IsPlaced t → IsApart t c → Phase t → IsTable t
    known-IsTable within sized placed apart phase = record {
      within = within;
      sized = subst (λ b. 0 < (base t b).size) (sym at) sized;
      placed = placed;
      apart = subst (IsApart t) (sym at) apart;
      phase = phase;
    }

    pub moving-IsTable :
        IsWithin t
        → 0 < (base t c).size
        → IsPlaced t
        → IsApart t c
        → t.is_rehashing ≡ true
        → t.rehash_insert_base ≡ some (other c)
        → 0 < (base t (other c)).size
        → IsCounted (base t c)
        → IsTable t
    moving-IsTable within sized placed apart h e sized_other counted =
        known-IsTable within sized placed apart (
          moving h (e ∙ ap (λ b. some (other b)) (sym at))
            (subst (λ b. 0 < (base t (other b)).size) (sym at) sized_other)
            (subst (λ b. IsCounted (base t b)) (sym at) counted))

    pub moved-IsTable :
        IsWithin t
        → 0 < (base t c).size
        → IsPlaced t
        → IsApart t c
        → t.is_rehashing ≡ true
        → t.rehash_insert_base ≡ some c
        → IsEmptyBase t (other c)
        → IsTable t
    moved-IsTable within sized placed apart h e empty =
        known-IsTable within sized placed apart
          (moved h (e ∙ ap some (sym at)) (subst (λ b. IsEmptyBase t (other b)) (sym at) empty))

    pub still-IsTable :
        IsWithin t
        → 0 < (base t c).size
        → IsPlaced t
        → IsApart t c
        → t.is_rehashing ≡ false
        → IsEmptyBase t (other c)
        → IsCounted (base t c)
        → IsTable t
    still-IsTable within sized placed apart h empty counted =
        known-IsTable within sized placed apart (
          still h (subst (λ b. IsEmptyBase t (other b)) (sym at) empty)
            (subst (λ b. IsCounted (base t b)) (sym at) counted))

  length-zero-count : (q : K) (m : List (K × V)) → length m ≡ 0 → count key q m ≡ 0
  unfolding count
  length-zero-count q [] h = refl
  length-zero-count q (p ∷ m) h = absurd (omega arith)

  -- A base whose count is 0 is empty.
  pub IsCounted-IsEmptyBase :
      (t : HashTable K V) (c : WhichBase)
      → 0 < (base t c).size
      → IsCounted (base t c)
      → (base t c).items_count < 1
      → IsEmptyBase t c
  unfolding home_items home
  IsCounted-IsEmptyBase t c sized is none_left q =
      let b = base t c in
      let i = key.hash q % b.size in
      let below = length-total b.entries b.size i (omega arith) in
      let counted = is.counted in length-zero-count q (b.entries i).items (omega arith)
