-- ===== src/HashTable/Search.antt =====
-- src/base/base_hash.c: the search of the two bases finds the key where the map has it.
use forfun.Prelude.{
  ◌≤◌, ◌≡◌, refl, sym, ◌∙◌, true, Option-cases, Option, none, some, List, [], ◌∷◌, inl, inr, ◌⊎◌,
  subst, arith, or_else,
}
use forfun.HashTable.{HashKey, WhichBase, HashTable, other, first_found}
use forfun.HashTable.Contents.{lookup, count, home_items, contents}
use forfun.HashTable.Invariant.{
  IsTable, still, moving, moved, contents-still, contents-moving, contents-moved,
}
use forfun.HashTable.Rehash.Kept.{other_twice}
use forfun.HashTable.Change.{InUse, current, target}

module _ {ℓ} {K V : Type ℓ} (key : HashKey K) where
  pub lookup-some-count :
      (k : K) (m : List (K × V)) (v : V) → lookup key k m ≡ some v → 1 ≤ count key k m
  unfolding lookup count
  lookup-some-count k [] v h = absurd (cc)
  lookup-some-count k ((j, w) ∷ m) v h = ground (arith, lookup-some-count k m v)

module _ {ℓ} {K V : Type ℓ} (key : HashKey K) (t : HashTable K V) (k : K) where
  -- A search of one base that fails where the key is not.
  abbrev pub Misses : {R : Type ℓ} → (WhichBase → Option R) → Type ℓ
  Misses f = (b : WhichBase) → lookup key k (home_items key t b k) ≡ none → f b ≡ none

  pub record Missing : Type (ℓ + 1) where
    pub reads : contents key t k ≡ none
    pub finds_none : (R : Type ℓ) (f : WhichBase → Option R) → Misses f → first_found t f ≡ none

  pub record Present : Type (ℓ + 1) where
    pub which : WhichBase
    pub value : V
    pub in_use : InUse key t which
    pub holds : lookup key k (home_items key t which k) ≡ some value
    pub reads : contents key t k ≡ some value
    pub absent : count key k (home_items key t (other which) k) ≡ 0
    pub finds :
        (R : Type ℓ) (f : WhichBase → Option R) (r : R)
        → Misses f
        → f which ≡ some r
        → first_found t f ≡ some r

  abbrev c : WhichBase
  c = t.current_base

  in_current :
      IsTable key t
      → (v : V) → lookup key k (home_items key t c k) ≡ some v
      → contents key t k ≡ some v
      → Present
  unfolding first_found or_else
  in_current is v holds reads = record {
    which = c;
    value = v;
    in_use = current refl;
    holds = holds;
    reads = reads;
    absent =
        let one = lookup-some-count key k (home_items key t c k) v holds in
        let apart = is.apart k in omega arith;
    finds = λ R f r misses hit. rw (hit) refl;
  }

  in_other :
      IsTable key t
      → (v : V) → lookup key k (home_items key t c k) ≡ none
      → lookup key k (home_items key t (other c) k) ≡ some v
      → contents key t k ≡ some v
      → t.is_rehashing ≡ true
      → t.rehash_insert_base ≡ some (other c)
      → Present
  unfolding first_found or_else
  in_other is v not_here holds reads h e = record {
    which = other c;
    value = v;
    in_use = target h e refl;
    holds = holds;
    reads = reads;
    absent =
        let one = lookup-some-count key k (home_items key t (other c) k) v holds in
        let apart = is.apart k in
        subst (λ b. count key k (home_items key t b k) ≡ 0) (sym (other_twice c)) (omega arith);
    finds = λ R f r misses hit. rw (misses c not_here, h, e, hit) refl;
  }

  pub located : IsTable key t → Missing ⊎ Present
  unfolding first_found or_else
  located is = elim is.phase [
    | still h _ _ ↦ elim (Option-cases (lookup key k (home_items key t c k))) [
      | inl e ↦ inl (record {
        reads = contents-still key t c refl k h ∙ e;
        finds_none = λ R f misses. rw (misses c e, h) refl;
      })
      | inr (v, e) ↦ inr (in_current is v e (contents-still key t c refl k h ∙ e))
    ]
    | moved h i _ ↦ elim (Option-cases (lookup key k (home_items key t c k))) [
      | inl e ↦ inl (record {
        reads = contents-moved key t c refl k h i ∙ e;
        finds_none = λ R f misses. rw (misses c e, h, i, misses c e) refl;
      })
      | inr (v, e) ↦ inr (in_current is v e (contents-moved key t c refl k h i ∙ e))
    ]
    | moving h i _ _ ↦ elim (Option-cases (lookup key k (home_items key t c k))) [
      | inr (v, e) ↦ inr (in_current is v e (rw (contents-moving key t c refl k h i, e) refl))
      | inl e ↦ elim (Option-cases (lookup key k (home_items key t (other c) k))) [
        | inl n ↦ inl (record {
          reads = rw (contents-moving key t c refl k h i, e, n) refl;
          finds_none = λ R f misses. rw (misses c e, h, i, misses (other c) n) refl;
        })
        | inr (v, n) ↦
            inr (in_other is v e n (rw (contents-moving key t c refl k h i, e, n) refl) h i)
      ]
    ]
  ]
