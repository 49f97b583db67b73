-- ===== src/HashTable/Entries.antt =====
-- src/base/base_hash.c: the lists of nodes that the operations leave, and the tables with such a list.
use forfun.Prelude.{
  ◌-◌, ℕ, ◌+◌, ◌≤◌, ◌≡◌, refl, sym, ◌∙◌, Bool, true, false, Bool-cases, none, some, List, [], ◌∷◌,
  length, inl, inr, arith, if◌then◌else◌,
}
use forfun.HashTable.{HashKey}
use forfun.HashTable.Operations.{DoFunc, do_in_list, remove_from_list}
use forfun.HashTable.Contents.{lookup, count, Placed, count-zero-lookup}
use forfun.HashTable.Change.{found, changed, ListChanged, count-same}
use forfun.HashTable.Search.{lookup-some-count}

-- A test that is made twice.
twice {ℓ} :
    {A : Type ℓ} (b : Bool) (x y z : A)
    → (if b then x else z) ≡ (if b then x else (if b then y else z))
twice true x y z = refl
twice false x y z = refl

module _ {ℓ} {K V : Type ℓ} (key : HashKey K) where
  -- A list with the value of a key replaced, and without its first node of a key.
  unfoldable pub assign : K → V → List (K × V) → List (K × V)
  assign k w [] = []
  assign k w ((j, v) ∷ m) =
      let rest = assign k w m in if key.same j k then (j, w) ∷ m else (j, v) ∷ rest

  unfoldable pub erase : K → List (K × V) → List (K × V)
  erase k [] = []
  erase k ((j, v) ∷ m) = let rest = erase k m in if key.same j k then m else (j, v) ∷ rest

  pub do_in_list-none :
      (f : DoFunc V) (k : K) (m : List (K × V))
      → lookup key k m ≡ none
      → do_in_list key f k m ≡ none
  unfolding do_in_list lookup
  do_in_list-none f k [] h = refl
  do_in_list-none f k ((j, v) ∷ m) h = ground (arith, do_in_list-none f k m)

  pub do_in_list-some :
      (f : DoFunc V) (k : K) (m : List (K × V)) (v : V)
      → lookup key k m ≡ some v
      → do_in_list key f k m ≡ some ((f v).0, assign k (f v).1 m, (f v).2)
  unfolding do_in_list lookup assign
  do_in_list-some f k [] v h = absurd (cc)
  do_in_list-some f k ((j, w) ∷ m) v h = ground (arith, do_in_list-some f k m v)

  pub length-assign : (k : K) (w : V) (m : List (K × V)) → length (assign k w m) ≡ length m
  unfolding assign
  length-assign k w [] = refl
  length-assign k w ((j, v) ∷ m) = ground (arith, length-assign k w m)

  lookup-assign :
      (k : K) (w : V) (m : List (K × V)) (v : V)
      → lookup key k m ≡ some v
      → (q : K) → lookup key q (assign k w m) ≡ changed key k (some w) (λ p. lookup key p m) q
  unfolding lookup assign
  lookup-assign k w [] v h q = absurd (cc)
  lookup-assign k w ((j, x) ∷ m) v h q = elim (Bool-cases (key.same j k)) [
    | inl e ↦
        rw (e, key.same_left j k q e) (twice (key.same k q) (some w) (some x) (lookup key q m))
    | inr e ↦ elim (Bool-cases (key.same k q)) [
      | inl s ↦
          let apart = key.same_right k q j s in
          let beside : key.same j q ≡ false = sym apart ∙ e in
          let rest = lookup-assign k w m v (ground arith) q in rw (e, beside, s) (ground arith)
      | inr s ↦ let rest = lookup-assign k w m v (ground arith) q in rw (e, s) (ground arith)
    ]
  ]

  count-assign :
      (k : K) (w : V) (m : List (K × V)) (q : K) → count key q (assign k w m) ≡ count key q m
  unfolding count assign
  count-assign k w [] q = refl
  count-assign k w ((j, v) ∷ m) q = ground (arith, count-assign k w m q)

  Placed-assign :
      (k : K) (w : V) (m : List (K × V)) (size j : ℕ)
      → Placed key size j m
      → Placed key size j (assign k w m)
  unfolding assign
  Placed-assign k w [] size j p = tt
  Placed-assign k w ((i, v) ∷ m) size j (here, rest) = elim (Bool-cases (key.same i k)) [
    | inl e ↦ rw (e) (here, rest)
    | inr e ↦ rw (e) (here, Placed-assign k w m size j rest)
  ]

  -- The value of the key is replaced.
  pub assign-ListChanged :
      (k : K) (w v : V) (m : List (K × V))
      → lookup key k m ≡ some v
      → count key k m ≤ 1
      → ListChanged key k (some w) m (assign k w m)
  unfolding found
  assign-ListChanged k w v m h once = record {
    reads = lookup-assign k w m v h;
    counts = λ q.
        let kept = count-assign k w m q in
        let one = lookup-some-count key k m v h in
        ((λ s. let same = count-same key k q m s in omega arith), (λ s. kept));
    placed = λ size j p e. Placed-assign k w m size j p;
  }

  pub remove_from_list-none :
      (k : K) (m : List (K × V)) → lookup key k m ≡ none → remove_from_list key k m ≡ none
  unfolding remove_from_list lookup
  remove_from_list-none k [] h = refl
  remove_from_list-none k ((j, v) ∷ m) h = ground (arith, remove_from_list-none k m)

  pub remove_from_list-some :
      (k : K) (m : List (K × V)) (v : V)
      → lookup key k m ≡ some v
      → (j : K) × (key.same j k ≡ true)
        × (remove_from_list key k m ≡ some ((j, v), erase k m))
        × (length (erase k m) + 1 ≡ length m)
  unfolding remove_from_list lookup erase
  remove_from_list-some k [] v h = absurd (cc)
  remove_from_list-some k ((j, w) ∷ m) v h = elim (Bool-cases (key.same j k)) [
    | inl e ↦ (j, e, ground arith, ground arith)
    | inr e ↦
        let (i, same, removed, shorter) = remove_from_list-some k m v (ground arith) in
        (i, same, rw (e, removed) refl, rw (e) (omega arith))
  ]

  -- The list without the key's node, read and counted.
  erase-reads :
      (k : K) (m : List (K × V)) (q : K)
      → count key k m ≤ 1
      → lookup key q (erase k m) ≡ changed key k none (λ p. lookup key p m) q
  unfolding lookup erase count
  erase-reads k [] q once = ground arith
  erase-reads k ((j, x) ∷ m) q once = elim (Bool-cases (key.same j k)) [
    | inl e ↦ elim (Bool-cases (key.same k q)) [
      | inl s ↦
          let no_more : count key q m ≡ 0 = count-same key k q m s ∙ ground arith in
          rw (e, s) (count-zero-lookup key q m no_more)
      | inr s ↦ rw (e, s, key.same_left j k q e, s) refl
    ]
    | inr e ↦ elim (Bool-cases (key.same k q)) [
      | inl s ↦
          let beside : key.same j q ≡ false = sym (key.same_right k q j s) ∙ e in
          let rest = erase-reads k m q (ground arith) in rw (e, beside, s) (ground arith)
      | inr s ↦ let rest = erase-reads k m q (ground arith) in rw (e, s) (ground arith)
    ]
  ]

  erase-count :
      (k : K) (m : List (K × V)) (q : K)
      → (key.same k q ≡ true → count key q (erase k m) ≡ count key k m - 1)
        × (key.same k q ≡ false → count key q (erase k m) ≡ count key q m)
  unfolding erase count
  erase-count k [] q = ((λ s. refl), (λ s. refl))
  erase-count k ((j, x) ∷ m) q = elim (Bool-cases (key.same j k)) [
    | inl e ↦ rw (e) (
      (λ s. let same = count-same key k q m s in omega arith),
      (λ s. rw (key.same_left j k q e, s) refl),
    )
    | inr e ↦
        let rest = erase-count k m q in
        rw (e) (
          (λ s.
              let beside : key.same j q ≡ false = sym (key.same_right k q j s) ∙ e in
              rw (beside) (rest.0 s)),
          (λ s. let kept = rest.1 s in ground arith),
        )
  ]

  Placed-erase :
      (k : K) (m : List (K × V)) (size j : ℕ) → Placed key size j m → Placed key size j (erase k m)
  unfolding erase
  Placed-erase k [] size j p = tt
  Placed-erase k ((i, v) ∷ m) size j (here, rest) = elim (Bool-cases (key.same i k)) [
    | inl e ↦ rw (e) rest
    | inr e ↦ rw (e) (here, Placed-erase k m size j rest)
  ]

  -- The key is taken away.
  pub erase-ListChanged :
      (k : K) (m : List (K × V)) → count key k m ≤ 1 → ListChanged key k none m (erase k m)
  unfolding found
  erase-ListChanged k m once = record {
    reads = λ q. erase-reads k m q once;
    counts = λ q.
        let (taken, kept) = erase-count k m q in ((λ s. let less = taken s in omega arith), kept);
    placed = λ size j p e. Placed-erase k m size j p;
  }

  -- A key that was not there is put in front.
  pub cons-ListChanged :
      (k : K) (v : V) (m : List (K × V))
      → count key k m ≡ 0
      → ListChanged key k (some v) m ((k, v) ∷ m)
  unfolding lookup count found
  cons-ListChanged k v m absent = record {
    reads = λ q. refl;
    counts = λ q. ((λ s. rw (s, count-same key k q m s, absent) refl), (λ s. rw (s) refl));
    placed = λ size j p e. (e, p);
  }
