-- ===== src/HashTable/Contents.antt =====
-- src/base/base_hash.c: the map that a hash table stands for, and what its parts say about it.
use forfun.Prelude.{
  ℕ, zero, suc, ◌+◌, ◌%◌, ◌≤◌, ◌<◌, ◌≡◌, refl, true, false, ◌&&◌, Bool-cases, Option, none, some,
  List, [], ◌∷◌, length, if◌then◌else◌, ◌==◌, ==_iff, inl, inr, arith,
}
use forfun.HashTable.{
  HashKey, WhichBase, first, second, HashEntry, HashBase, HashTable, other, same_base, base,
  set_base, set_entry, set_items_count, first_found,
}
use forfun.HashTable.Operations.{home}

module _ {ℓ} {K V : Type ℓ} where
  pub set_entry-entries :
      (t : HashTable K V) (b : WhichBase) (i : ℕ) (e : HashEntry K V) (c : WhichBase) (j : ℕ)
      → (base (set_entry t b i e) c).entries j
        ≡ (if same_base b c && (j == i) then e else (base t c).entries j)
  unfolding set_entry set_base base
  set_entry-entries t first i e first j = refl
  set_entry-entries t first i e second j = refl
  set_entry-entries t second i e first j = refl
  set_entry-entries t second i e second j = refl

  pub set_entry-size :
      (t : HashTable K V) (b : WhichBase) (i : ℕ) (e : HashEntry K V) (c : WhichBase)
      → (base (set_entry t b i e) c).size ≡ (base t c).size
  unfolding set_entry set_base base
  set_entry-size t first i e first = refl
  set_entry-size t first i e second = refl
  set_entry-size t second i e first = refl
  set_entry-size t second i e second = refl

  pub set_entry-items_count :
      (t : HashTable K V) (b : WhichBase) (i : ℕ) (e : HashEntry K V) (c : WhichBase)
      → (base (set_entry t b i e) c).items_count ≡ (base t c).items_count
  unfolding set_entry set_base base
  set_entry-items_count t first i e first = refl
  set_entry-items_count t first i e second = refl
  set_entry-items_count t second i e first = refl
  set_entry-items_count t second i e second = refl

  pub set_items_count-base :
      (t : HashTable K V) (b : WhichBase) (n : ℕ) (c : WhichBase)
      → base (set_items_count t b n) c
        ≡ (if same_base b c then record (base t c) { items_count = n } else base t c)
  unfolding set_items_count set_base base
  set_items_count-base t first n first = refl
  set_items_count-base t first n second = refl
  set_items_count-base t second n first = refl
  set_items_count-base t second n second = refl

  -- The number of nodes in the first entries.
  unfoldable pub total : (ℕ → HashEntry K V) → ℕ → ℕ
  total entries zero = 0
  total entries (suc n) = total entries n + length (entries n).items

  pub total-same :
      (f g : ℕ → HashEntry K V) (n : ℕ)
      → ((j : ℕ) → j < n → (f j).items ≡ (g j).items)
      → total f n ≡ total g n
  unfolding total
  total-same f g zero h = refl
  total-same f g (suc n) h =
      rw (total-same f g n (λ j p. h j (omega arith)), h n (omega arith)) refl

  -- A write of one entry.
  pub total-write :
      (f g : ℕ → HashEntry K V) (n i : ℕ)
      → i < n
      → ((j : ℕ) → (j == i) ≡ false → (g j).items ≡ (f j).items)
      → total g n + length (f i).items ≡ total f n + length (g i).items
  unfolding total
  total-write f g (suc n) i i_lt same = elim (Bool-cases (i == n)) [
    | inl e ↦
        let at : i ≡ n = (==_iff i n).0 e in
        rw (at, total-same g f n (λ j p. same j (ground arith))) (omega arith)
    | inr e ↦
        let inside = total-write f g n i (ground arith) same in
        rw (same n (ground arith)) (omega arith)
  ]
  total-write f g zero i i_lt same = absurd (omega arith)

  -- The number of nodes of both bases.
  abbrev pub in_base : HashTable K V → WhichBase → ℕ
  in_base t b = total (base t b).entries (base t b).size

  unfoldable pub nodes : HashTable K V → ℕ
  nodes t = in_base t first + in_base t second

  pub nodes-at : (t : HashTable K V) (c : WhichBase) → nodes t ≡ in_base t c + in_base t (other c)
  unfolding nodes
  nodes-at t first = refl
  nodes-at t second = omega arith

  pub length-total : (f : ℕ → HashEntry K V) (n i : ℕ) → i < n → length (f i).items ≤ total f n
  unfolding total
  length-total f (suc n) i i_lt = elim (Bool-cases (i == n)) [
    | inl e ↦ rw ((==_iff i n).0 e) (omega arith)
    | inr e ↦ let inside = length-total f n i (ground arith) in omega arith
  ]
  length-total f zero i i_lt = absurd (omega arith)

module _ {ℓ} {K V : Type ℓ} (key : HashKey K) where
  -- The value at a key in a list of nodes, and the number of nodes with the key.
  unfoldable pub lookup : K → List (K × V) → Option V
  lookup q [] = none
  lookup q ((k, v) ∷ m) = let rest = lookup q m in if key.same k q then some v else rest

  unfoldable pub count : K → List (K × V) → ℕ
  count q [] = 0
  count q ((k, v) ∷ m) = let rest = count q m in if key.same k q then suc rest else rest

  -- Each node is in the entry that its hash says.
  abbrev pub Placed : ℕ → ℕ → List (K × V) → Type 0
  Placed size j [] = Unit
  Placed size j ((k, v) ∷ m) = (key.hash k % size ≡ j) × Placed size j m

  unfoldable pub home_items : HashTable K V → WhichBase → K → List (K × V)
  home_items t b q = ((base t b).entries (home key (base t b) q)).items

  -- The map: the current base is asked first, then the one that a rehash inserts to.
  unfoldable pub contents : HashTable K V → K → Option V
  contents t q = first_found t (λ b. lookup q (home_items t b q))

  pub count-zero-lookup : (q : K) (m : List (K × V)) → count q m ≡ 0 → lookup q m ≡ none
  unfolding count lookup
  count-zero-lookup q [] h = refl
  count-zero-lookup q ((k, v) ∷ m) h = ground (arith, count-zero-lookup q m)

  pub lookup-none-count : (q : K) (m : List (K × V)) → lookup q m ≡ none → count q m ≡ 0
  unfolding count lookup
  lookup-none-count q [] h = refl
  lookup-none-count q ((k, v) ∷ m) h = ground (arith, lookup-none-count q m)

  -- No key is in a list of the entry of another hash.
  pub Placed-count :
      (size j : ℕ) (q : K) (m : List (K × V))
      → Placed size j m
      → ((key.hash q % size) == j) ≡ false
      → count q m ≡ 0
  unfolding count
  Placed-count size j q [] p ne = refl
  Placed-count size j q ((k, v) ∷ m) (here, rest) ne = elim (Bool-cases (key.same k q)) [
    | inl e ↦
        let h = key.same_hash k q e in absurd (ground (arith, (==_iff (key.hash q % size) j).1))
    | inr e ↦ rw (e) (Placed-count size j q m rest ne)
  ]

  pub home_same : (b : HashBase K V) (k q : K) → key.same k q ≡ true → home key b k ≡ home key b q
  unfolding home
  home_same b k q e = rw (key.same_hash k q e) refl

  pub home-lt : (b : HashBase K V) (k : K) → 0 < b.size → home key b k < b.size
  unfolding home
  home-lt b k sized = omega arith
