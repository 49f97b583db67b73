-- ===== src/Heap/Order.antt =====
-- The order of a heap, whole and with a hole, and the laws of a comparison.
use forfun.Prelude.{
  ℕ, zero, suc, ◌≤◌, ◌<◌, ◌≡◌, ◌≢◌, refl, Bool, true, false, ==_refl, inl, inr, ◌⊎◌, arith,
}
use forfun.Heap.{write, parent}

-- What the heap relies on in its comparison: values that are not ordered are alike to all others.
pub record IsWeakOrder {ℓ} {V : Type ℓ} (less : V → V → Bool) : Type ℓ where
  pub asymmetric : (a b : V) → less a b ≡ true → less b a ≡ false
  pub not_less_trans : (a b c : V) → less b a ≡ false → less c b ≡ false → less c a ≡ false

pub same_or_not : (i j : ℕ) → (i ≡ j) ⊎ (i ≢ j)
same_or_not i j = ground arith

module _ {ℓ} {V : Type ℓ} where
  pub write-here : (b : ℕ → V) (i j : ℕ) (v : V) → j ≡ i → write b i v j ≡ v
  write-here b i j v e = rw (e) (rw (==_refl i) refl)

  pub write-other : (b : ℕ → V) (i j : ℕ) (v : V) → j ≢ i → write b i v j ≡ b j
  write-other b i j v n = ground arith

module _ {ℓ} {V : Type ℓ} (less : V → V → Bool) where
  -- No value is less than its parent.
  abbrev pub IsHeap : ℕ → (ℕ → V) → Type 0
  IsHeap length b = (i : ℕ) → 0 < i → i < length → less (b i) (b (parent i)) ≡ false

  -- The order of all values but the one at `cur`, which counts for nothing.
  pub record HasHole (length : ℕ) (b : ℕ → V) (cur : ℕ) : Type 0 where
    pub apart :
        (i : ℕ) → 0 < i → i < length → i ≢ cur → parent i ≢ cur → less (b i) (b (parent i)) ≡ false
    pub across :
        (i : ℕ)
        → 0 < i
        → i < length
        → parent i ≡ cur
        → 0 < cur
        → less (b i) (b (parent cur)) ≡ false

  -- A hole that is filled with a value between its parent and its children.
  pub fill-IsHeap :
      (length : ℕ) (b : ℕ → V) (cur : ℕ) (value : V)
      → HasHole length b cur
      → (0 < cur → less value (b (parent cur)) ≡ false)
      → ((i : ℕ) → 0 < i → i < length → parent i ≡ cur → less (b i) value ≡ false)
      → IsHeap length (write b cur value)
  fill-IsHeap length b cur value hole above below i positive n = elim (same_or_not i cur) [
    | inl e ↦
        let up : parent i ≢ cur = omega arith in
        rw (write-here b cur i value e, write-other b cur (parent i) value up, e)
          (above (omega arith))
    | inr ne ↦ elim (same_or_not (parent i) cur) [
      | inl p ↦
          rw (write-other b cur i value ne, write-here b cur (parent i) value p)
            (below i positive n p)
      | inr np ↦
          rw (write-other b cur i value ne, write-other b cur (parent i) value np)
            (hole.apart i positive n ne np)
    ]
  ]

  -- The top of a heap is not greater than any value.
  pub top_lem :
      (order : IsWeakOrder less) (length : ℕ) (b : ℕ → V)
      → IsHeap length b
      → (bound i : ℕ) → i ≤ bound
      → i < length
      → less (b i) (b 0) ≡ false
  top_lem order length b heap bound zero p n = irreflexive (b 0)
    where
      irreflexive : (v : V) → less v v ≡ false
      irreflexive v = ground (arith, order.asymmetric v v)
  top_lem order length b heap (suc bound) (suc i) p n =
      order.not_less_trans (b 0) (b (parent (suc i))) (b (suc i))
        (top_lem order length b heap bound (parent (suc i)) (omega arith) (omega arith))
        (heap (suc i) (omega arith) n)
  top_lem order length b heap zero (suc i) p n = absurd (omega arith)
