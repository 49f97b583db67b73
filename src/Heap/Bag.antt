-- ===== src/Heap/Bag.antt =====
-- The values of an array as a bag: how many of them meet a test.
use forfun.Prelude.{
  false, subst, ℕ, zero, suc, ◌+◌, ◌≤◌, ◌<◌, ◌≡◌, ◌≢◌, refl, Bool, true, false, inl, inr, arith,
}
use forfun.Heap.{write}
use forfun.Heap.Order.{same_or_not, write-here, write-other}

abbrev pub one_if : Bool → ℕ
one_if true = 1
one_if false = 0

module _ {ℓ} {V : Type ℓ} (test : V → Bool) where
  unfoldable pub count : (ℕ → V) → ℕ → ℕ
  count b zero = 0
  count b (suc n) = count b n + one_if (test (b n))

  pub count-outside :
      (b : ℕ → V) (i : ℕ) (v : V) (n : ℕ) → n ≤ i → count (write b i v) n ≡ count b n
  unfolding count
  count-outside b i v zero h = refl
  count-outside b i v (suc n) h =
      rw (write-other b i n v (omega arith), count-outside b i v n (omega arith)) refl

  -- A write takes one value out and puts one in.
  pub count-write :
      (b : ℕ → V) (i : ℕ) (v : V) (n : ℕ)
      → i < n
      → count (write b i v) n + one_if (test (b i)) ≡ count b n + one_if (test v)
  unfolding count
  count-write b i v zero h = absurd (omega arith)
  count-write b i v (suc n) h = elim (same_or_not n i) [
    | inl e ↦ rw (write-here b i n v e, count-outside b i v n (omega arith), e) (omega arith)
    | inr ne ↦ rw (write-other b i n v ne) (omega (arith, count-write b i v n (omega arith)))
  ]

  -- A hole moves: the value in the new place goes to the old one.
  pub count-move :
      (b : ℕ → V) (i j : ℕ) (v : V) (n : ℕ)
      → i < n
      → j < n
      → j ≢ i
      → count (write (write b i (b j)) j v) n ≡ count (write b i v) n
  count-move b i j v n hi hj ne =
      let kept : write b i (b j) j ≡ b j = write-other b i j (b j) ne in
      let second = rw kept at (count-write (write b i (b j)) j v n hj) in
      omega (arith, second, count-write b i (b j) n hi, count-write b i v n hi)

  pub count-refill : (b : ℕ → V) (i n : ℕ) → i < n → count (write b i (b i)) n ≡ count b n
  count-refill b i n h = omega (arith, count-write b i (b i) n h)

  -- Arrays that agree below a bound.
  pub count-agree : (b c : ℕ → V) (n : ℕ) → ((i : ℕ) → i < n → b i ≡ c i) → count b n ≡ count c n
  unfolding count
  count-agree b c zero h = refl
  count-agree b c (suc n) h =
      rw (h n (omega arith), count-agree b c n (λ i k. h i (omega arith))) refl

  pub count-none : (b : ℕ → V) (n : ℕ) → ((i : ℕ) → i < n → test (b i) ≡ false) → count b n ≡ 0
  unfolding count
  count-none b zero h = refl
  count-none b (suc n) h = rw (h n (omega arith), count-none b n (λ i k. h i (omega arith))) refl

  pub none-count : (b : ℕ → V) (n : ℕ) → count b n ≡ 0 → (i : ℕ) → i < n → test (b i) ≡ false
  unfolding count
  none-count b zero e i p = absurd (omega arith)
  none-count b (suc n) e i p = elim (same_or_not i n) [
    | inl same ↦ rw (same) (none_one (test (b n)) (omega arith))
    | inr other ↦ none-count b n (omega arith) i (omega arith)
  ]
    where
      none_one : (t : Bool) → one_if t ≡ 0 → t ≡ false
      none_one true e = absurd (omega arith)
      none_one false e = refl

  -- Arrays that hold as many below a bound and agree behind it.
  pub count-tail :
      (b c : ℕ → V) (m n : ℕ)
      → m ≤ n
      → count b m ≡ count c m
      → ((i : ℕ) → m ≤ i → b i ≡ c i)
      → count b n ≡ count c n
  unfolding count
  count-tail b c m zero p e h = refl
  count-tail b c m (suc n) p e h = elim (same_or_not m (suc n)) [
    | inl same ↦ subst (λ k. count b k ≡ count c k) same e
    | inr less ↦ rw (h n (omega arith), count-tail b c m n (omega arith) e h) refl
  ]
