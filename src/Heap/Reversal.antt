-- ===== src/Heap/Reversal.antt =====
-- The second loop of heapSort turns an array around.
use forfun.Prelude.{
  ℕ, zero, suc, ◌+◌, ◌-◌, ◌*◌, ◌≤◌, ◌<◌, ◌≡◌, ◌≢◌, refl, ◌∙◌, ap, Bool, ltb, Option, some,
  Bool-cases, inl, inr, arith,
}
use forfun.Heap.{write, swap, reverse_loop}
use forfun.Heap.Order.{same_or_not, write-here, write-other}
use forfun.Heap.Bag.{count, count-move, count-refill}

module _ {ℓ} {V : Type ℓ} where
  pub swap-first : (b : ℕ → V) (i j : ℕ) → i ≢ j → swap b i j i ≡ b j
  swap-first b i j ne = write-other (write b i (b j)) j i (b i) ne ∙ write-here b i i (b j) refl

  pub swap-second : (b : ℕ → V) (i j : ℕ) → swap b i j j ≡ b i
  swap-second b i j = write-here (write b i (b j)) j j (b i) refl

  pub swap-other : (b : ℕ → V) (i j k : ℕ) → k ≢ i → k ≢ j → swap b i j k ≡ b k
  swap-other b i j k ni nj = write-other (write b i (b j)) j k (b i) nj ∙ write-other b i k (b j) ni

  pub count-swap :
      (test : V → Bool) (b : ℕ → V) (i j n : ℕ)
      → i < n
      → j < n
      → j ≢ i
      → count test (swap b i j) n ≡ count test b n
  count-swap test b i j n hi hj ne =
      count-move test b i j (b i) n hi hj ne ∙ count-refill test b i n hi

  -- The values from `i` to `end` come in the opposite order, the others stay.
  pub record Reversed (b : ℕ → V) (i end : ℕ) (result : Option (ℕ → V)) : Type ℓ where
    pub after : ℕ → V
    pub returns : result ≡ some after
    pub turned : (k : ℕ) → i ≤ k → k ≤ end → after k ≡ b (i + end - k)
    pub before_i : (k : ℕ) → k < i → after k ≡ b k
    pub behind_end : (k : ℕ) → end < k → after k ≡ b k
    pub same_bag : (test : V → Bool) (n : ℕ) → end < n → count test after n ≡ count test b n

  pub reverse_loop-Reversed :
      (fuel : ℕ) (b : ℕ → V) (i end : ℕ)
      → end + 2 ≤ i + 2 * fuel
      → i ≤ suc end
      → Reversed b i end (reverse_loop fuel b i end)
  unfolding reverse_loop
  reverse_loop-Reversed zero b i end n m = absurd (omega arith)
  reverse_loop-Reversed (suc fuel) b i end n m = elim (Bool-cases (ltb i end)) [
    | inr met ↦ rw (met) record {
      after = b;
      returns = refl;
      turned = λ k p q. ap b (middle k p q (ground arith));
      before_i = λ k p. refl;
      behind_end = λ k p. refl;
      same_bag = λ test n p. refl;
    }
    | inl apart ↦
        let less : i < end = ground arith in
        let r =
          reverse_loop-Reversed fuel (swap b i end) (suc i) (end - 1) (omega arith) (omega arith) in
        rw (apart) record {
          after = r.after;
          returns = r.returns;
          turned = λ k p q. elim (same_or_not k i) [
            | inl first ↦
                r.before_i k (omega arith)
                ∙ ap (swap b i end) first
                ∙ swap-first b i end (omega arith)
                ∙ ap b (omega arith)
            | inr nf ↦ elim (same_or_not k end) [
              | inl last ↦
                  r.behind_end k (omega arith)
                  ∙ ap (swap b i end) last
                  ∙ swap-second b i end
                  ∙ ap b (omega arith)
              | inr nl ↦
                  r.turned k (omega arith) (omega arith)
                  ∙ swap-other b i end (suc i + (end - 1) - k) (omega arith) (omega arith)
                  ∙ ap b (omega arith)
            ]
          ];
          before_i =
              λ k p. r.before_i k (omega arith) ∙ swap-other b i end k (omega arith) (omega arith);
          behind_end = λ k p.
              r.behind_end k (omega arith) ∙ swap-other b i end k (omega arith) (omega arith);
          same_bag = λ test n p.
              r.same_bag test n (omega arith)
              ∙ count-swap test b i end n (omega arith) p (omega arith);
        }
  ]
    where
      middle : (k : ℕ) → i ≤ k → k ≤ end → end ≤ i → k ≡ i + end - k
      middle k p q e = omega arith
