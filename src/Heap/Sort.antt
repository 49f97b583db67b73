-- ===== src/Heap/Sort.antt =====
-- heapSort leaves a sorted array with the same values.
use forfun.Prelude.{
  ℕ, zero, suc, ◌+◌, ◌-◌, ◌≤◌, ◌<◌, ◌≡◌, refl, ◌∙◌, Bool, false, ltb, Option, some, Bool-cases, inl,
  inr, arith,
}
use forfun.Heap.{Heap, write, parent, swap, sort_loop, ajust_heap, heap_sort}
use forfun.Heap.Order.{IsWeakOrder, same_or_not, IsHeap, top_lem}
use forfun.Heap.Bag.{
  one_if, count, count-outside, count-write, count-agree, count-none, none-count, count-tail,
}
use forfun.Heap.Down.{Sifted, ajust_heap-Sifted}
use forfun.Heap.Reversal.{swap-second, swap-other, count-swap, reverse_loop-Reversed}
use forfun.Heap.Laws.{IsHeapState, bag}

module _ {ℓ} {V : Type ℓ} (less : V → V → Bool) where
  -- Between two turns of the first loop: `m` values are a heap, those behind descend, and none of the
  -- heap is less than one behind.
  record HalfSorted (n m : ℕ) (b : ℕ → V) : Type ℓ where
    is_heap : IsHeap less m b
    descends : (i j : ℕ) → m ≤ i → i < j → j < n → less (b i) (b j) ≡ false
    above : (k : ℕ) → m ≤ k → k < n → count (λ v. less v (b k)) b m ≡ 0

  -- The exchange takes the top out of the heap.
  count-swap_top :
      (test : V → Bool) (b : ℕ → V) (end : ℕ)
      → count test (swap b 0 end) end + one_if (test (b 0)) ≡ count test b (suc end)
  unfolding count
  count-swap_top test b zero = refl
  count-swap_top test b (suc end) =
      rw (count-outside test (write b 0 (b (suc end))) (suc end) (b 0) (suc end) (omega arith))
        (count-write test b 0 (b (suc end)) (suc end) (omega arith))

  count-swap_all :
      (test : V → Bool) (b : ℕ → V) (end n : ℕ)
      → end < n
      → count test (swap b 0 end) n ≡ count test b n
  count-swap_all test b zero n p = count-agree test (swap b 0 0) b n (λ i q. same i)
    where
      same : (i : ℕ) → swap b 0 0 i ≡ b i
      same i = elim (same_or_not i 0) [
        | inl e ↦ rw (e) (swap-second b 0 0)
        | inr ne ↦ swap-other b 0 0 i ne ne
      ]
  count-swap_all test b (suc end) n p =
      count-swap test b 0 (suc end) n (omega arith) p (omega arith)

  sift :
      IsWeakOrder less
      → (n end : ℕ) (b : ℕ → V) → HalfSorted n (suc end) b
      → Sifted less end (swap b 0 end) (ajust_heap less (swap b 0 end) end)
  sift order n end b half = ajust_heap-Sifted less order end (swap b 0 end) λ i p q ne.
      rw
        (
          swap-other b 0 end i (omega arith) (omega arith),
          swap-other b 0 end (parent i) ne (omega arith),
        )
        (half.is_heap i p (omega arith))

  HalfSorted-turn :
      (order : IsWeakOrder less) (n end : ℕ) (b : ℕ → V)
      → end < n
      → HalfSorted n (suc end) b
      → (s : Sifted less end (swap b 0 end) (ajust_heap less (swap b 0 end) end))
      → HalfSorted n end s.after
  HalfSorted-turn order n end b inside half s =
      let last : s.after end ≡ b 0 = s.same_rest end (omega arith) ∙ swap-second b 0 end in
      let rest : (k : ℕ) → end < k → s.after k ≡ b k =
        λ k p. s.same_rest k (omega arith) ∙ swap-other b 0 end k (omega arith) (omega arith) in
      let fewer : (test : V → Bool) → count test b (suc end) ≡ 0 → count test s.after end ≡ 0 =
        λ test e. omega (arith, s.same_bag test, count-swap_top test b end) in
      record {
        is_heap = s.is_heap;
        descends = λ i j p q r. elim (same_or_not i end) [
          | inl e ↦ rw (e) (
              rw (last, rest j (omega arith))
                (none-count (λ v. less v (b j)) b (suc end) (half.above j (omega arith) r) 0
                  (omega arith)))
          | inr ne ↦
              rw (rest i (omega arith), rest j (omega arith)) (half.descends i j (omega arith) q r)
        ];
        above = λ k p q. elim (same_or_not k end) [
          | inl e ↦ rw (e) (
              rw (last) (
                fewer (λ v. less v (b 0))
                  (count-none (λ v. less v (b 0)) b (suc end)
                    (λ i r. top_lem less order (suc end) b half.is_heap i i (omega arith) r))))
          | inr ne ↦
              rw (rest k (omega arith)) (fewer (λ v. less v (b k)) (half.above k (omega arith) q))
        ];
      }

  -- What the first loop makes of the array.
  record Descending (n : ℕ) (b : ℕ → V) (result : Option (ℕ → V)) : Type ℓ where
    after : ℕ → V
    returns : result ≡ some after
    descends : (i j : ℕ) → i < j → j < n → less (after i) (after j) ≡ false
    same_bag : (test : V → Bool) → count test after n ≡ count test b n

  sort_loop-Descending :
      (order : IsWeakOrder less) (n m : ℕ) (b : ℕ → V)
      → m ≤ n
      → HalfSorted n m b
      → Descending n b (sort_loop less m b)
  unfolding sort_loop
  sort_loop-Descending order n zero b p half = record {
    after = b;
    returns = refl;
    descends = λ i j q r. half.descends i j (omega arith) q r;
    same_bag = λ test. refl;
  }
  sort_loop-Descending order n (suc end) b p half =
      let s = sift order n end b half in
      let d =
        sort_loop-Descending order n end s.after (omega arith)
          (HalfSorted-turn order n end b (omega arith) half s) in
      rw (sort_loop, s.returns)
        record {
          after = d.after;
          returns = d.returns;
          descends = d.descends;
          same_bag = λ test.
              d.same_bag test
              ∙ count-tail test s.after (swap b 0 end) end n (omega arith) (s.same_bag test)
                  s.same_rest
              ∙ count-swap_all test b end n (omega arith);
        }

  pub record Sorted (h : Heap V) (result : Option (Heap V)) : Type ℓ where
    pub after : Heap V
    pub returns : result ≡ some after
    pub as_many : after.base_used_length ≡ h.base_used_length
    pub ascends :
        (i j : ℕ) → i < j → j < h.base_used_length → less (after.base j) (after.base i) ≡ false
    pub same_bag : (test : V → Bool) → bag less test after ≡ bag less test h

  -- For a comparison that is a weak order, heapSort of a heap ends, and its array then ascends and
  -- holds the same values.
  pub heap_sort-Sorted :
      IsWeakOrder less → (h : Heap V) → IsHeapState less h → Sorted h (heap_sort less h)
  unfolding heap_sort
  heap_sort-Sorted order h (heap, fits, least) = elim (Bool-cases (ltb h.base_used_length 2)) [
    | inl short ↦ rw (short) record {
      after = h;
      returns = refl;
      as_many = refl;
      ascends = λ i j p q. absurd (ground arith);
      same_bag = λ test. refl;
    }
    | inr long ↦
        let n = h.base_used_length in
        let two : 2 ≤ n = ground arith in
        let d = sort_loop-Descending order n n h.base (omega arith) record {
          is_heap = heap;
          descends = λ i j p q r. absurd (omega arith);
          above = λ k p q. absurd (omega arith);
        } in
        let r = reverse_loop-Reversed n d.after 0 (n - 1) (omega arith) (omega arith) in
        rw (long, d.returns, r.returns)
          record {
            after = record { base = r.after; base_size = h.base_size; base_used_length = n };
            returns = refl;
            as_many = refl;
            ascends = λ i j p q.
                rw (r.turned i (omega arith) (omega arith), r.turned j (omega arith) (omega arith))
                  (d.descends (0 + (n - 1) - j) (0 + (n - 1) - i) (omega arith) (omega arith));
            same_bag = λ test. r.same_bag test n (omega arith) ∙ d.same_bag test;
          }
  ]
