-- ===== src/Heap/Removal.antt =====
-- deleteHeapTop and replaceHeapTop keep a heap and its values.
use forfun.Prelude.{
  ℕ, zero, suc, ◌+◌, ◌-◌, ◌≤◌, ◌<◌, ◌≡◌, ◌≢◌, refl, ◌∙◌, ap, Bool, true, false, ltb, Option, some,
  arith,
}
use forfun.Heap.{
  Heap, HeapError, no_error, least_heap_size, write, parent, ajust_heap, replace_heap_top,
  delete_heap_top,
}
use forfun.Heap.Order.{IsWeakOrder, write-other, IsHeap, top_lem}
use forfun.Heap.Bag.{one_if, count, count-write}
use forfun.Heap.Down.{Sifted, ajust_heap-Sifted}
use forfun.Heap.Laws.{IsHeapState, bag}

module _ {ℓ} {V : Type ℓ} (less : V → V → Bool) where
  pub record Removed (h : Heap V) (result : Option (HeapError × Option V × Heap V)) : Type ℓ where
    pub after : Heap V
    pub returns : result ≡ some (no_error, some (h.base 0), after)
    pub is_heap : IsHeapState less after
    pub one_less : suc after.base_used_length ≡ h.base_used_length
    pub least : (i : ℕ) → i < h.base_used_length → less (h.base i) (h.base 0) ≡ false
    pub same_bag :
        (test : V → Bool) → bag less test after + one_if (test (h.base 0)) ≡ bag less test h

  -- A heap whose top is overwritten is one but for its top.
  apart-write :
      (length : ℕ) (b : ℕ → V) (value : V)
      → IsHeap less length b
      → (i : ℕ) → 0 < i
      → i < length
      → parent i ≢ 0
      → less (write b 0 value i) (write b 0 value (parent i)) ≡ false
  apart-write length b value heap i p n ne =
      rw (write-other b 0 i value (omega arith), write-other b 0 (parent i) value ne) (heap i p n)

  bag-last :
      (test : V → Bool) (b : ℕ → V) (m : ℕ)
      → 0 < m
      → count test (write b 0 (b m)) m + one_if (test (b 0)) ≡ count test b (suc m)
  unfolding count
  bag-last test b m p = count-write test b 0 (b m) m p

  -- The last value goes to the top and is sifted down.
  remove-Sifted :
      IsWeakOrder less
      → (b : ℕ → V) (size n : ℕ) → IsHeap less (suc (suc (suc n))) b
      → suc (suc (suc n)) ≤ size
      → least_heap_size ≤ size
      → Sifted less
          (suc (suc n))
          (write b 0 (b (suc (suc n))))
          (ajust_heap less (write b 0 (b (suc (suc n)))) (suc (suc n)))
      → Removed
          record { base = b; base_size = size; base_used_length = suc (suc (suc n)) }
          (delete_heap_top less
            record { base = b; base_size = size; base_used_length = suc (suc (suc n)) })
  unfolding delete_heap_top
  remove-Sifted order b size n heap fits least s =
      let t1 : ltb (suc (suc (suc n))) 1 ≡ false = ground arith in
      let t2 : ltb 1 (suc (suc (suc n))) ≡ true = ground arith in
      let t3 : suc (suc (suc n)) - 1 ≡ suc (suc n) = omega arith in
      let t4 : ltb 1 (suc (suc n)) ≡ true = ground arith in
      rw (t1, t3, t2, t4, s.returns, t3)
        record {
          after = record { base = s.after; base_size = size; base_used_length = suc (suc n) };
          returns = refl;
          is_heap = (s.is_heap, omega arith, least);
          one_less = refl;
          least = λ i m. top_lem less order (suc (suc (suc n))) b heap i i (omega arith) m;
          same_bag = λ test.
              ap (λ x. x + one_if (test (b 0))) (s.same_bag test)
              ∙ bag-last test b (suc (suc n)) (omega arith);
        }

  -- For a comparison that is a weak order, deleteHeapTop of a heap that is not empty reports no error
  -- and hands out its top, which is not greater than any of its values; afterwards the array is a heap
  -- of all the others.
  pub delete_heap_top-Removed :
      IsWeakOrder less
      → (h : Heap V) → IsHeapState less h
      → 0 < h.base_used_length
      → Removed h (delete_heap_top less h)
  unfolding delete_heap_top count
  delete_heap_top-Removed order h (heap, fits, least) positive =
      remove h.base h.base_size h.base_used_length heap fits least positive
    where
      remove :
          (b : ℕ → V) (size used : ℕ)
          → IsHeap less used b
          → used ≤ size
          → least_heap_size ≤ size
          → 0 < used
          → Removed
              record { base = b; base_size = size; base_used_length = used }
              (delete_heap_top less record { base = b; base_size = size; base_used_length = used })
      remove b size zero heap fits least positive = absurd (omega arith)
      remove b size (suc zero) heap fits least positive = record {
        after = record { base = b; base_size = size; base_used_length = 0 };
        returns = refl;
        is_heap = ((λ i p n. absurd (omega arith)), omega arith, least);
        one_less = refl;
        least = λ i n. top_lem less order 1 b heap i i (omega arith) n;
        same_bag = λ test. refl;
      }
      remove b size (suc (suc zero)) heap fits least positive = record {
        after = record { base = write b 0 (b 1); base_size = size; base_used_length = 1 };
        returns = refl;
        is_heap = ((λ i p n. absurd (omega arith)), omega arith, least);
        one_less = refl;
        least = λ i n. top_lem less order 2 b heap i i (omega arith) n;
        same_bag = λ test. bag-last test b 1 (omega arith);
      }
      remove b size (suc (suc (suc n))) heap fits least positive =
          remove-Sifted order b size n heap fits least (
            ajust_heap-Sifted less order (suc (suc n)) (write b 0 (b (suc (suc n))))
              (apart-write (suc (suc n)) b (b (suc (suc n))) λ i p m. heap i p (omega arith)))

  pub record Replaced (h : Heap V) (value : V) (result : Option (Heap V)) : Type ℓ where
    pub after : Heap V
    pub returns : result ≡ some after
    pub is_heap : IsHeapState less after
    pub as_many : after.base_used_length ≡ h.base_used_length
    pub same_bag :
        (test : V → Bool)
        → bag less test after + one_if (test (h.base 0)) ≡ bag less test h + one_if (test value)

  -- For a comparison that is a weak order, replaceHeapTop of a heap that is not empty takes the top out
  -- and puts the value in; afterwards the array is a heap of the value and all the others.
  pub replace_heap_top-Replaced :
      IsWeakOrder less
      → (h : Heap V) (value : V) → IsHeapState less h
      → 0 < h.base_used_length
      → Replaced h value (replace_heap_top less h value)
  unfolding replace_heap_top
  replace_heap_top-Replaced order h value (heap, fits, least) positive =
      let used = h.base_used_length in
      let some_used : ltb used 1 ≡ false = ground arith in
      let s =
        ajust_heap-Sifted less order used (write h.base 0 value)
          (apart-write used h.base value heap) in
      rw (replace_heap_top, some_used, s.returns, some_used)
        record {
          after = record { base = s.after; base_size = h.base_size; base_used_length = used };
          returns = refl;
          is_heap = (s.is_heap, fits, least);
          as_many = refl;
          same_bag = λ test.
              ap (λ x. x + one_if (test (h.base 0))) (s.same_bag test)
              ∙ count-write test h.base 0 value used positive;
        }
