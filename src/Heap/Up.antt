-- ===== src/Heap/Up.antt =====
-- ajustHeapAppend: it ends, makes a heap of a heap with a value behind it, and keeps the values.
use forfun.Prelude.{
  ℕ, zero, suc, ◌-◌, ◌<◌, ◌≡◌, ◌≢◌, refl, ◌∙◌, sym, ap, Bool, false, ◌==◌, ltb, some, Bool-cases,
  inl, inr, arith,
}
use forfun.Heap.{write, parent, up_loop, ajust_heap_append}
use forfun.Heap.Order.{
  IsWeakOrder, same_or_not, write-here, write-other, IsHeap, HasHole, fill-IsHeap,
}
use forfun.Heap.Bag.{count-move, count-refill}
use forfun.Heap.Down.{Sifted}

module _ {ℓ} {V : Type ℓ} (less : V → V → Bool) where
  -- The hole moves to its parent, whose value moves down.
  HasHole-up :
      IsWeakOrder less
      → (length : ℕ) (b : ℕ → V) (cur : ℕ) → HasHole less length b cur
      → 0 < cur
      → cur < length
      → HasHole less length (write b cur (b (parent cur))) (parent cur)
  HasHole-up order length b cur hole positive inside = record {
    apart = λ i h n ne np. elim (same_or_not i cur) [
      | inl e ↦ absurd (np (ap parent e))
      | inr ni ↦ elim (same_or_not (parent i) cur) [
        | inl e ↦
            rw
              (
                write-other b cur i (b (parent cur)) ni,
                write-here b cur (parent i) (b (parent cur)) e,
              )
              (hole.across i h n e positive)
        | inr nq ↦
            rw
              (
                write-other b cur i (b (parent cur)) ni,
                write-other b cur (parent i) (b (parent cur)) nq,
              )
              (hole.apart i h n ni nq)
      ]
    ];
    across = λ i h n e p.
        let far : parent (parent cur) ≢ cur = omega arith in
        let near : parent cur ≢ cur = omega arith in
        let grand = hole.apart (parent cur) p (omega arith) near far in
        elim (same_or_not i cur) [
          | inl same ↦
              rw
                (
                  write-here b cur i (b (parent cur)) same,
                  write-other b cur (parent (parent cur)) (b (parent cur)) far,
                )
                grand
          | inr ni ↦
              let np : parent i ≢ cur = omega arith in
              let mine : less (b i) (b (parent cur)) ≡ false = rw (← e) (hole.apart i h n ni np) in
              rw
                (
                  write-other b cur i (b (parent cur)) ni,
                  write-other b cur (parent (parent cur)) (b (parent cur)) far,
                )
                (order.not_less_trans (b (parent (parent cur))) (b (parent cur)) (b i) grand mine)
        ];
  }

  up_loop-Sifted :
      (order : IsWeakOrder less) (fuel length : ℕ) (b : ℕ → V) (cur : ℕ) (value : V)
      → HasHole less length b cur
      → ((i : ℕ) → 0 < i → i < length → parent i ≡ cur → less (b i) value ≡ false)
      → cur < length
      → cur < fuel
      → Sifted less length (write b cur value) (up_loop less fuel b cur value)
  unfolding up_loop
  up_loop-Sifted order zero length b cur value hole below inside n = absurd (omega arith)
  up_loop-Sifted order (suc fuel) length b cur value hole below inside n =
      elim (Bool-cases (cur == 0)) [
        | inl top ↦ rw (top) (stop (λ p. absurd (ground arith)))
        | inr deeper ↦ elim (Bool-cases (less (b (parent cur)) value)) [
          | inl ordered ↦
              rw (deeper, ordered) (stop (λ p. order.asymmetric (b (parent cur)) value ordered))
          | inr passes ↦
              let positive : 0 < cur = ground arith in
              let moved =
                up_loop-Sifted order fuel length (write b cur (b (parent cur))) (parent cur) value
                  (HasHole-up order length b cur hole positive inside) (under positive passes)
                  (omega arith) (omega arith) in
              rw (deeper, passes)
                record {
                  after = moved.after;
                  returns = moved.returns;
                  is_heap = moved.is_heap;
                  same_bag = λ test.
                      moved.same_bag test
                      ∙ count-move test b cur (parent cur) value length inside (omega arith)
                          (omega arith);
                  same_rest = λ i h.
                      moved.same_rest i h
                      ∙ write-other (write b cur (b (parent cur))) (parent cur) i value
                          (omega arith)
                      ∙ write-other b cur i (b (parent cur)) (omega arith)
                      ∙ sym (write-other b cur i value (omega arith));
                }
        ]
      ]
    where
      stop :
          (0 < cur → less value (b (parent cur)) ≡ false)
          → Sifted less length (write b cur value) (some (write b cur value))
      stop above = record {
        after = write b cur value;
        returns = refl;
        is_heap = fill-IsHeap less length b cur value hole above below;
        same_bag = λ test. refl;
        same_rest = λ i h. refl;
      }

      under :
          0 < cur
          → less (b (parent cur)) value ≡ false
          → (i : ℕ) → 0 < i
          → i < length
          → parent i ≡ parent cur
          → less (write b cur (b (parent cur)) i) value ≡ false
      under positive passes i h m e = elim (same_or_not i cur) [
        | inl same ↦ rw (write-here b cur i (b (parent cur)) same) passes
        | inr ni ↦
            let np : parent i ≢ cur = omega arith in
            let mine : less (b i) (b (parent cur)) ≡ false = rw (← e) (hole.apart i h m ni np) in
            rw (write-other b cur i (b (parent cur)) ni)
              (order.not_less_trans value (b (parent cur)) (b i) passes mine)
      ]

  -- ajustHeapAppend of a heap and a value behind it makes a heap of them.
  pub ajust_heap_append-Sifted :
      IsWeakOrder less
      → (used : ℕ) (b : ℕ → V) → IsHeap less used b
      → Sifted less (suc used) b (ajust_heap_append less b (suc used))
  unfolding ajust_heap_append
  ajust_heap_append-Sifted order zero b heap = record {
    after = b;
    returns = refl;
    is_heap = λ i p n. absurd (omega arith);
    same_bag = λ test. refl;
    same_rest = λ i h. refl;
  }
  ajust_heap_append-Sifted order (suc used) b heap =
      let long : ltb (suc (suc used)) 2 ≡ false = ground arith in
      let last : suc (suc used) - 1 ≡ suc used = omega arith in
      let hole : HasHole less (suc (suc used)) b (suc used) = record {
        apart = λ i p n ne np. heap i p (omega arith);
        across = λ i p n e positive. absurd (omega arith);
      } in
      let s =
        up_loop-Sifted order (suc (suc used)) (suc (suc used)) b (suc used) (b (suc used)) hole
          (λ i p n e. absurd (omega arith)) (omega arith) (omega arith) in
      rw (long, last)
        record {
          after = s.after;
          returns = s.returns;
          is_heap = s.is_heap;
          same_bag = λ test.
              s.same_bag test ∙ count-refill test b (suc used) (suc (suc used)) (omega arith);
          same_rest =
              λ i h. s.same_rest i h ∙ write-other b (suc used) i (b (suc used)) (omega arith);
        }
