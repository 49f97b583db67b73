-- ===== src/Heap/Down.antt =====
-- ajustHeap: it ends, makes a heap of what is one but for the top, and keeps the values.
use forfun.Prelude.{
  ℕ, zero, suc, ◌+◌, ◌*◌, ◌≤◌, ◌<◌, ◌≡◌, ◌≢◌, refl, ◌∙◌, sym, Bool, true, false, if◌then◌else◌,
  ◌||◌, ltb, leb, Option, some, Bool-cases, inl, inr, arith,
}
use forfun.Heap.{write, parent, child_idx, down_loop, ajust_heap}
use forfun.Heap.Order.{
  IsWeakOrder, same_or_not, write-here, write-other, IsHeap, HasHole, fill-IsHeap,
}
use forfun.Heap.Bag.{count, count-move, count-refill}

leb_refl : (n : ℕ) → leb n n ≡ true
leb_refl n = ground arith

module _ {ℓ} {V : Type ℓ} (less : V → V → Bool) where
  -- What a sift makes of the array `b`, whose hole at `cur` it fills with `value`: a heap of the same
  -- values in the first places and no change behind them.
  pub record Sifted (length : ℕ) (b : ℕ → V) (result : Option (ℕ → V)) : Type ℓ where
    pub after : ℕ → V
    pub returns : result ≡ some after
    pub is_heap : IsHeap less length after
    pub same_bag : (test : V → Bool) → count test after length ≡ count test b length
    pub same_rest : (i : ℕ) → length ≤ i → after i ≡ b i

  -- The child that is compared is the lesser one.
  data Child (b : ℕ → V) (length cur : ℕ) : ℕ → Type 0 where
    no_child : length ≤ 2 * cur + 1 → Child b length cur length
    least_child :
        (c : ℕ)
        → parent c ≡ cur
        → cur < c
        → c < length
        → ((i : ℕ) → 0 < i → i < length → parent i ≡ cur → i ≢ c → less (b i) (b c) ≡ false)
        → Child b length cur c

  child_idx-Child :
      IsWeakOrder less
      → (b : ℕ → V) (length cur : ℕ) → Child b length cur (child_idx less b length cur)
  unfolding child_idx
  child_idx-Child order b length cur = elim (Bool-cases (ltb (2 * cur + 1) length)) [
    | inr past ↦ rw (past) (no_child (ground arith))
    | inl left ↦ elim (Bool-cases (ltb (2 * cur + 2) length)) [
      | inr single ↦
          rw (left, single)
            (least_child (2 * cur + 1) (omega arith) (omega arith) (ground arith)
              λ i h n p ne. absurd (ground arith))
      | inl right ↦ elim (Bool-cases (less (b (2 * cur + 2)) (b (2 * cur + 1)))) [
        | inl lesser ↦
            rw (left, right, lesser)
              (least_child (2 * cur + 2) (omega arith) (omega arith) (ground arith) λ i h n p ne.
                let e : i ≡ 2 * cur + 1 = omega arith in
                rw (e) (order.asymmetric (b (2 * cur + 2)) (b (2 * cur + 1)) lesser))
        | inr other ↦
            rw (left, right, other)
              (least_child (2 * cur + 1) (omega arith) (omega arith) (ground arith)
                λ i h n p ne. let e : i ≡ 2 * cur + 2 = omega arith in rw (e) other)
      ]
    ]
  ]

  -- The hole moves to the lesser child, whose value moves up.
  HasHole-down :
      (length : ℕ) (b : ℕ → V) (cur c : ℕ)
      → HasHole less length b cur
      → parent c ≡ cur
      → cur < c
      → c < length
      → ((i : ℕ) → 0 < i → i < length → parent i ≡ cur → i ≢ c → less (b i) (b c) ≡ false)
      → HasHole less length (write b cur (b c)) c
  HasHole-down length b cur c hole up deeper inside least = record {
    apart = λ i h n ne np. elim (same_or_not i cur) [
      | inl e ↦
          let p : parent i ≢ cur = omega arith in
          rw (write-here b cur i (b c) e, write-other b cur (parent i) (b c) p, e)
            (hole.across c (omega arith) inside up (omega arith))
      | inr ni ↦ elim (same_or_not (parent i) cur) [
        | inl e ↦
            rw (write-other b cur i (b c) ni, write-here b cur (parent i) (b c) e)
              (least i h n e ne)
        | inr nq ↦
            rw (write-other b cur i (b c) ni, write-other b cur (parent i) (b c) nq)
              (hole.apart i h n ni nq)
      ]
    ];
    across = λ i h n e positive.
        let ni : i ≢ cur = omega arith in
        rw (write-other b cur i (b c) ni, write-here b cur (parent c) (b c) up, ← e)
          (hole.apart i h n ni (omega arith));
  }

  -- The value that was in the hole goes down until no child is less.
  down_loop-Sifted :
      (order : IsWeakOrder less) (fuel length : ℕ) (b : ℕ → V) (cur : ℕ) (value : V)
      → HasHole less length b cur
      → (0 < cur → less value (b (parent cur)) ≡ false)
      → cur < length
      → length ≤ cur + fuel
      → Sifted length (write b cur value) (down_loop less fuel b length cur value)
  unfolding down_loop
  down_loop-Sifted order zero length b cur value hole above inside n = absurd (omega arith)
  down_loop-Sifted order (suc fuel) length b cur value hole above inside n =
      at (child_idx less b length cur) (child_idx-Child order b length cur)
        (λ c up deeper below least passes.
          down_loop-Sifted order fuel length (write b cur (b c)) c value
            (HasHole-down length b cur c hole up deeper below least)
            (λ positive. rw (write-here b cur (parent c) (b c) up) passes) below (omega arith))
    where
      stop :
          ((i : ℕ) → 0 < i → i < length → parent i ≡ cur → less (b i) value ≡ false)
          → Sifted length (write b cur value) (some (write b cur value))
      stop below = record {
        after = write b cur value;
        returns = refl;
        is_heap = fill-IsHeap less length b cur value hole above below;
        same_bag = λ test. refl;
        same_rest = λ i h. refl;
      }

      at :
          (c : ℕ)
          → Child b length cur c
          → ((c : ℕ)
              → parent c ≡ cur
              → cur < c
              → c < length
              → ((i : ℕ) → 0 < i → i < length → parent i ≡ cur → i ≢ c → less (b i) (b c) ≡ false)
              → less value (b c) ≡ false
              → Sifted length
                  (write (write b cur (b c)) c value)
                  (down_loop less fuel (write b cur (b c)) length c value))
          → Sifted length (write b cur value) (
              if leb length c || less value (b c)
              then some (write b cur value)
              else down_loop less fuel (write b cur (b c)) length c value)
      at c (no_child h) rest = rw (leb_refl length) (stop λ i p n e. absurd (omega arith))
      at c (least_child d up deeper below least) rest = elim (Bool-cases (less value (b d))) [
        | inl lesser ↦
            let past : leb length d ≡ false = ground arith in
            let kept = order.asymmetric value (b d) lesser in
            rw (past, lesser)
              (stop λ i p n e. elim (same_or_not i d) [
                | inl same ↦ rw (same) kept
                | inr other ↦ order.not_less_trans value (b d) (b i) kept (least i p n e other)
              ])
        | inr passes ↦
            let past : leb length d ≡ false = ground arith in
            let moved = rest d up deeper below least passes in
            rw (past, passes)
              record {
                after = moved.after;
                returns = moved.returns;
                is_heap = moved.is_heap;
                same_bag = λ test.
                    moved.same_bag test
                    ∙ count-move test b cur d value length inside below (omega arith);
                same_rest = λ i h.
                    moved.same_rest i h
                    ∙ write-other (write b cur (b d)) d i value (omega arith)
                    ∙ write-other b cur i (b d) (omega arith)
                    ∙ sym (write-other b cur i value (omega arith));
              }
      ]

  -- ajustHeap of an array that is a heap but for its top makes it a heap of the same values.
  pub ajust_heap-Sifted :
      IsWeakOrder less
      → (length : ℕ) (b : ℕ → V)
      → ((i : ℕ) → 0 < i → i < length → parent i ≢ 0 → less (b i) (b (parent i)) ≡ false)
      → Sifted length b (ajust_heap less b length)
  unfolding ajust_heap
  ajust_heap-Sifted order length b apart = elim (Bool-cases (ltb length 2)) [
    | inl short ↦ rw (short) record {
      after = b;
      returns = refl;
      is_heap = λ i p n. absurd (ground arith);
      same_bag = λ test. refl;
      same_rest = λ i h. refl;
    }
    | inr long ↦
        let inside : 0 < length = ground arith in
        let hole : HasHole less length b 0 = record {
          apart = λ i p n ne np. apart i p n np;
          across = λ i p n e positive. absurd (omega arith);
        } in
        let s =
          down_loop-Sifted order length length b 0 (b 0) hole (λ p. absurd (omega arith)) inside
            (omega arith) in
        rw (long) record {
          after = s.after;
          returns = s.returns;
          is_heap = s.is_heap;
          same_bag = λ test. s.same_bag test ∙ count-refill test b 0 length inside;
          same_rest = λ i h. s.same_rest i h ∙ write-other b 0 i (b 0) (omega arith);
        }
  ]
