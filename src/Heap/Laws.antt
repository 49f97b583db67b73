-- ===== src/Heap/Laws.antt =====
-- addToHeap, replaceHeapTop and deleteHeapTop keep a heap and its values.
use forfun.Prelude.{
  ◌≢◌, ◌⊎◌, ltb, true, false, none, ℕ, suc, ◌+◌, ◌*◌, ◌/◌, ◌≤◌, ◌<◌, ◌≡◌, refl, ◌∙◌, ap, Bool,
  false, if◌then◌else◌, ltb, leb, Option, some, Bool-cases, inl, inr, arith,
}
use forfun.Heap.{
  create_heap, heap_length, Heap, HeapError, no_error, least_heap_size, write, parent, expand_heap,
  add_to_heap, append_value,
}
use forfun.Heap.Order.{IsWeakOrder, write-here, write-other, IsHeap}
use forfun.Heap.Bag.{one_if, count, count-agree}
use forfun.Heap.Up.{ajust_heap_append-Sifted}

module _ {ℓ} {V : Type ℓ} (less : V → V → Bool) where
  -- A heap within its array, which has at least the least size.
  abbrev pub IsHeapState : Heap V → Type 0
  IsHeapState h =
      IsHeap less h.base_used_length h.base
      × (h.base_used_length ≤ h.base_size)
      × (least_heap_size ≤ h.base_size)

  -- How many of the values meet a test.
  abbrev pub bag : (V → Bool) → Heap V → ℕ
  bag test h = count test h.base h.base_used_length

  pub record Added (h : Heap V) (value : V) (result : Option (HeapError × Heap V)) : Type ℓ where
    pub after : Heap V
    pub returns : result ≡ some (no_error, after)
    pub is_heap : IsHeapState after
    pub one_more : after.base_used_length ≡ suc h.base_used_length
    pub same_bag : (test : V → Bool) → bag test after ≡ bag test h + one_if (test value)

  -- The append to an array with a free place, which holds the values of `h`.
  append_value-Added :
      IsWeakOrder less
      → (h : Heap V) (b : ℕ → V) (size : ℕ) (value : V) → IsHeap less h.base_used_length h.base
      → ((i : ℕ) → i < h.base_used_length → b i ≡ h.base i)
      → h.base_used_length < size
      → least_heap_size ≤ size
      → Added h value (
          append_value less value (
            no_error,
            record { base = b; base_size = size; base_used_length = h.base_used_length },
          ))
  unfolding count
  append_value-Added order h b size value heap same room least =
      let used = h.base_used_length in
      let b' = write b used value in
      let kept : (i : ℕ) → i < used → b' i ≡ h.base i =
        λ i n. write-other b used i value (omega arith) ∙ same i n in
      let heap' : IsHeap less used b' =
        λ i p n. rw (kept i n, kept (parent i) (omega arith)) (heap i p n) in
      let s = ajust_heap_append-Sifted less order used b' heap' in
      rw (append_value, s.returns)
        record {
          after = record { base = s.after; base_size = size; base_used_length = suc used };
          returns = refl;
          is_heap = (s.is_heap, room, least);
          one_more = refl;
          same_bag = λ test.
              s.same_bag test
              ∙ ap (λ n. n + one_if (test (b' used))) (count-agree test b' h.base used kept)
              ∙ ap (λ v. count test h.base used + one_if (test v))
                  (write-here b used used value refl);
        }

  -- For a comparison that is a weak order, addToHeap to a heap, given memory, reports no error and adds
  -- the value to those of the heap: afterwards the array is a heap again, with one value more and all
  -- the others.
  pub add_to_heap-Added :
      IsWeakOrder less
      → (h : Heap V) (value : V) (memory : ℕ → V) → IsHeapState h
      → Added h value (add_to_heap less h value (some memory))
  unfolding add_to_heap expand_heap
  add_to_heap-Added order h value memory (heap, fits, least) =
      elim (Bool-cases (leb h.base_size h.base_used_length)) [
        | inr room ↦ rw (room) (
            append_value-Added order h h.base h.base_size value heap (λ i n. refl) (ground arith)
              least)
        | inl full ↦
            let grows : ltb (h.base_size * 11 / 10) h.base_size ≡ false = ground arith in
            let copy : (i : ℕ)
                → i < h.base_used_length
                → (if ltb i h.base_used_length then h.base i else memory i) ≡ h.base i =
              λ i n. ground arith in
            rw (full, expand_heap, grows)
              (append_value-Added order h
                (λ i. if ltb i h.base_used_length then h.base i else memory i)
                (h.base_size * 11 / 10) value heap copy (ground arith) (omega arith))
      ]

  -- createHeap, given memory, returns an empty heap with room for the capacity asked for, and for the
  -- least one; without memory for the heap or its array it returns NULL.
  pub create_heap_cases :
      (null : ℕ → V) (allocated : Bool) (capacity : ℕ) (memory : Option (ℕ → V))
      → ((h : Heap V) × (create_heap null allocated capacity memory ≡ some h)
          × IsHeapState h
          × (heap_length h ≡ 0)
          × (capacity ≤ h.base_size)
          × (allocated ≡ true)
          × (memory ≢ none))
        ⊎ ((create_heap null allocated capacity memory ≡ none)
            × ((allocated ≡ false) ⊎ (memory ≡ none)))
  unfolding create_heap expand_heap heap_length
  create_heap_cases null false capacity memory = inr (refl, inl refl)
  create_heap_cases null true capacity none =
      let grows : ltb (if ltb capacity 128 then 128 else capacity) 0 ≡ false = ground arith in
      inr (rw (grows) refl, inr refl)
  create_heap_cases null true capacity (some m) =
      let grows : ltb (if ltb capacity 128 then 128 else capacity) 0 ≡ false = ground arith in
      inl (
        record {
          base = λ i. if ltb i 0 then null i else m i;
          base_size = if ltb capacity 128 then 128 else capacity;
          base_used_length = 0;
        },
        rw (grows) refl,
        ((λ i p n. absurd (omega arith)), omega arith, ground arith),
        refl,
        ground arith,
        refl,
        λ e. cc,
      )
