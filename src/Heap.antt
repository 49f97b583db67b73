-- ===== src/Heap.antt =====
-- src/base/heap.c: a binary heap in an array.
--
-- The array is what stands at each index; `write` changes one place. `less a b` is the test
-- cmp_func_p(a, b) < 0. The loops run on fuel, and `none` is its end.
pub mod Order
pub mod Down
pub mod Up
pub mod Bag
pub mod Laws
pub mod Removal
pub mod Reversal
pub mod Sort
mod Tests
use forfun.Prelude.{
  ℕ, zero, suc, ◌+◌, ◌-◌, ◌*◌, ◌/◌, Bool, true, false, if◌then◌else◌, ◌&&◌, ◌||◌, Option, none,
  some, ltb, leb, ◌==◌,
}

-- The error codes that the file returns.
pub data HeapError : Type 0 where
  no_error : HeapError
  out_of_virtual_memory : HeapError
  index_out_of_range : HeapError

pub record Heap {ℓ} (V : Type ℓ) : Type ℓ where
  pub base : ℕ → V
  pub base_size : ℕ
  pub base_used_length : ℕ

abbrev pub least_heap_size : ℕ
least_heap_size = 128

abbrev pub parent : ℕ → ℕ
parent i = (i - 1) / 2

module _ {ℓ} {V : Type ℓ} where
  abbrev pub write : (ℕ → V) → ℕ → V → ℕ → V
  write b i v j = if j == i then v else b j

  -- expandHeap; `memory` is what malloc returned, `none` for NULL.
  unfoldable pub expand_heap : Heap V → ℕ → Option (ℕ → V) → HeapError × Heap V
  expand_heap h size memory = if ltb size h.base_size then (no_error, h) else elim memory [
    | none ↦ (out_of_virtual_memory, h)
    | some m ↦ (
      no_error,
      record {
        base = λ i. if ltb i h.base_used_length then h.base i else m i;
        base_size = size;
        base_used_length = h.base_used_length;
      },
    )
  ]

  abbrev pub with_base : Heap V → (ℕ → V) → ℕ → Heap V
  with_base h b used = record { base = b; base_size = h.base_size; base_used_length = used }

  -- initHeap; `null` stands for what NULL points to, which nothing reads.
  abbrev pub init_heap : (ℕ → V) → Heap V
  init_heap null = record { base = null; base_size = 0; base_used_length = 0 }

  -- The end of createHeap: `none` is NULL.
  abbrev pub created : ℕ → HeapError × Heap V → Option (Heap V)
  created capacity (no_error, h) =
      some record { base = h.base; base_size = capacity; base_used_length = h.base_used_length }
  created capacity (e, h) = none

  unfoldable pub create_heap : (ℕ → V) → Bool → ℕ → Option (ℕ → V) → Option (Heap V)
  unfolding expand_heap
  create_heap null allocated capacity memory =
      let size = if ltb capacity least_heap_size then least_heap_size else capacity in
      if allocated then created size (expand_heap (init_heap null) size memory) else none

  unfoldable pub heap_length : Heap V → ℕ
  heap_length h = h.base_used_length

  unfoldable pub is_heap_empty : Heap V → Bool
  is_heap_empty h = ltb h.base_used_length 1

  -- The value at an index that is not negative.
  unfoldable pub heap_value : Heap V → ℕ → HeapError × Option V
  heap_value h idx =
      if leb h.base_used_length idx
      then (index_out_of_range, none)
      else (no_error, some (h.base idx))

  unfoldable pub get_heap_top : Heap V → HeapError × Option V
  unfolding heap_value
  get_heap_top h = heap_value h 0

  -- The exchange of two values in heapSort.
  abbrev pub swap : (ℕ → V) → ℕ → ℕ → ℕ → V
  swap b i j = write (write b i (b j)) j (b i)

  -- The second loop of heapSort; the fuel bounds the number of its turns.
  unfoldable pub reverse_loop : ℕ → (ℕ → V) → ℕ → ℕ → Option (ℕ → V)
  reverse_loop zero b i end = none
  reverse_loop (suc fuel) b i end =
      let rest = reverse_loop fuel (swap b i end) (suc i) (end - 1) in
      if ltb i end then rest else some b

module _ {ℓ} {V : Type ℓ} (less : V → V → Bool) where
  -- The child that ajustHeap compares with, or `length` when there is none.
  unfoldable pub child_idx : (ℕ → V) → ℕ → ℕ → ℕ
  child_idx b length cur =
      if ltb (2 * cur + 1) length
      then (if ltb (2 * cur + 2) length && less (b (2 * cur + 2)) (b (2 * cur + 1))
          then 2 * cur + 2
          else 2 * cur + 1)
      else length

  -- The loop of ajustHeap and the write behind it.
  unfoldable pub down_loop : ℕ → (ℕ → V) → ℕ → ℕ → V → Option (ℕ → V)
  down_loop zero b length cur value = none
  down_loop (suc fuel) b length cur value =
      let child = child_idx b length cur in
      let rest = down_loop fuel (write b cur (b child)) length child value in
      if leb length child || less value (b child) then some (write b cur value) else rest

  unfoldable pub ajust_heap : (ℕ → V) → ℕ → Option (ℕ → V)
  ajust_heap b length = if ltb length 2 then some b else down_loop length b length 0 (b 0)

  -- The loop of ajustHeapAppend and the write behind it; the parent of index 0 is -1 in the code.
  unfoldable pub up_loop : ℕ → (ℕ → V) → ℕ → V → Option (ℕ → V)
  up_loop zero b cur value = none
  up_loop (suc fuel) b cur value =
      let rest = up_loop fuel (write b cur (b (parent cur))) (parent cur) value in
      if cur == 0 || less (b (parent cur)) value then some (write b cur value) else rest

  unfoldable pub ajust_heap_append : (ℕ → V) → ℕ → Option (ℕ → V)
  ajust_heap_append b used = if ltb used 2 then some b else up_loop used b (used - 1) (b (used - 1))

  -- What follows the growth of the array in addToHeap, unless that failed.
  abbrev pub append_value : V → HeapError × Heap V → Option (HeapError × Heap V)
  append_value value (no_error, h) =
      let used = h.base_used_length in
      elim (ajust_heap_append (write h.base used value) (suc used)) [
        | none ↦ none
        | some b ↦ some (no_error, with_base h b (suc used))
      ]
  append_value value (e, h) = some (e, h)

  unfoldable pub add_to_heap : Heap V → V → Option (ℕ → V) → Option (HeapError × Heap V)
  add_to_heap h value memory = append_value value (
      if leb h.base_size h.base_used_length
      then expand_heap h (h.base_size * 11 / 10) memory
      else (no_error, h))

  unfoldable pub replace_heap_top : Heap V → V → Option (Heap V)
  replace_heap_top h value =
      let used = if ltb h.base_used_length 1 then 1 else h.base_used_length in
      elim (ajust_heap (write h.base 0 value) used) [
        | none ↦ none
        | some b ↦ some (with_base h b used)
      ]

  -- The error, the value at the top, and the heap.
  unfoldable pub delete_heap_top : Heap V → Option (HeapError × Option V × Heap V)
  delete_heap_top h =
      if ltb h.base_used_length 1
      then some (index_out_of_range, none, h)
      else (let used = h.base_used_length - 1 in
          let b = if ltb 1 h.base_used_length then write h.base 0 (h.base used) else h.base in
          if ltb 1 used
          then elim (ajust_heap b used) [
            | none ↦ none
            | some b' ↦ some (no_error, some (h.base 0), with_base h b' used)
          ]
          else some (no_error, some (h.base 0), with_base h b used))

  -- The first loop of heapSort; the argument is end_i + 1.
  unfoldable pub sort_loop : ℕ → (ℕ → V) → Option (ℕ → V)
  sort_loop zero b = some b
  sort_loop (suc end) b = elim (ajust_heap (swap b 0 end) end) [
    | none ↦ none
    | some b' ↦ sort_loop end b'
  ]

  unfoldable pub heap_sort : Heap V → Option (Heap V)
  heap_sort h =
      let used = h.base_used_length in
      if ltb used 2 then some h else elim (sort_loop used h.base) [
        | none ↦ none
        | some b ↦ elim (reverse_loop used b 0 (used - 1)) [
          | none ↦ none
          | some b' ↦ some (with_base h b' used)
        ]
      ]
