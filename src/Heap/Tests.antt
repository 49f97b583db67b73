-- ===== src/Heap/Tests.antt =====
-- Runs of src/base/heap.c on numbers.
use forfun.Prelude.{◌≡◌, ◌≤◌, true, false, none, ◌≢◌, ◌⊎◌, ℕ, zero, suc, refl, some, ltb, arith}
use forfun.Heap.{
  create_heap, heap_length, Heap, add_to_heap, delete_heap_top, replace_heap_top, heap_sort,
}
use forfun.Heap.Order.{IsWeakOrder, IsHeap}
use forfun.Heap.Laws.{IsHeapState, create_heap_cases, Added, add_to_heap-Added}
use forfun.Heap.Sort.{Sorted, heap_sort-Sorted}
use forfun.Heap.Removal.{Removed, Replaced, delete_heap_top-Removed, replace_heap_top-Replaced}

ltb-IsWeakOrder : IsWeakOrder ltb
ltb-IsWeakOrder = record {
  asymmetric = λ a b h. ground arith;
  not_less_trans = λ a b c h k. ground arith;
}

-- The values 2, 5 and 4, in an array of the least size.
abbrev values : ℕ → ℕ
values zero = 2
values (suc zero) = 5
values i = 4

abbrev small_heap : Heap ℕ
small_heap = record { base = values; base_size = 128; base_used_length = 3 }

small-IsHeap : IsHeap ltb 3 values
small-IsHeap zero p n = absurd (omega arith)
small-IsHeap (suc zero) p n = refl
small-IsHeap (suc (suc zero)) p n = refl
small-IsHeap (suc (suc (suc i))) p n = absurd (omega arith)

small-IsHeapState : IsHeapState ltb small_heap
small-IsHeapState = (small-IsHeap, omega arith, omega arith)

abbrev memory : ℕ → ℕ
memory i = 9

add_to_heap-Added_example : Added ltb small_heap 1 (add_to_heap ltb small_heap 1 (some memory))
add_to_heap-Added_example =
    add_to_heap-Added ltb ltb-IsWeakOrder small_heap 1 memory small-IsHeapState

delete_heap_top-Removed_example : Removed ltb small_heap (delete_heap_top ltb small_heap)
delete_heap_top-Removed_example =
    delete_heap_top-Removed ltb ltb-IsWeakOrder small_heap small-IsHeapState (omega arith)

replace_heap_top-Replaced_example : Replaced ltb small_heap 7 (replace_heap_top ltb small_heap 7)
replace_heap_top-Replaced_example =
    replace_heap_top-Replaced ltb ltb-IsWeakOrder small_heap 7 small-IsHeapState (omega arith)

heap_sort-Sorted_example : Sorted ltb small_heap (heap_sort ltb small_heap)
heap_sort-Sorted_example = heap_sort-Sorted ltb ltb-IsWeakOrder small_heap small-IsHeapState

create_heap_cases_test :
    ((h : Heap ℕ) × (create_heap memory true 5 (some memory) ≡ some h)
      × IsHeapState ltb h
      × (heap_length h ≡ 0)
      × (5 ≤ h.base_size)
      × (true ≡ true)
      × (some memory ≢ none))
    ⊎ ((create_heap memory true 5 (some memory) ≡ none) × ((true ≡ false) ⊎ (some memory ≡ none)))
create_heap_cases_test = create_heap_cases ltb memory true 5 (some memory)
