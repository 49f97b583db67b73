-- ===== src/Lib.antt =====
-- A verification of forfun: the data structures and codes under src/base that the storage engine of
-- the repository is built from, its read-write lock and its slotted pages.
--
-- The program's parts. src/base holds containers and codes: a left-leaning red-black tree (rbtree.c),
-- a double-ended queue of linked units (base_dequeue.c) with the queue and the stack on top of it
-- (queue.c, stack.c), a heap (heap.c), byte strings (base_string.c), a hash table (base_hash.c) and the
-- codes base 64, 32 and 16 (base_coding.c). src/port holds locks, threads, files and a resource queue,
-- src/common errors, ids and alignment, src/storage pages, volumes and files. The containers of
-- src/base are what the other parts call; the red-black tree itself frees its nodes by way of a queue.
--
-- The files, and the code that they model.
-- - Prelude: tests on numbers, lists with native indices, and the laws of the bits that a byte is
--   split in.
-- - Comparator: the comparison functions that a tree or a table is created with, and their laws.
-- - Coding: src/base/base_coding.c. Coding/Base16, Coding/Base32 and Coding/Base64 hold base16_encode,
--   base16_decode and so on, each as the loop over the source and the call that allocates the buffer
--   (`finish`, with the bytes that follow the terminator). The macro GET_BASE_CODE is `get_base_code`.
--   The lookups get_base16_base, get_base32_base and get_base64_base are getBase16Base and so on. The
--   pointer base_alloc is a parameter: all that is asked of it is that a block has the size asked for.
-- - RbTree: src/base/rbtree.c. `search_rb_tree`, `insert_rb_node` and `insert_into_rb_tree` are
--   searchRBTree, insertRBNode and insertIntoRBTree; the variant under USE_234_TREE, which the
--   repository does not define, is left out. RbTree/Remove holds deleteRBNode, deleteMin,
--   moveRedLeft, moveRedRight, fixUp and removeFromRBTree. An assertion that fails is a result of its
--   own.
-- - DeQueue: src/base/base_dequeue.c. A queue is the list of its units, the list of its free units and
--   the capacity of a unit. `dequeue_push`, `dequeue_pop`, `dequeue_push_front`, `dequeue_pop_front` and
--   `is_dequeue_empty` are deQueuePush and so on, `expand_dequeue` is expandDeQueue.
-- - Queue and Stack: src/base/queue.c and src/base/stack.c, which call it: `en_queue`, `de_queue`,
--   `push_into_stack` and `pop_out_from_stack` are enQueue, deQueue, pushIntoStack and popOutFromStack.
-- - Heap: src/base/heap.c. The array is a function from its indices; `ajust_heap` and
--   `ajust_heap_append` are ajustHeap and ajustHeapAppend, each with its loop; `add_to_heap`,
--   `replace_heap_top`, `delete_heap_top` and `heap_sort` are addToHeap, replaceHeapTop, deleteHeapTop
--   and heapSort. The growth by 1.1 is `* 11 / 10`, and an index is not negative.
-- - BaseString: src/base/base_string.c. The bytes are a function from their indices; `init_string`,
--   `alloc_string`, `clone_string`, `copy_string`, `append_byte`, `append_bytes` and `reset_string` are
--   initString and so on. The pointer string_alloc is a parameter: a call takes the block it returned.
--
-- - HashTable: src/base/base_hash.c. A table has its two bases, the choice of the current one and of
--   the one that a rehash inserts to. HashTable/Rehash holds rehashNSteps as the loop over
--   `rehash_step`, and doRehash; HashTable/Operations findAndDo, findInHashTable, updateHashTable,
--   removeFromHashTable and insertToHashTable; HashTable/Visit mapHashTable and destroyHashTable. The
--   hash and comparison functions are parameters with their laws (`HashKey`). The quotient that starts
--   a rehash is compared as a fraction. An assertion that fails is recorded in the field `aborted`, which
--   the code does not have. The tables that the theorems speak of (`IsTable`) have not aborted, and keep
--   the position of a rehash within the base: that holds for createHashTable of at most 2048 entries, and
--   for more it can fail.
--
-- - RwLock: the read-write lock of src/port/atomic.c. What a function does while it holds the spin lock
--   is a section, `read_section`, `promote_section` and so on; lock_rwlock and promote_rlock_to_wlock
--   are one turn of their loops (`lock_rwlock_turn`, `promote_turn`), and try_lock_rwlock,
--   unlock_rwlock, try_promote_rlock_to_wlock and try_demote_wlock_to_rlock whole. RwLock/Threads has
--   the threads that use one lock: a step is a section, and the test in front of it, which reads without
--   the spin lock, puts no condition on the step.
-- - SlotPage: src/storage/slot_page.c. A page is its bytes by their offset; words of 64 bits are written
--   with the highest byte first. `get_slot`, `set_slot`, `get_slot_page_record`, `set_slot_page_record`,
--   `append_slot_page_record`, `alloc_slot`, `set_slot_type` and `delete_slot` are getSlot and so on.
--   appendSlotPageRecord is modelled with getSlotPageHeader of the page, which it means, and allocSlot
--   with a size that it may assign to.
--
-- How the proofs go. A tree is compared with the sorted list of its pairs (RbTree/SortedList), which
-- carries the map; the balance is an invariant by colours and heights. A queue is compared with the
-- list of the values between the indices of its units. A heap is compared with the bag of its values,
-- and its order holds but for a hole while a value is sifted. A code is compared with the bytes it came
-- from. The fields of a lock count the threads that hold it, by induction on their steps.
--
-- Bounds and fuel. A byte is a number below 256, and each shift is cut back to a byte as the code does
-- it. The indices of a queue are bounded by the capacity of a unit. deleteRBNode and deleteMin change
-- a node before they descend, so they run on fuel; the number of nodes of the tree is enough.
-- The rehash runs on fuel too: eleven times the number of steps and eleven more are enough.
-- The loops of the heap run on fuel as well, with the length of the heap, which is enough.
--
-- Not modelled. The locks of the queue: each operation holds the lock throughout, so the model has
-- one step for it. The allocation of tree nodes from blocks and their release. The frees, which have
-- no result. The count of references of a string and its streams. The locks of the items
-- of the hash table, and other threads between two reads of one call. The spin lock of
-- src/port/atomic.c, whose sections are steps. formatRawPage of
-- src/storage/slot_page.c, which does not compile. The remaining parts: src/port but for atomic.c,
-- src/common, and src/storage but for slot_page.c. src/base/b64.c and the .cpp files are programs of other libraries.
pub mod Prelude
pub mod Comparator
pub mod Coding
pub mod RbTree
pub mod DeQueue
pub mod HashTable
pub mod Heap
pub mod BaseString
pub mod SlotPage
pub mod RwLock
pub mod Queue
pub mod Stack
