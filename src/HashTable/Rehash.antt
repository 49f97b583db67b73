-- ===== src/HashTable/Rehash.antt =====
-- src/base/base_hash.c: rehashNSteps and doRehash.
pub mod Stops
pub mod Keeps
pub mod Moving
pub mod Kept
pub mod Loop
use forfun.Prelude.{
  ℕ, zero, suc, ◌+◌, ◌-◌, ◌*◌, ◌%◌, Bool, true, false, ◌&&◌, ◌||◌, not, Option, none, some, List,
  [], ◌∷◌, if◌then◌else◌, ◌==◌, ltb, leb,
}
use forfun.HashTable.{
  HashKey, WhichBase, HashEntry, HashTable, HeldLocks, rehash_retry, rehash_steps, count_up,
  count_down, same_base, pointed, base, set_entry, set_items_count, can_rehash,
}

-- The local variables of the loop.
pub record RehashLoop : Type 0 where
  pub entry_idx : ℕ
  pub i : ℕ
  pub retry : ℕ

abbrev pub rehash_fuel : ℕ → ℕ
rehash_fuel n = 11 * n + 11

-- The lock on the entry of `d`, which the loop itself can hold.
unfoldable pub insert_entry_locked {ℓ} :
    {K : Type ℓ} → HeldLocks K → WhichBase → WhichBase → ℕ → ℕ → Bool
insert_entry_locked locks c d idx j = locks.head d j || (same_base c d && (idx == j))

module _ {ℓ} {K V : Type ℓ} where
  -- A base without items is left, and the loop with it.
  unfoldable pub rehash_end :
      WhichBase → ℕ → HashTable K V × RehashLoop → HashTable K V × RehashLoop
  rehash_end c n (t, l) =
      if ltb (base t c).items_count 1
      then (record t { current_base = pointed t.rehash_insert_base }, record l { i = suc n })
      else (t, record l { i = suc l.i })

  unfoldable pub rehash_goes_on : WhichBase → ℕ → HashTable K V → RehashLoop → Bool
  rehash_goes_on c n t l = ltb l.entry_idx (base t c).size && ltb l.i n && ltb l.retry rehash_retry

  abbrev pub or_same : HashTable K V → Option (HashTable K V) → HashTable K V
  or_same t none = t
  or_same t (some u) = u

module _ {ℓ} {K V : Type ℓ} (key : HashKey K) where
  -- The node at the head of an entry of `c` becomes the head of its entry of `d`.
  unfoldable pub move_node :
      WhichBase → WhichBase → HashTable K V → ℕ → K × V → List (K × V) → HashTable K V
  move_node c d t idx node rest =
      let j = key.hash node.0 % (base t d).size in
      let removed =
        set_entry t c idx (record {
          items = rest;
          list_length = count_down ((base t c).entries idx).list_length;
        }) in
      let e = (base removed d).entries j in
      let inserted =
        set_entry removed d j
          (record { items = node ∷ e.items; list_length = count_up e.list_length }) in
      set_items_count inserted c (count_down (base inserted c).items_count)

module _ {ℓ} {K V : Type ℓ} (key : HashKey K) (locks : HeldLocks K) where
  -- What is done under the locks of the entry and of the base.
  unfoldable pub rehash_entry :
      WhichBase → WhichBase → HashTable K V → RehashLoop → List (K × V) → HashTable K V × RehashLoop
  rehash_entry c d t l [] =
      let pos = if leb (base t c).size (suc t.rehash_pos) then 0 else suc t.rehash_pos in
      (record t { rehash_pos = pos }, record l { entry_idx = pos })
  rehash_entry c d t l (node ∷ rest) =
      if locks.node node.0
      then (t, record l { retry = suc l.retry })
      else (if insert_entry_locked locks c d l.entry_idx (key.hash node.0 % (base t d).size)
          then (t, l)
          else (move_node key c d t l.entry_idx node rest, record l { retry = 0 }))

  unfoldable pub rehash_step :
      WhichBase → WhichBase → ℕ → HashTable K V → RehashLoop → HashTable K V × RehashLoop
  rehash_step c d n t l =
      if locks.head c l.entry_idx || locks.update c
      then (t, record l { retry = suc l.retry })
      else rehash_end c n (rehash_entry c d t l ((base t c).entries l.entry_idx).items)

  -- `none` is a loop that has not ended when the fuel is used up.
  unfoldable pub rehash_loop :
      WhichBase → WhichBase → ℕ → ℕ → HashTable K V → RehashLoop → Option (HashTable K V)
  rehash_loop c d n zero t l = none
  rehash_loop c d n (suc fuel) t l =
      let next = rehash_step c d n t l in
      let rest = rehash_loop c d n fuel next.0 next.1 in
      if rehash_goes_on c n t l then rest else some t

  -- The assertion in front of the loop is that there is an entry at `rehash_pos`.
  unfoldable pub rehash_n_steps : HashTable K V → ℕ → Option (HashTable K V)
  rehash_n_steps t n =
      let result =
        rehash_loop t.current_base (pointed t.rehash_insert_base) n (rehash_fuel n) t
          (record { entry_idx = t.rehash_pos; i = 0; retry = 0 }) in
      if ltb t.rehash_pos (base t t.current_base).size
      then result
      else some (record t { aborted = true })

  unfoldable pub do_rehash : HashTable K V → HashTable K V
  do_rehash t =
      if t.is_rehashing && can_rehash t && not locks.rehash
      then or_same t (rehash_n_steps t rehash_steps)
      else t
