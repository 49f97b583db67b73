-- ===== src/HashTable/Rehash/Stops.antt =====
-- src/base/base_hash.c: the loop of rehashNSteps ends.
use forfun.Prelude.{
  ℕ, zero, suc, ◌+◌, ◌-◌, ◌*◌, ◌<◌, ◌≡◌, refl, true, ◌||◌, Bool-cases, some, List, [], ◌∷◌, inl,
  inr, ◌⊎◌, arith,
}
use forfun.HashTable.{HashKey, WhichBase, HashTable, HeldLocks, rehash_retry, base, pointed}
use forfun.HashTable.Rehash.{
  RehashLoop, rehash_entry, rehash_end, rehash_step, rehash_goes_on, rehash_loop, rehash_fuel,
}

-- More than the iterations that are left: each either counts a step or a retry, and at most ten
-- retries come in a row.
abbrev remaining : ℕ → RehashLoop → ℕ
remaining n l = 11 * (n - l.i) + (rehash_retry - l.retry)

module _ {ℓ} {K V : Type ℓ} (key : HashKey K) (locks : HeldLocks K) (c d : WhichBase) (n : ℕ) where
  rehash_entry-i :
      (t : HashTable K V) (l : RehashLoop) (m : List (K × V))
      → (rehash_entry key locks c d t l m).1.i ≡ l.i
  unfolding rehash_entry
  rehash_entry-i t l [] = refl
  rehash_entry-i t l (p ∷ m) = ground arith

  rehash_end-i :
      (t : HashTable K V) (l : RehashLoop)
      → ((rehash_end c n (t, l)).1.i ≡ suc n) ⊎ ((rehash_end c n (t, l)).1.i ≡ suc l.i)
  unfolding rehash_end
  rehash_end-i t l = ground arith

  rehash_step-remaining :
      (t : HashTable K V) (l : RehashLoop)
      → l.i < n
      → l.retry < rehash_retry
      → remaining n (rehash_step key locks c d n t l).1 < remaining n l
  unfolding rehash_step
  rehash_step-remaining t l i_lt retry_lt =
      elim (Bool-cases (locks.head c l.entry_idx || locks.update c)) [
        | inl e ↦ rw (e) (omega arith)
        | inr e ↦
            let m = ((base t c).entries l.entry_idx).items in
            let r = rehash_entry key locks c d t l m in
            let kept = rehash_entry-i t l m in
            rw (e) (elim (rehash_end-i r.0 r.1) [ inl done ↦ omega arith | inr more ↦ omega arith ])
      ]

  rehash_goes_on_lem :
      (t : HashTable K V) (l : RehashLoop)
      → rehash_goes_on c n t l ≡ true
      → (l.i < n) × (l.retry < rehash_retry)
  unfolding rehash_goes_on
  rehash_goes_on_lem t l e = (ground arith, ground arith)

  rehash_loop-stops :
      (fuel : ℕ) (t : HashTable K V) (l : RehashLoop)
      → remaining n l < fuel
      → (u : HashTable K V) × (rehash_loop key locks c d n fuel t l ≡ some u)
  unfolding rehash_loop
  rehash_loop-stops zero t l h = absurd (omega arith)
  rehash_loop-stops (suc fuel) t l h = elim (Bool-cases (rehash_goes_on c n t l)) [
    | inr e ↦ (t, rw (e) refl)
    | inl e ↦
        let next = rehash_step key locks c d n t l in
        let less =
          rehash_step-remaining t l (rehash_goes_on_lem t l e).0 (rehash_goes_on_lem t l e).1 in
        let (u, ends) = rehash_loop-stops fuel next.0 next.1 (omega arith) in (u, rw (e) ends)
  ]

-- The loop of rehashNSteps ends within its fuel, on any table.
pub rehash_loop-returns {ℓ} :
    {K V : Type ℓ} (key : HashKey K) (locks : HeldLocks K) (t : HashTable K V) (n : ℕ)
    → (u : HashTable K V) × (rehash_loop key locks t.current_base
          (pointed t.rehash_insert_base)
          n
          (rehash_fuel n)
          t
          (record { entry_idx = t.rehash_pos; i = 0; retry = 0 })
        ≡ some u)
rehash_loop-returns key locks t n =
    rehash_loop-stops key locks t.current_base (pointed t.rehash_insert_base) n (rehash_fuel n) t
      (record { entry_idx = t.rehash_pos; i = 0; retry = 0 }) (omega arith)
