-- ===== src/HashTable/Rehash/Loop.antt =====
-- src/base/base_hash.c: the loop of rehashNSteps, and doRehash.
use forfun.Prelude.{
  ltb, ℕ, zero, suc, ◌≤◌, ◌<◌, ◌≡◌, refl, sym, ap, ◌∙◌, Bool, true, false, ◌&&◌, not, if◌then◌else◌,
  Bool-cases, Option, some, inl, inr, ◌⊎◌, subst, arith,
}
use forfun.HashTable.{
  HashKey, WhichBase, HashTable, HeldLocks, pointed, base, rehash_steps, can_rehash,
}
use forfun.HashTable.Invariant.{IsTable}
use forfun.HashTable.Rehash.{
  RehashLoop, rehash_step, rehash_goes_on, rehash_loop, rehash_fuel, rehash_n_steps, do_rehash,
}
use forfun.HashTable.Rehash.Moving.{Keeps}
use forfun.HashTable.Rehash.Kept.{Keeps-refl, Keeps-trans, StepKeeps, rehash_step-Keeps}
use forfun.HashTable.Rehash.Stops.{rehash_loop-returns}

-- Which branch of a conditional gave the result.
picked {ℓ} :
    {A : Type ℓ} (b : Bool) (rest : Option A) (t u : A)
    → (if b then rest else some t) ≡ some u
    → ((b ≡ true) × (rest ≡ some u)) ⊎ ((b ≡ false) × (t ≡ u))
picked true rest t u h = inl (refl, h)
picked false rest t u h = inr (refl, cc)

-- The current base, while the loop goes on.
going_on {ℓ} :
    {K V : Type ℓ} (c : WhichBase) (n : ℕ) (t : HashTable K V) (l : RehashLoop)
    → (t.current_base ≡ c) ⊎ (n ≤ l.i)
    → rehash_goes_on c n t l ≡ true
    → (t.current_base ≡ c) × (l.entry_idx < (base t c).size)
unfolding rehash_goes_on
going_on c n t l (inl at) go = (at, ground arith)
going_on c n t l (inr ended) go = absurd (ground arith)

module _ {ℓ} {K V : Type ℓ} (key : HashKey K) (locks : HeldLocks K) where
  rehash_loop-Keeps :
      (c d : WhichBase) (n fuel : ℕ) (t u : HashTable K V) (l : RehashLoop)
      → IsTable key t
      → t.is_rehashing ≡ true
      → pointed t.rehash_insert_base ≡ d
      → (t.current_base ≡ c) ⊎ (n ≤ l.i)
      → rehash_loop key locks c d n fuel t l ≡ some u
      → Keeps key t u
  unfolding rehash_loop rehash_goes_on
  rehash_loop-Keeps c d n zero t u l is going e at ends = absurd (cc)
  rehash_loop-Keeps c d n (suc fuel) t u l is going e at ends =
      let next = rehash_step key locks c d n t l in
      elim (picked (rehash_goes_on c n t l) (rehash_loop key locks c d n fuel next.0 next.1) t u
        ends) [
          | inr (stop, same) ↦ subst (Keeps key t) same (Keeps-refl key t is)
          | inl (go, rest) ↦
              let (here, below) = going_on c n t l at go in
              let (kept, still_here) =
                subst (λ b. StepKeeps key locks t (rehash_step key locks c b n t l) n) e
                  (subst
                    (λ b.
                      StepKeeps key locks t
                        (rehash_step key locks b (pointed t.rehash_insert_base) n t l) n)
                    here
                    (rehash_step-Keeps key locks n t l is going
                      (subst (λ b. l.entry_idx < (base t b).size) (sym here) below))) in
              Keeps-trans key t next.0 u kept (
                rehash_loop-Keeps c d n fuel next.0 u next.1 kept.table
                  (kept.same_rehashing ∙ going) (ap pointed kept.same_insert ∙ e)
                  (elim still_here [ inl same ↦ inl (same ∙ here) | inr ended ↦ inr ended ]) rest)
        ]

  -- rehashNSteps of any number of steps, on a well-formed table that is being rehashed and whichever
  -- locks are held, returns without a failed assertion: the fuel of the model is not used up, and the
  -- table is well formed, with the same map and number of nodes.
  pub rehash_n_steps-returns :
      (t : HashTable K V) (n : ℕ)
      → IsTable key t
      → t.is_rehashing ≡ true
      → (u : HashTable K V) × (rehash_n_steps key locks t n ≡ some u)
        × Keeps key t u
        × (u.aborted ≡ false)
  unfolding rehash_n_steps
  rehash_n_steps-returns t n is going =
      let (u, ends) = rehash_loop-returns key locks t n in
      let below = (is.within.going going).0 in
      let test : ltb t.rehash_pos (base t t.current_base).size ≡ true = ground arith in
      let kept =
        rehash_loop-Keeps t.current_base (pointed t.rehash_insert_base) n (rehash_fuel n) t u
          (record { entry_idx = t.rehash_pos; i = 0; retry = 0 }) is going refl (inl refl) ends in
      (u, rw (test) ends, kept, kept.table.within.running)

  -- doRehash, whichever locks are held, fails no assertion on a well-formed table, and leaves it well
  -- formed, with the same map and number of nodes, the same sizes of the bases and base to insert to.
  pub do_rehash-Keeps :
      (t : HashTable K V)
      → IsTable key t
      → Keeps key t (do_rehash key locks t) × ((do_rehash key locks t).aborted ≡ false)
  unfolding do_rehash
  do_rehash-Keeps t is = elim (Bool-cases (t.is_rehashing && can_rehash t && not locks.rehash)) [
    | inr e ↦ rw (e) (Keeps-refl key t is, is.within.running)
    | inl e ↦
        let (u, ends, kept, runs) = rehash_n_steps-returns t rehash_steps is (ground arith) in
        rw (e, ends) (kept, runs)
  ]
