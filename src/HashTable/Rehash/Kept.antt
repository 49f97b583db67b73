-- ===== src/HashTable/Rehash/Kept.antt =====
-- src/base/base_hash.c: rehashNSteps and doRehash leave the table well formed, with the same map.
use forfun.Prelude.{
  ℕ, suc, true_and_false, if◌then◌else◌, leb, ◌+◌, ◌%◌, ◌≤◌, ◌<◌, ◌≡◌, refl, sym, ap, ◌∙◌, Bool,
  true, false, ◌||◌, Bool-cases, some, List, [], ◌∷◌, ==_refl, ltb, inl, inr, ◌⊎◌, subst, arith,
  or_else,
}
use forfun.HashTable.{
  HashKey, WhichBase, first, second, HashTable, HeldLocks, other, pointed, base, first_found,
}
use forfun.HashTable.Contents.{
  nodes, lookup, count, Placed, home_items, contents, count-zero-lookup,
}
use forfun.HashTable.Invariant.{
  IsTable, IsWithin, IsCounted, still, moving, moved, IsEmptyBase, contents-moving, contents-moved,
  IsCounted-IsEmptyBase, moved-IsTable, IsApart,
}
use forfun.HashTable.Rehash.{RehashLoop, insert_entry_locked, rehash_entry, rehash_end, rehash_step}
use forfun.HashTable.Rehash.Keeps.{same_base_refl}
use forfun.HashTable.Rehash.Moving.{Keeps, move_node-current, move_node-Keeps}

next_pos : (size pos : ℕ) → 0 < size → (if leb size (suc pos) then 0 else suc pos) < size
next_pos size pos sized = ground arith

or_true : (b : Bool) → (b || true) ≡ true
or_true true = refl
or_true false = refl

pub other_twice : (c : WhichBase) → other (other c) ≡ c
other_twice first = refl
other_twice second = refl

module _ {ℓ} {K V : Type ℓ} (key : HashKey K) where
  pub Keeps-refl : (t : HashTable K V) → IsTable key t → Keeps key t t
  Keeps-refl t is = record {
    table = is;
    same_contents = λ q. refl;
    same_rehashing = refl;
    same_insert = refl;
    same_size = λ b. refl;
    same_nodes = refl;
  }

  pub Keeps-trans : (t u w : HashTable K V) → Keeps key t u → Keeps key u w → Keeps key t w
  Keeps-trans t u w a b = record {
    table = b.table;
    same_contents = λ q. b.same_contents q ∙ a.same_contents q;
    same_rehashing = b.same_rehashing ∙ a.same_rehashing;
    same_insert = b.same_insert ∙ a.same_insert;
    same_size = λ c. b.same_size c ∙ a.same_size c;
    same_nodes = b.same_nodes ∙ a.same_nodes;
  }

  rehash_pos-IsTable :
      (t : HashTable K V) (pos : ℕ)
      → pos < (base t t.current_base).size
      → IsTable key t
      → IsTable key (record t { rehash_pos = pos })
  unfolding home_items base
  rehash_pos-IsTable t pos below is = record {
    within = record {
      running = is.within.running;
      resting = is.within.resting;
      going = λ h. (below, (is.within.going h).1);
    };
    sized = is.sized;
    placed = is.placed;
    apart = is.apart;
    phase = elim is.phase [
      | still a b c ↦ still a b c
      | moving a b c d ↦ moving a b c d
      | moved a b c ↦ moved a b c
    ];
  }

  rehash_pos-Keeps :
      (t : HashTable K V) (pos : ℕ)
      → pos < (base t t.current_base).size
      → IsTable key t
      → Keeps key t (record t { rehash_pos = pos })
  unfolding contents first_found home_items base nodes
  rehash_pos-Keeps t pos below is = record {
    table = rehash_pos-IsTable t pos below is;
    same_contents = λ q. refl;
    same_rehashing = refl;
    same_insert = refl;
    same_size = λ b. refl;
    same_nodes = refl;
  }

  swapped-IsEmptyBase :
      (t : HashTable K V)
      → IsEmptyBase key t t.current_base
      → IsEmptyBase key t (other (other t.current_base))
  swapped-IsEmptyBase t empty = subst (IsEmptyBase key t) (sym (other_twice t.current_base)) empty

  swapped-IsApart : (t : HashTable K V) → IsTable key t → IsApart key t (other t.current_base)
  swapped-IsApart t is q =
      let c = t.current_base in
      let apart = is.apart q in
      subst
        (λ b. count key q (home_items key t (other c) q) + count key q (home_items key t b q) ≤ 1)
        (sym (other_twice c)) (omega arith)

  only_other :
      (t : HashTable K V) (q : K)
      → count key q (home_items key t t.current_base q) ≡ 0
      → lookup key q (home_items key t (other t.current_base) q)
        ≡ or_else
            (lookup key q (home_items key t t.current_base q))
            (lookup key q (home_items key t (other t.current_base) q))
  unfolding or_else
  only_other t q empty = rw (count-zero-lookup key q (home_items key t t.current_base q) empty) refl

  switch-IsWithin :
      (t : HashTable K V)
      → IsTable key t
      → t.is_rehashing ≡ true
      → t.rehash_insert_base ≡ some (other t.current_base)
      → IsWithin key (record t { current_base = other t.current_base })
  unfolding base
  switch-IsWithin t is h e = record {
    running = is.within.running;
    resting = λ resting. absurd (true_and_false t.is_rehashing h resting);
    going = λ _.
        let (below, roomy) = is.within.going h in
        let roomy_other : (base t t.current_base).size ≤ (base t (other t.current_base)).size =
          subst (λ b. (base t t.current_base).size ≤ (base t (pointed b)).size) e roomy in
        let pos_below : t.rehash_pos < (base t (other t.current_base)).size = omega arith in
        (
          pos_below,
          subst (λ b. (base t (other t.current_base)).size ≤ (base t (pointed b)).size) (sym e)
              (omega arith),
        );
  }

  -- The current base is empty, and the other takes its place.
  switch-Keeps :
      (t : HashTable K V)
      → IsTable key t
      → t.is_rehashing ≡ true
      → t.rehash_insert_base ≡ some (other t.current_base)
      → 0 < (base t (other t.current_base)).size
      → IsEmptyBase key t t.current_base
      → Keeps key t (record t { current_base = other t.current_base })
  unfolding home_items base or_else nodes
  switch-Keeps t is going e sized_other empty =
      let c = t.current_base in
      let u : HashTable K V = record t { current_base = other c } in
      record {
        table =
            moved-IsTable key u (other c) refl (switch-IsWithin t is going e) sized_other is.placed
              (swapped-IsApart t is) going e (swapped-IsEmptyBase t empty);
        same_contents = λ q.
            contents-moved key u (other c) refl q going e
            ∙ only_other t q (empty q)
            ∙ sym (contents-moving key t c refl q going e);
        same_rehashing = refl;
        same_insert = refl;
        same_size = λ b. refl;
        same_nodes = refl;
      }

  rehash_end-Keeps :
      (n : ℕ) (t : HashTable K V) (l : RehashLoop)
      → IsTable key t
      → t.is_rehashing ≡ true
      → Keeps key t (rehash_end t.current_base n (t, l)).0
        × (((rehash_end t.current_base n (t, l)).0.current_base ≡ t.current_base)
            ⊎ (n ≤ (rehash_end t.current_base n (t, l)).1.i))
  unfolding rehash_end
  rehash_end-Keeps n t l is going =
      let few = ltb (base t t.current_base).items_count 1 in
      elim (Bool-cases few) [
        | inr more ↦ rw (more) (Keeps-refl t is, inl refl)
        | inl none_left ↦ rw (none_left) (
          elim is.phase [
            | still stopped _ _ ↦ absurd (cc)
            | moved _ e _ ↦
                subst (λ b. Keeps key t (record t { current_base = b })) (sym (ap pointed e))
                  (Keeps-refl t is)
            | moving _ e sized counted ↦
                subst (λ b. Keeps key t (record t { current_base = b })) (sym (ap pointed e))
                  (switch-Keeps t is going e sized
                    (IsCounted-IsEmptyBase key t t.current_base is.sized counted (ground arith)))
          ],
          inr (omega arith),
        )
      ]

  module _ (locks : HeldLocks K) where
    abbrev EntryKeeps : HashTable K V → RehashLoop → List (K × V) → WhichBase → Type ℓ
    EntryKeeps t l m d =
        let r = rehash_entry key locks t.current_base d t l m in
        Keeps key t r.0 × (r.0.current_base ≡ t.current_base)

    module _ (t : HashTable K V) (l : RehashLoop) (node : K × V) (rest : List (K × V))
        (at : ((base t t.current_base).entries l.entry_idx).items ≡ node ∷ rest)
        (is : IsTable key t) where
      into_other :
          t.is_rehashing ≡ true
          → t.rehash_insert_base ≡ some (other t.current_base)
          → 0 < (base t (other t.current_base)).size
          → IsCounted (base t t.current_base)
          → l.entry_idx < (base t t.current_base).size
          → EntryKeeps t l (node ∷ rest) (other t.current_base)
      unfolding rehash_entry
      into_other going e sized counted below =
          let d = other t.current_base in
          let j = key.hash node.0 % (base t d).size in
          elim (Bool-cases (locks.node node.0)) [
            | inl busy ↦ rw (busy) (Keeps-refl t is, refl)
            | inr free ↦
                elim (Bool-cases (insert_entry_locked locks t.current_base d l.entry_idx j)) [
                  | inl busy ↦ rw (free, busy) (Keeps-refl t is, refl)
                  | inr open_entry ↦
                      rw (free, open_entry)
                        (
                          move_node-Keeps key t l.entry_idx node rest at is going e sized counted
                              below,
                          move_node-current key t l.entry_idx node rest,
                        )
                ]
          ]

      -- The entry is locked by the loop: the node stays.
      locked_by_loop :
          insert_entry_locked locks t.current_base t.current_base l.entry_idx
            (key.hash node.0 % (base t t.current_base).size)
          ≡ true
      unfolding insert_entry_locked
      locked_by_loop =
          let c = t.current_base in
          let here =
            (subst (λ m. Placed key (base t c).size l.entry_idx m) at
              (is.placed c l.entry_idx)).0 in
          rw (here, same_base_refl c, ==_refl l.entry_idx) (or_true _)

      into_itself : EntryKeeps t l (node ∷ rest) t.current_base
      unfolding rehash_entry
      into_itself = elim (Bool-cases (locks.node node.0)) [
        | inl busy ↦ rw (busy) (Keeps-refl t is, refl)
        | inr free ↦ rw (free, locked_by_loop) (Keeps-refl t is, refl)
      ]

    rehash_entry-Keeps :
        (t : HashTable K V) (l : RehashLoop) (m : List (K × V))
        → IsTable key t
        → t.is_rehashing ≡ true
        → ((base t t.current_base).entries l.entry_idx).items ≡ m
        → l.entry_idx < (base t t.current_base).size
        → EntryKeeps t l m (pointed t.rehash_insert_base)
    unfolding rehash_entry
    rehash_entry-Keeps t l [] is going at below =
        let sized = is.sized in
        let next_below = next_pos (base t t.current_base).size t.rehash_pos sized in
        (rehash_pos-Keeps t _ next_below is, refl)
    rehash_entry-Keeps t l (node ∷ rest) is going at below = elim is.phase [
      | still stopped _ _ ↦ absurd (cc)
      | moved _ e _ ↦
          subst (EntryKeeps t l (node ∷ rest)) (sym (ap pointed e))
            (into_itself t l node rest at is)
      | moving _ e sized counted ↦
          subst (EntryKeeps t l (node ∷ rest)) (sym (ap pointed e))
            (into_other t l node rest at is going e sized counted below)
    ]

    -- An iteration. The current base can change in the last one only.
    abbrev pub StepKeeps : HashTable K V → HashTable K V × RehashLoop → ℕ → Type ℓ
    StepKeeps t r n = Keeps key t r.0 × ((r.0.current_base ≡ t.current_base) ⊎ (n ≤ r.1.i))

    pub rehash_step-Keeps :
        (n : ℕ) (t : HashTable K V) (l : RehashLoop)
        → IsTable key t
        → t.is_rehashing ≡ true
        → l.entry_idx < (base t t.current_base).size
        → StepKeeps t (rehash_step key locks t.current_base (pointed t.rehash_insert_base) n t l) n
    unfolding rehash_step
    rehash_step-Keeps n t l is going below =
        let c = t.current_base in
        let m = ((base t c).entries l.entry_idx).items in
        let r = rehash_entry key locks c (pointed t.rehash_insert_base) t l m in
        let (kept, same) = rehash_entry-Keeps t l m is going refl below in
        elim (Bool-cases (locks.head c l.entry_idx || locks.update c)) [
          | inl e ↦ rw (e) (Keeps-refl t is, inl refl)
          | inr e ↦ rw (e) (
              subst (λ b. StepKeeps t (rehash_end b n r) n) same
                (StepKeeps-trans t r.0 (rehash_end r.0.current_base n r) n kept same
                  (rehash_end-Keeps n r.0 r.1 kept.table (kept.same_rehashing ∙ going))))
        ]
      where
        StepKeeps-trans :
            (t u : HashTable K V) (r : HashTable K V × RehashLoop) (n : ℕ)
            → Keeps key t u
            → u.current_base ≡ t.current_base
            → StepKeeps u r n
            → StepKeeps t r n
        StepKeeps-trans t u r n k same (kept, inl at) =
            (Keeps-trans t u r.0 k kept, inl (at ∙ same))
        StepKeeps-trans t u r n k same (kept, inr ends) = (Keeps-trans t u r.0 k kept, inr ends)
