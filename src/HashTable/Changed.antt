-- ===== src/HashTable/Changed.antt =====
-- src/base/base_hash.c: a change of the key's entry in a base that is in use keeps the table well
-- formed and changes its map at the key only.
use forfun.Prelude.{◌+◌, ◌≤◌, ◌<◌, ◌≡◌, sym, ap, ◌∙◌, true, Option, some, List, subst, arith}
use forfun.HashTable.{HashKey, WhichBase, first, second, HashTable, other, base, pointed}
use forfun.HashTable.Operations.{home}
use forfun.HashTable.Contents.{count, home_items, contents}
use forfun.HashTable.Invariant.{
  IsTable, IsWithin, IsWithin-same, IsCounted, IsEmptyBase, IsApart, IsPlaced, still, moving, moved,
  contents-still, contents-moving, contents-moved, still-IsTable, moving-IsTable, moved-IsTable,
}
use forfun.HashTable.Rehash.Kept.{other_twice}
use forfun.HashTable.Change.{
  changed, InUse, current, target, EntryChanged, ListChanged, same-home, changed-Placed,
  changed-lookup, changed-IsApart, either_order,
}

pub other-ne : (c : WhichBase) → other c ≡ c → ⊥
other-ne first e = cc
other-ne second e = cc

swap-IsApart {ℓ} :
    {K V : Type ℓ} (key : HashKey K) (w : HashTable K V) (b : WhichBase)
    → IsApart key w b
    → IsApart key w (other b)
swap-IsApart key w b apart q =
    let one = apart q in
    subst (λ c. count key q (home_items key w (other b) q) + count key q (home_items key w c q) ≤ 1)
      (sym (other_twice b)) (omega arith)

module _ {ℓ} {K V : Type ℓ} (key : HashKey K) (t u : HashTable K V) (b : WhichBase) (k : K)
    (ov : Option V) (m : List (K × V)) (entry : EntryChanged key t u b (home key (base t b) k) m)
    (list : ListChanged key k ov (home_items key t b k) m)
    (absent : count key k (home_items key t (other b) k) ≡ 0)
    (counts : IsCounted (base t b) → IsCounted (base u b)) (is : IsTable key t) where
  abbrev Result : Type ℓ
  Result = IsTable key u × ((q : K) → contents key u q ≡ changed key k ov (contents key t) q)

  empty-other : IsEmptyBase key t (other b) → IsEmptyBase key u (other b)
  empty-other empty q = rw (same-home key t u b k ov m entry list q) (empty q)

  changed-IsWithin : IsWithin key u
  changed-IsWithin =
      IsWithin-same key t u entry.same_current entry.same_rehashing entry.same_insert entry.same_pos
        entry.same_aborted entry.same_size is.within

  in_current : b ≡ t.current_base → Result
  in_current at = elim is.phase [
    | still h empty counted ↦
        let h_u = entry.same_rehashing ∙ h in
        (
          still-IsTable key u b at_u changed-IsWithin sized placed apart h_u
              (empty-other (subst (λ c. IsEmptyBase key t (other c)) (sym at) empty))
              (counts (subst (λ c. IsCounted (base t c)) (sym at) counted)),
          λ q.
              rw (contents-still key u b at_u q h_u, contents-still key t b (sym at) q h)
                (changed-lookup key t u b k ov m entry list q),
        )
    | moving h e sized_other counted ↦
        let h_u = entry.same_rehashing ∙ h in
        let e_t = e ∙ ap (λ c. some (other c)) (sym at) in
        let e_u = entry.same_insert ∙ e_t in
        (
          moving-IsTable key u b at_u changed-IsWithin sized placed apart h_u e_u
              (rw (entry.same_size (other b))
                (subst (λ c. 0 < (base t (other c)).size) (sym at) sized_other))
              (counts (subst (λ c. IsCounted (base t c)) (sym at) counted)),
          λ q.
              rw (contents-moving key u b at_u q h_u e_u, contents-moving key t b (sym at) q h e_t)
                (either_order key t u b k ov m entry list absent q).0,
        )
    | moved h e empty ↦
        let h_u = entry.same_rehashing ∙ h in
        let e_t = e ∙ ap some (sym at) in
        let e_u = entry.same_insert ∙ e_t in
        (
          moved-IsTable key u b at_u changed-IsWithin sized placed apart h_u e_u
              (empty-other (subst (λ c. IsEmptyBase key t (other c)) (sym at) empty)),
          λ q.
              rw (contents-moved key u b at_u q h_u e_u, contents-moved key t b (sym at) q h e_t)
                (changed-lookup key t u b k ov m entry list q),
        )
  ]
    where
      at_u : u.current_base ≡ b
      at_u = entry.same_current ∙ sym at

      sized : 0 < (base u b).size
      sized = rw (entry.same_size b) (subst (λ c. 0 < (base t c).size) (sym at) is.sized)

      placed : IsPlaced key u
      placed = changed-Placed key t u b k ov m entry list is.placed

      apart : IsApart key u b
      apart =
          changed-IsApart key t u b k ov m entry list absent
            (subst (IsApart key t) (sym at) is.apart)

  in_target :
      t.is_rehashing ≡ true
      → t.rehash_insert_base ≡ some (other t.current_base)
      → b ≡ other t.current_base
      → Result
  in_target h e to = elim is.phase [
    | still h' _ _ ↦ absurd (cc)
    | moved _ e' _ ↦ absurd (other-ne t.current_base (ap pointed (sym e ∙ e')))
    | moving _ _ sized_other counted ↦ (
      moving-IsTable key u (other b) at_u changed-IsWithin
          (rw (entry.same_size (other b)) (subst (λ c. 0 < (base t c).size) (sym back) is.sized))
          (changed-Placed key t u b k ov m entry list is.placed) apart h_u e_u
          (subst (λ c. 0 < (base u c).size) (sym (other_twice b))
            (rw (entry.same_size b) (subst (λ c. 0 < (base t c).size) (sym to) sized_other)))
          (subst IsCounted (sym entry.other_count)
            (subst (λ c. IsCounted (base t c)) (sym back) counted)),
      λ q.
          rw
            (
              contents-moving key u (other b) at_u q h_u e_u,
              contents-moving key t (other b) (sym back) q h e_t,
              other_twice b,
            )
            (either_order key t u b k ov m entry list absent q).1,
    )
  ]
    where
      back : other b ≡ t.current_base
      back = ap other to ∙ other_twice t.current_base

      at_u : u.current_base ≡ other b
      at_u = entry.same_current ∙ sym back

      h_u : u.is_rehashing ≡ true
      h_u = entry.same_rehashing ∙ h

      e_t : t.rehash_insert_base ≡ some (other (other b))
      e_t = e ∙ ap (λ c. some (other c)) (sym back)

      e_u : u.rehash_insert_base ≡ some (other (other b))
      e_u = entry.same_insert ∙ e_t

      before : IsApart key t b
      before =
          subst (IsApart key t) (other_twice b)
            (swap-IsApart key t (other b) (subst (IsApart key t) (sym back) is.apart))

      apart : IsApart key u (other b)
      apart = swap-IsApart key u b (changed-IsApart key t u b k ov m entry list absent before)

  -- The change is one of the map at the key.
  pub changed-contents : InUse key t b → Result
  changed-contents (current at) = in_current at
  changed-contents (target h e to) = in_target h e to
