-- ===== src/RwLock/Turns.antt =====
-- src/port/atomic.c: the functions that wait and the functions that try.
use forfun.Prelude.{
  true_not_false, ℕ, ◌≡◌, refl, sym, ◌∙◌, subst, Bool, true, false, Bool-cases, if◌then◌else◌, ltb,
  ◌==◌, ==_iff, inl, inr,
}
use forfun.RwLock.{
  RwLock, RwLockType, rwlock_read, rwlock_write, read_section, write_section, try_write_section,
  announce, lock_rwlock_turn, try_lock_rwlock, try_promote_section, try_promote_rlock_to_wlock,
  demote_section, try_demote_wlock_to_rlock,
}

-- The lock whose fields are given.
abbrev lock_of : Bool → Bool → ℕ → RwLock
lock_of a w c = record { about_to_write = a; is_writing = w; reader_count = c }

-- What a turn and a trial have in common.
abbrev Agree : RwLock → (Bool × RwLock) → (Bool × RwLock) → Type 0
Agree l turn trial =
    (turn.0 ≡ trial.0)
    × (trial.1 ≡ (if trial.0 then turn.1 else l))
    × (announce turn.1 ≡ announce trial.1)

lock_rwlock_turn-Agree_read :
    (a w : Bool) (c : ℕ)
    → Agree
        (lock_of a w c)
        (lock_rwlock_turn (lock_of a w c) rwlock_read)
        (try_lock_rwlock (lock_of a w c) rwlock_read)
unfolding lock_rwlock_turn try_lock_rwlock read_section announce
lock_rwlock_turn-Agree_read true true c = (refl, refl, refl)
lock_rwlock_turn-Agree_read true false c = (refl, refl, refl)
lock_rwlock_turn-Agree_read false true c = (refl, refl, refl)
lock_rwlock_turn-Agree_read false false c = (refl, refl, refl)

lock_rwlock_turn-Agree_write :
    (a w : Bool) (c : ℕ)
    → Agree
        (lock_of a w c)
        (lock_rwlock_turn (lock_of a w c) rwlock_write)
        (try_lock_rwlock (lock_of a w c) rwlock_write)
unfolding lock_rwlock_turn try_lock_rwlock write_section try_write_section announce
lock_rwlock_turn-Agree_write a true c = (refl, refl, refl)
lock_rwlock_turn-Agree_write a false c = elim (Bool-cases (ltb c 1)) [
  | inl h ↦ rw (h) (refl, refl, refl)
  | inr h ↦ rw (h) (refl, refl, refl)
]

-- A turn of lock_rwlock that no other thread comes between succeeds exactly if try_lock_rwlock does, and
-- leaves the same fields then. Where both fail, try_lock_rwlock changes nothing, and the turn changes
-- about_to_write at most.
pub lock_rwlock_turn-try_lock_rwlock :
    (l : RwLock) (type : RwLockType)
    → ((lock_rwlock_turn l type).0 ≡ (try_lock_rwlock l type).0)
      × ((try_lock_rwlock l type).1
          ≡ (if (try_lock_rwlock l type).0 then (lock_rwlock_turn l type).1 else l))
      × (announce (lock_rwlock_turn l type).1 ≡ announce (try_lock_rwlock l type).1)
lock_rwlock_turn-try_lock_rwlock l rwlock_read =
    lock_rwlock_turn-Agree_read l.about_to_write l.is_writing l.reader_count
lock_rwlock_turn-try_lock_rwlock l rwlock_write =
    lock_rwlock_turn-Agree_write l.about_to_write l.is_writing l.reader_count

promoted_demoted :
    (a w : Bool) (c : ℕ)
    → (try_promote_rlock_to_wlock (lock_of a w c)).0 ≡ true
    → try_demote_wlock_to_rlock (try_promote_rlock_to_wlock (lock_of a w c)).1
      ≡ (true, lock_of false w c)
unfolding try_promote_rlock_to_wlock try_demote_wlock_to_rlock try_promote_section demote_section
promoted_demoted a true c ok = absurd (cc)
promoted_demoted a false c ok = elim (Bool-cases (c == 1)) [
  | inl h ↦
      subst
        (λ d.
          try_demote_wlock_to_rlock (try_promote_rlock_to_wlock (lock_of a false d)).1
          ≡ (true, lock_of false false d))
        (sym ((==_iff c 1).0 h)) refl
  | inr h ↦
      let missed : (try_promote_rlock_to_wlock (lock_of a false c)).0 ≡ false = rw (h) refl in
      absurd (true_not_false (sym ok ∙ missed))
]

-- After a try_promote_rlock_to_wlock that succeeds try_demote_wlock_to_rlock succeeds, and gives the
-- lock back as it was, but that the announcement of a writer is lost: about_to_write is false.
pub try_promote_rlock_to_wlock-try_demote_wlock_to_rlock :
    (l : RwLock)
    → (try_promote_rlock_to_wlock l).0 ≡ true
    → try_demote_wlock_to_rlock (try_promote_rlock_to_wlock l).1
      ≡ (true, record l { about_to_write = false })
try_promote_rlock_to_wlock-try_demote_wlock_to_rlock l ok =
    promoted_demoted l.about_to_write l.is_writing l.reader_count ok
