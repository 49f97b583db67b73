-- ===== src/RwLock/Sections.antt =====
-- src/port/atomic.c: what a section finds and leaves when it succeeds.
use forfun.Prelude.{
  true_not_false, ℕ, ◌+◌, ◌-◌, ◌^◌, ◌≤◌, ◌<◌, ◌≡◌, refl, sym, ◌∙◌, Bool, true, false, not, ◌&&◌,
  Bool-cases, if◌then◌else◌, ltb, ◌==◌, ==_iff, inl, inr, arith,
}
use forfun.RwLock.{
  RwLock, read_section, write_section, try_write_section, promote_section, try_promote_section,
  demote_section, unlock_rwlock, announce, rwlock_read, rwlock_write,
}

-- The number of readers and the writer of a lock.
pub record IsAt (l : RwLock) (count : ℕ) (writing : Bool) : Type 0 where
  pub counted : l.reader_count ≡ count
  pub written : l.is_writing ≡ writing

-- A section that succeeds has passed its test.
guard :
    (b : Bool) (x y : RwLock)
    → (if◌then◌else◌ {A = Bool × RwLock} b (true, x) (false, y)).0 ≡ true
    → b ≡ true
guard true x y ok = refl
guard false x y ok = absurd (cc)

refused :
    (b : Bool) (x y : RwLock)
    → (if◌then◌else◌ {A = Bool × RwLock} b (true, x) (false, y)).0 ≡ false
    → b ≡ false
refused true x y ok = absurd (cc)
refused false x y ok = refl

otherwise :
    (b : Bool) (x : RwLock) (y : Bool × RwLock)
    → (if◌then◌else◌ {A = Bool × RwLock} b (false, x) y).0 ≡ true
    → (b ≡ false) × (y.0 ≡ true)
otherwise true x y ok = absurd (cc)
otherwise false x y ok = (refl, ok)

both : (b c : Bool) → not b && c ≡ true → (b ≡ false) × (c ≡ true)
both true c h = absurd (cc)
both false c h = (refl, h)

below_one : (c : ℕ) → ltb c 1 ≡ true → c ≡ 0
below_one c few = ground arith

pub read_section-IsAt :
    (l : RwLock)
    → l.reader_count + 1 < 2 ^ 64
    → (read_section l).0 ≡ true
    → (l.is_writing ≡ false) × IsAt (read_section l).1 (l.reader_count + 1) false
unfolding read_section
read_section-IsAt l small ok =
    let test = guard _ _ _ ok in
    let idle = (both l.is_writing (not l.about_to_write) test).0 in
    (idle, record { counted = rw (test) (omega arith); written = rw (test) idle })

pub write_section-IsAt :
    (l : RwLock) → (write_section l).0 ≡ true → IsAt l 0 false × IsAt (write_section l).1 0 true
unfolding write_section
write_section-IsAt l ok =
    let idle : l.is_writing ≡ false = (otherwise _ _ _ ok).0 in
    let test : ltb l.reader_count 1 ≡ true = guard _ _ _ (otherwise _ _ _ ok).1 in
    let empty = below_one l.reader_count test in
    (
      record { counted = empty; written = idle },
      record { counted = rw (idle, test) empty; written = rw (idle, test) refl },
    )

pub try_write_section-IsAt :
    (l : RwLock)
    → (try_write_section l).0 ≡ true
    → IsAt l 0 false × IsAt (try_write_section l).1 0 true
unfolding try_write_section
try_write_section-IsAt l ok =
    let test = guard _ _ _ ok in
    let idle = (both l.is_writing (ltb l.reader_count 1) test).0 in
    let few = (both l.is_writing (ltb l.reader_count 1) test).1 in
    let empty = below_one l.reader_count few in
    (
      record { counted = empty; written = idle },
      record { counted = rw (test) empty; written = rw (test) refl },
    )

pub promote_section-IsAt :
    (l : RwLock) → (promote_section l).0 ≡ true → IsAt l 1 false × IsAt (promote_section l).1 0 true
unfolding promote_section
promote_section-IsAt l ok =
    let test = guard _ _ _ ok in
    let idle = (both l.is_writing (l.reader_count == 1) test).0 in
    let one = (==_iff l.reader_count 1).0 (both l.is_writing (l.reader_count == 1) test).1 in
    (
      record { counted = one; written = idle },
      record { counted = rw (test, one) refl; written = rw (test) refl },
    )

pub try_promote_section-IsAt :
    (l : RwLock)
    → (try_promote_section l).0 ≡ true
    → IsAt l 1 false × IsAt (try_promote_section l).1 0 true
unfolding try_promote_section
try_promote_section-IsAt l ok =
    let test = guard _ _ _ ok in
    let idle = (both l.is_writing (l.reader_count == 1) test).0 in
    let one = (==_iff l.reader_count 1).0 (both l.is_writing (l.reader_count == 1) test).1 in
    (
      record { counted = one; written = idle },
      record { counted = rw (test, one) refl; written = rw (test) refl },
    )

pub demote_section-IsAt :
    (l : RwLock)
    → l.reader_count ≡ 0
    → (demote_section l).0 ≡ true
    → (l.is_writing ≡ true) × IsAt (demote_section l).1 1 false
unfolding demote_section
demote_section-IsAt l empty ok =
    let test = guard _ _ _ ok in
    (test, record { counted = rw (test, empty) refl; written = rw (test) refl })

-- A section that fails changes the announcement at most.
pub write_section-failed :
    (l : RwLock)
    → (write_section l).0 ≡ false
    → IsAt (write_section l).1 l.reader_count l.is_writing
unfolding write_section
write_section-failed l ok = elim (Bool-cases l.is_writing) [
  | inl h ↦ record { counted = rw (h) refl; written = rw (h) refl }
  | inr h ↦ elim (Bool-cases (ltb l.reader_count 1)) [
    | inl k ↦
        let taken : (write_section l).0 ≡ true = rw (h, k) refl in
        absurd (true_not_false (sym taken ∙ ok))
    | inr k ↦ record { counted = rw (h, k) refl; written = rw (h, k) refl }
  ]
]

pub promote_section-failed :
    (l : RwLock)
    → (promote_section l).0 ≡ false
    → IsAt (promote_section l).1 l.reader_count l.is_writing
unfolding promote_section
promote_section-failed l ok =
    let test = refused _ _ _ ok in record { counted = rw (test) refl; written = rw (test) refl }

pub unlock_rwlock-IsAt :
    (l : RwLock)
    → 1 ≤ l.reader_count
    → l.reader_count < 2 ^ 64
    → l.is_writing ≡ false
    → IsAt (unlock_rwlock l rwlock_read) (l.reader_count - 1) false
unfolding unlock_rwlock
unlock_rwlock-IsAt l some_reader small idle = record { counted = omega arith; written = idle }

pub unlock_rwlock-written :
    (l : RwLock) → l.reader_count ≡ 0 → IsAt (unlock_rwlock l rwlock_write) 0 false
unfolding unlock_rwlock
unlock_rwlock-written l empty = record { counted = empty; written = refl }

pub announce-IsAt : (l : RwLock) → IsAt (announce l) l.reader_count l.is_writing
unfolding announce
announce-IsAt l = record { counted = refl; written = refl }
