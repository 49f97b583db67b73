-- ===== src/RwLock.antt =====
-- src/port/atomic.c and atomic.h: the read-write lock.
--
-- What a function does between lock_int and unlock_int is a section: it is one step for the other
-- threads. A function is the test in front of its section, which reads the fields without the lock,
-- and the section. Each returns whether it has got what it asked for, and the new fields.
pub mod Threads
pub mod Sections
pub mod Sums
pub mod Counted
pub mod Exclusion
pub mod Turns
mod Tests
use forfun.Prelude.{
  ℕ, zero, suc, ◌+◌, ◌-◌, ◌%◌, ◌^◌, ◌≡◌, refl, Bool, true, false, not, ◌&&◌, Bool-cases,
  if◌then◌else◌, ltb, ◌==◌, arith,
}

pub record RwLock : Type 0 where
  pub about_to_write : Bool
  pub is_writing : Bool
  pub reader_count : ℕ

pub data RwLockType : Type 0 where
  rwlock_read : RwLockType
  rwlock_write : RwLockType

unfoldable pub init_rwlock : RwLock
init_rwlock = record { about_to_write = false; is_writing = false; reader_count = 0 }

unfoldable pub read_section : RwLock → Bool × RwLock
read_section l =
    if not l.is_writing && not l.about_to_write
    then (true, record l { reader_count = (l.reader_count + 1) % 2 ^ 64 })
    else (false, l)

abbrev taken_by_writer : RwLock → RwLock
taken_by_writer l = record l { about_to_write = false; is_writing = true }

-- The section of lock_rwlock for a writer, who announces himself to the readers.
unfoldable pub write_section : RwLock → Bool × RwLock
write_section l =
    if l.is_writing
    then (false, l)
    else (if ltb l.reader_count 1
        then (true, taken_by_writer l)
        else (false, record l { about_to_write = true }))

unfoldable pub try_write_section : RwLock → Bool × RwLock
try_write_section l =
    if not l.is_writing && ltb l.reader_count 1 then (true, taken_by_writer l) else (false, l)

-- The announcement that lock_rwlock makes without the lock.
unfoldable pub announce : RwLock → RwLock
announce l = record l { about_to_write = true }

-- One turn of the loop of lock_rwlock.
unfoldable pub lock_rwlock_turn : RwLock → RwLockType → Bool × RwLock
lock_rwlock_turn l rwlock_read =
    if not l.is_writing && not l.about_to_write then read_section l else (false, l)
lock_rwlock_turn l rwlock_write =
    if l.is_writing
    then (false, l)
    else (if ltb l.reader_count 1 then write_section l else (false, announce l))

unfoldable pub try_lock_rwlock : RwLock → RwLockType → Bool × RwLock
try_lock_rwlock l rwlock_read =
    if not l.is_writing && not l.about_to_write then read_section l else (false, l)
try_lock_rwlock l rwlock_write =
    if not l.is_writing && ltb l.reader_count 1 then try_write_section l else (false, l)

-- The assertions of unlock_rwlock, and what it does.
unfoldable pub unlock_rwlock_asserts : RwLock → RwLockType → Bool
unlock_rwlock_asserts l rwlock_read = not l.is_writing && ltb 0 l.reader_count
unlock_rwlock_asserts l rwlock_write = l.is_writing && ltb l.reader_count 1

unfoldable pub unlock_rwlock : RwLock → RwLockType → RwLock
unlock_rwlock l rwlock_read = record l { reader_count = (l.reader_count + (2 ^ 64 - 1)) % 2 ^ 64 }
unlock_rwlock l rwlock_write = record l { is_writing = false }

abbrev promoted : RwLock → RwLock
promoted l = record {
  about_to_write = false;
  is_writing = true;
  reader_count = (l.reader_count + (2 ^ 64 - 1)) % 2 ^ 64;
}

unfoldable pub promote_section : RwLock → Bool × RwLock
promote_section l =
    if not l.is_writing && (l.reader_count == 1)
    then (true, promoted l)
    else (false, record l { about_to_write = true })

-- One turn of the loop of promote_rlock_to_wlock.
unfoldable pub promote_turn : RwLock → Bool × RwLock
promote_turn l = if not l.is_writing && (l.reader_count == 1) then promote_section l else (false, l)

unfoldable pub try_promote_section : RwLock → Bool × RwLock
try_promote_section l =
    if not l.is_writing && (l.reader_count == 1) then (true, promoted l) else (false, l)

unfoldable pub try_promote_rlock_to_wlock : RwLock → Bool × RwLock
try_promote_rlock_to_wlock l =
    if not l.is_writing && (l.reader_count == 1) then try_promote_section l else (false, l)

-- The assertions of try_demote_wlock_to_rlock.
unfoldable pub demote_asserts : RwLock → Bool
demote_asserts l = not l.about_to_write && ltb l.reader_count 1

unfoldable pub demote_section : RwLock → Bool × RwLock
demote_section l =
    if l.is_writing
    then (true, record l { is_writing = false; reader_count = (l.reader_count + 1) % 2 ^ 64 })
    else (false, l)

-- demote_wlock_to_rlock repeats it until it succeeds.
unfoldable pub try_demote_wlock_to_rlock : RwLock → Bool × RwLock
try_demote_wlock_to_rlock l = if l.is_writing then demote_section l else (false, l)
