-- ===== src/RwLock/Tests.antt =====
-- The read-write lock on concrete runs.
use forfun.Prelude.{◌≡◌, refl, true, false, if◌then◌else◌, arith}
use forfun.RwLock.{
  RwLock, rwlock_read, rwlock_write, init_rwlock, read_section, write_section, announce,
  lock_rwlock_turn, try_lock_rwlock, unlock_rwlock_asserts, promote_section, try_promote_section,
  try_promote_rlock_to_wlock, demote_asserts, try_demote_wlock_to_rlock,
}
use forfun.RwLock.Threads.{
  nothing, reads, writes, Threads, set_holds, take_read, take_write, promote, wait_announced, start,
  Reach, started, stepped,
}
use forfun.RwLock.Exclusion.{Reach-apart, Reach-unlock_rwlock_asserts}
use forfun.RwLock.Turns.{
  lock_rwlock_turn-try_lock_rwlock, try_promote_rlock_to_wlock-try_demote_wlock_to_rlock,
}

-- The second of two threads reads.
abbrev one_reads : Threads
one_reads = record { lock = (read_section init_rwlock).1; holds = set_holds start.holds 1 reads }

-- It promotes its lock.
abbrev one_writes : Threads
one_writes = record {
  lock = (promote_section one_reads.lock).1;
  holds = set_holds one_reads.holds 1 writes;
}

one_reads_reached : Reach 2 one_reads
unfolding read_section init_rwlock
one_reads_reached = stepped started (take_read 1 (omega arith) refl refl refl)

one_writes_reached : Reach 2 one_writes
unfolding promote_section read_section init_rwlock
one_writes_reached = stepped one_reads_reached (promote 1 (omega arith) refl refl refl)

Reach-apart_example : one_writes.holds 0 ≡ nothing
Reach-apart_example =
    Reach-apart 2 one_writes 1 0 (omega arith) one_writes_reached (omega arith) (omega arith)
      (omega arith) refl

Reach-unlock_rwlock_asserts_example : unlock_rwlock_asserts one_reads.lock rwlock_read ≡ true
Reach-unlock_rwlock_asserts_example =
    Reach-unlock_rwlock_asserts 2 one_reads 1 rwlock_read (omega arith) one_reads_reached
      (omega arith) refl

abbrev two_readers : RwLock
two_readers = record { about_to_write = false; is_writing = false; reader_count = 2 }

lock_rwlock_turn-try_lock_rwlock_example :
    ((lock_rwlock_turn two_readers rwlock_write).0 ≡ (try_lock_rwlock two_readers rwlock_write).0)
    × ((try_lock_rwlock two_readers rwlock_write).1 ≡ (
        if (try_lock_rwlock two_readers rwlock_write).0
        then (lock_rwlock_turn two_readers rwlock_write).1
        else two_readers))
    × (announce (lock_rwlock_turn two_readers rwlock_write).1
        ≡ announce (try_lock_rwlock two_readers rwlock_write).1)
lock_rwlock_turn-try_lock_rwlock_example = lock_rwlock_turn-try_lock_rwlock two_readers rwlock_write

abbrev waited_for : RwLock
waited_for = record { about_to_write = true; is_writing = false; reader_count = 1 }

try_promote_rlock_to_wlock-try_demote_wlock_to_rlock_example :
    try_demote_wlock_to_rlock (try_promote_rlock_to_wlock waited_for).1
    ≡ (true, record waited_for { about_to_write = false })
unfolding try_promote_rlock_to_wlock try_promote_section
try_promote_rlock_to_wlock-try_demote_wlock_to_rlock_example =
    try_promote_rlock_to_wlock-try_demote_wlock_to_rlock waited_for refl

-- A waiting writer keeps new readers out.
announced_is_closed :
    try_lock_rwlock (announce two_readers) rwlock_read ≡ (false, announce two_readers)
unfolding try_lock_rwlock announce
announced_is_closed = refl

-- The announcement that lock_rwlock makes without the lock can come after another thread has taken the
-- lock to write. The assertion of try_demote_wlock_to_rlock fails then.
late : Threads
late = record {
  lock = announce (write_section init_rwlock).1;
  holds = set_holds start.holds 0 writes;
}

late_reached : Reach 2 late
unfolding late write_section init_rwlock
late_reached =
    stepped (stepped started (take_write 0 (omega arith) refl refl refl)) (wait_announced refl)

late_asserts : demote_asserts late.lock ≡ false
unfolding late demote_asserts announce
late_asserts = refl
