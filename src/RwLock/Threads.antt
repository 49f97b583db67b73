-- ===== src/RwLock/Threads.antt =====
-- src/port/atomic.c: threads that take and leave one read-write lock, interleaved in any order.
--
-- The test in front of a section reads the fields at an earlier time, so a section can follow whatever
-- the fields are by then, and so can the announcement of a writer.
use forfun.Prelude.{ℕ, ◌<◌, ◌≡◌, true, false, if◌then◌else◌, ◌==◌}
use forfun.RwLock.{
  RwLock, rwlock_read, rwlock_write, init_rwlock, read_section, write_section, try_write_section,
  announce, unlock_rwlock, promote_section, try_promote_section, demote_section,
}

-- What a thread holds.
pub data Holds : Type 0 where
  nothing : Holds
  reads : Holds
  writes : Holds

pub record Threads : Type 0 where
  pub lock : RwLock
  pub holds : ℕ → Holds

abbrev pub set_holds : (ℕ → Holds) → ℕ → Holds → ℕ → Holds
set_holds holds i h j = if j == i then h else holds j

-- The threads below `n` take steps.
pub data Step (n : ℕ) (s : Threads) (t : Threads) : Type 0 where
  -- A section that succeeds, of a thread with a right to call the function.
  take_read :
      (i : ℕ)
      → i < n
      → s.holds i ≡ nothing
      → (read_section s.lock).0 ≡ true
      → t ≡ record { lock = (read_section s.lock).1; holds = set_holds s.holds i reads }
      → Step n s t
  take_write :
      (i : ℕ)
      → i < n
      → s.holds i ≡ nothing
      → (write_section s.lock).0 ≡ true
      → t ≡ record { lock = (write_section s.lock).1; holds = set_holds s.holds i writes }
      → Step n s t
  try_write :
      (i : ℕ)
      → i < n
      → s.holds i ≡ nothing
      → (try_write_section s.lock).0 ≡ true
      → t ≡ record { lock = (try_write_section s.lock).1; holds = set_holds s.holds i writes }
      → Step n s t
  promote :
      (i : ℕ)
      → i < n
      → s.holds i ≡ reads
      → (promote_section s.lock).0 ≡ true
      → t ≡ record { lock = (promote_section s.lock).1; holds = set_holds s.holds i writes }
      → Step n s t
  try_promote :
      (i : ℕ)
      → i < n
      → s.holds i ≡ reads
      → (try_promote_section s.lock).0 ≡ true
      → t ≡ record { lock = (try_promote_section s.lock).1; holds = set_holds s.holds i writes }
      → Step n s t
  demote :
      (i : ℕ)
      → i < n
      → s.holds i ≡ writes
      → (demote_section s.lock).0 ≡ true
      → t ≡ record { lock = (demote_section s.lock).1; holds = set_holds s.holds i reads }
      → Step n s t
  leave_read :
      (i : ℕ)
      → i < n
      → s.holds i ≡ reads
      → t ≡ record { lock = unlock_rwlock s.lock rwlock_read; holds = set_holds s.holds i nothing }
      → Step n s t
  leave_write :
      (i : ℕ)
      → i < n
      → s.holds i ≡ writes
      → t ≡ record { lock = unlock_rwlock s.lock rwlock_write; holds = set_holds s.holds i nothing }
      → Step n s t
  -- A writer who waits: his section fails, or he announces himself without the lock.
  wait_write :
      (write_section s.lock).0 ≡ false
      → t ≡ record { lock = (write_section s.lock).1; holds = s.holds }
      → Step n s t
  wait_promote :
      (promote_section s.lock).0 ≡ false
      → t ≡ record { lock = (promote_section s.lock).1; holds = s.holds }
      → Step n s t
  wait_announced : t ≡ record { lock = announce s.lock; holds = s.holds } → Step n s t

abbrev pub start : Threads
start = record { lock = init_rwlock; holds = λ i. nothing }

pub data Reach (n : ℕ) : Threads → Type 0 where
  started : Reach n start
  stepped : {s t : Threads} → Reach n s → Step n s t → Reach n t
