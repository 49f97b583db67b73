-- ===== src/RwLock/Exclusion.antt =====
-- src/port/atomic.c: a writer excludes all others.
use forfun.Prelude.{
  true_not_false, ℕ, ◌+◌, ◌^◌, ◌≤◌, ◌<◌, ◌≡◌, ◌≢◌, refl, sym, ◌∙◌, Bool, true, false, if◌then◌else◌,
  ltb, inl, inr, ◌⊎◌, arith,
}
use forfun.RwLock.{RwLockType, rwlock_read, rwlock_write, unlock_rwlock_asserts}
use forfun.RwLock.Threads.{Holds, nothing, reads, writes, Threads, Reach}
use forfun.RwLock.Sums.{is_writer, sum_of-pair}
use forfun.RwLock.Counted.{IsCounted-reads, IsCounted-writes, Reach-IsCounted}

flag_le : (b : Bool) → (if b then 1 else 0) ≤ 1
flag_le true = omega arith
flag_le false = omega arith

Holds-cases : (h : Holds) → (h ≡ nothing) ⊎ ((h ≡ reads) ⊎ (h ≡ writes))
Holds-cases nothing = inl refl
Holds-cases reads = inr (inl refl)
Holds-cases writes = inr (inr refl)

-- Of `n` threads, `n + 1 < 2 ^ 64`, that use one read-write lock in any order, each calling what it may
-- for what it holds, none holds the lock while another one writes.
pub Reach-apart :
    (n : ℕ) (s : Threads) (i j : ℕ)
    → n + 1 < 2 ^ 64
    → Reach n s
    → i < n
    → j < n
    → i ≢ j
    → s.holds i ≡ writes
    → s.holds j ≡ nothing
Reach-apart n s i j small reach i_lt j_lt other writing =
    let inv = Reach-IsCounted n s small reach in
    let both = IsCounted-writes n s i i_lt writing inv in
    elim (Holds-cases (s.holds j)) [
      | inl h ↦ h
      | inr (inl h) ↦
          let own = IsCounted-reads n s j j_lt h inv in absurd (true_not_false (sym both.0 ∙ own.1))
      | inr (inr h) ↦
          let two = sum_of-pair is_writer s.holds n i j i_lt j_lt other in
          let first : is_writer (s.holds i) ≡ 1 = rw (writing) refl in
          let second : is_writer (s.holds j) ≡ 1 = rw (h) refl in
          let all = inv.writers in let most = flag_le s.lock.is_writing in absurd (omega arith)
    ]

abbrev held_for : RwLockType → Holds
held_for rwlock_read = reads
held_for rwlock_write = writes

-- A thread that leaves the lock in the way it holds it passes the assertions of unlock_rwlock, whatever
-- the `n` threads that use the lock did before, `n + 1 < 2 ^ 64`.
pub Reach-unlock_rwlock_asserts :
    (n : ℕ) (s : Threads) (i : ℕ) (type : RwLockType)
    → n + 1 < 2 ^ 64
    → Reach n s
    → i < n
    → s.holds i ≡ held_for type
    → unlock_rwlock_asserts s.lock type ≡ true
unfolding unlock_rwlock_asserts
Reach-unlock_rwlock_asserts n s i rwlock_read small reach below held =
    let own = IsCounted-reads n s i below held (Reach-IsCounted n s small reach) in
    let some_reader : ltb 0 s.lock.reader_count ≡ true = ground arith in
    rw (own.1, some_reader) refl
Reach-unlock_rwlock_asserts n s i rwlock_write small reach below held =
    let own = IsCounted-writes n s i below held (Reach-IsCounted n s small reach) in
    rw (own.0, own.1) refl
