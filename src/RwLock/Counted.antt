-- ===== src/RwLock/Counted.antt =====
-- src/port/atomic.c: the fields of the lock count the threads that hold it, whatever they do.
use forfun.Prelude.{
  ℕ, ◌+◌, ◌-◌, ◌^◌, ◌≤◌, ◌<◌, ◌≡◌, refl, sym, ◌∙◌, subst, Bool, true, false, Bool-cases,
  if◌then◌else◌, inl, inr, arith,
}
use forfun.RwLock.{RwLock, init_rwlock}
use forfun.RwLock.Sections.{
  IsAt, read_section-IsAt, write_section-IsAt, try_write_section-IsAt, promote_section-IsAt,
  try_promote_section-IsAt, demote_section-IsAt, write_section-failed, promote_section-failed,
  unlock_rwlock-IsAt, unlock_rwlock-written, announce-IsAt,
}
use forfun.RwLock.Threads.{
  Holds, nothing, reads, writes, Threads, set_holds, Step, take_read, take_write, try_write,
  promote, try_promote, demote, leave_read, leave_write, wait_write, wait_promote, wait_announced,
  Reach, started, stepped,
}
use forfun.RwLock.Sums.{
  is_reader, is_writer, sum_of, sum_of-set_holds, sum_of-le, sum_of-bound, sum_of-start,
}

-- The fields count the threads that hold the lock.
pub record IsCounted (n : ℕ) (s : Threads) : Type 0 where
  pub readers : s.lock.reader_count ≡ sum_of is_reader s.holds n
  pub writers : (if s.lock.is_writing then 1 else 0) ≡ sum_of is_writer s.holds n
  pub apart : s.lock.is_writing ≡ true → s.lock.reader_count ≡ 0

-- A thread changes what it holds, and the fields follow.
IsCounted-set_holds :
    (n : ℕ) (s : Threads) (i : ℕ) (l : RwLock) (g h : Holds)
    → i < n
    → s.holds i ≡ g
    → l.reader_count + is_reader g ≡ s.lock.reader_count + is_reader h
    → (if l.is_writing then 1 else 0) + is_writer g
      ≡ (if s.lock.is_writing then 1 else 0) + is_writer h
    → (l.is_writing ≡ true → l.reader_count ≡ 0)
    → IsCounted n s
    → IsCounted n (record { lock = l; holds = set_holds s.holds i h })
IsCounted-set_holds n s i l g h below held count flag alone inv =
    let moved_r = sum_of-set_holds is_reader s.holds i h n below in
    let moved_w = sum_of-set_holds is_writer s.holds i h n below in
    let same_r : is_reader (s.holds i) ≡ is_reader g = rw (held) refl in
    let same_w : is_writer (s.holds i) ≡ is_writer g = rw (held) refl in
    let all_r = inv.readers in
    let all_w = inv.writers in
    record { readers = omega arith; writers = omega arith; apart = alone }

IsCounted-bound : (n : ℕ) (s : Threads) → IsCounted n s → s.lock.reader_count ≤ n
IsCounted-bound n s inv = let all = inv.readers in let most = sum_of-bound s.holds n in omega arith

pub IsCounted-reads :
    (n : ℕ) (s : Threads) (i : ℕ)
    → i < n
    → s.holds i ≡ reads
    → IsCounted n s
    → (1 ≤ s.lock.reader_count) × (s.lock.is_writing ≡ false)
IsCounted-reads n s i below held inv =
    let own = sum_of-le is_reader s.holds n i below in
    let mine : is_reader (s.holds i) ≡ 1 = rw (held) refl in
    let all = inv.readers in
    let some_reader : 1 ≤ s.lock.reader_count = omega arith in
    (
      some_reader,
      elim (Bool-cases s.lock.is_writing) [
        | inl h ↦ let none = inv.apart h in absurd (omega arith)
        | inr h ↦ h
      ],
    )

is_set : (b : Bool) → 1 ≤ (if b then 1 else 0) → b ≡ true
is_set true h = refl
is_set false h = absurd (omega arith)

pub IsCounted-writes :
    (n : ℕ) (s : Threads) (i : ℕ)
    → i < n
    → s.holds i ≡ writes
    → IsCounted n s
    → (s.lock.is_writing ≡ true) × (s.lock.reader_count ≡ 0)
IsCounted-writes n s i below held inv =
    let own = sum_of-le is_writer s.holds n i below in
    let mine : is_writer (s.holds i) ≡ 1 = rw (held) refl in
    let all = inv.writers in
    let flag : s.lock.is_writing ≡ true = is_set s.lock.is_writing (omega arith) in
    (flag, inv.apart flag)

-- A thread takes the lock from one number of readers and one flag to others.
IsCounted-taken :
    (n : ℕ) (s : Threads) (i : ℕ) (l : RwLock) (g h : Holds) (c d : ℕ) (v w : Bool)
    → i < n
    → s.holds i ≡ g
    → IsAt s.lock c v
    → IsAt l d w
    → d + is_reader g ≡ c + is_reader h
    → (if w then 1 else 0) + is_writer g ≡ (if v then 1 else 0) + is_writer h
    → (w ≡ true → d ≡ 0)
    → IsCounted n s
    → IsCounted n (record { lock = l; holds = set_holds s.holds i h })
IsCounted-taken n s i l g h c d v w below held before after count flag alone inv =
    IsCounted-set_holds n s i l g h below held (rw (before.counted, after.counted) count)
      (rw (before.written, after.written) flag) (λ e. after.counted ∙ alone (sym after.written ∙ e))
      inv

-- A step that leaves both as they are keeps the count.
IsCounted-waited :
    (n : ℕ) (s : Threads) (l : RwLock)
    → IsAt l s.lock.reader_count s.lock.is_writing
    → IsCounted n s
    → IsCounted n (record { lock = l; holds = s.holds })
IsCounted-waited n s l same inv = record {
  readers = same.counted ∙ inv.readers;
  writers = rw (same.written) inv.writers;
  apart = λ e. same.counted ∙ inv.apart (sym same.written ∙ e);
}

Step-IsCounted :
    (n : ℕ) (s t : Threads) → n + 1 < 2 ^ 64 → Step n s t → IsCounted n s → IsCounted n t
Step-IsCounted n s t small (take_read i below held ok e) inv =
    let most = IsCounted-bound n s inv in
    let at = read_section-IsAt s.lock (omega arith) ok in
    subst (IsCounted n) (sym e) (
      IsCounted-taken n s i _ nothing reads s.lock.reader_count (s.lock.reader_count + 1) false
        false below held (record { counted = refl; written = at.0 }) at.1 (omega arith) refl
        (λ e. absurd (cc)) inv)
Step-IsCounted n s t small (take_write i below held ok e) inv =
    let at = write_section-IsAt s.lock ok in
    subst (IsCounted n) (sym e) (
      IsCounted-taken n s i _ nothing writes 0 0 false true below held at.0 at.1 refl refl
        (λ e. refl) inv)
Step-IsCounted n s t small (try_write i below held ok e) inv =
    let at = try_write_section-IsAt s.lock ok in
    subst (IsCounted n) (sym e) (
      IsCounted-taken n s i _ nothing writes 0 0 false true below held at.0 at.1 refl refl
        (λ e. refl) inv)
Step-IsCounted n s t small (promote i below held ok e) inv =
    let at = promote_section-IsAt s.lock ok in
    subst (IsCounted n) (sym e) (
      IsCounted-taken n s i _ reads writes 1 0 false true below held at.0 at.1 refl refl (λ e. refl)
        inv)
Step-IsCounted n s t small (try_promote i below held ok e) inv =
    let at = try_promote_section-IsAt s.lock ok in
    subst (IsCounted n) (sym e) (
      IsCounted-taken n s i _ reads writes 1 0 false true below held at.0 at.1 refl refl (λ e. refl)
        inv)
Step-IsCounted n s t small (demote i below held ok e) inv =
    let own = IsCounted-writes n s i below held inv in
    let at = demote_section-IsAt s.lock own.1 ok in
    subst (IsCounted n) (sym e) (
      IsCounted-taken n s i _ writes reads 0 1 true false below held
        (record { counted = own.1; written = own.0 }) at.1 refl refl (λ e. absurd (cc)) inv)
Step-IsCounted n s t small (leave_read i below held e) inv =
    let own = IsCounted-reads n s i below held inv in
    let most = IsCounted-bound n s inv in
    let at = unlock_rwlock-IsAt s.lock own.0 (omega arith) own.1 in
    subst (IsCounted n) (sym e) (
      IsCounted-taken n s i _ reads nothing s.lock.reader_count (s.lock.reader_count - 1) false
        false below held (record { counted = refl; written = own.1 }) at (omega arith) refl
        (λ e. absurd (cc)) inv)
Step-IsCounted n s t small (leave_write i below held e) inv =
    let own = IsCounted-writes n s i below held inv in
    subst (IsCounted n) (sym e) (
      IsCounted-taken n s i _ writes nothing 0 0 true false below held
        (record { counted = own.1; written = own.0 }) (unlock_rwlock-written s.lock own.1) refl refl
        (λ e. absurd (cc)) inv)
Step-IsCounted n s t small (wait_write ok e) inv =
    subst (IsCounted n) (sym e) (IsCounted-waited n s _ (write_section-failed s.lock ok) inv)
Step-IsCounted n s t small (wait_promote ok e) inv =
    subst (IsCounted n) (sym e) (IsCounted-waited n s _ (promote_section-failed s.lock ok) inv)
Step-IsCounted n s t small (wait_announced e) inv =
    subst (IsCounted n) (sym e) (IsCounted-waited n s _ (announce-IsAt s.lock) inv)

pub Reach-IsCounted : (n : ℕ) (s : Threads) → n + 1 < 2 ^ 64 → Reach n s → IsCounted n s
unfolding init_rwlock
Reach-IsCounted n s small started = record {
  readers = sym (sum_of-start is_reader n refl);
  writers = sym (sum_of-start is_writer n refl);
  apart = λ e. refl;
}
Reach-IsCounted n s small (stepped before step) =
    Step-IsCounted n _ s small step (Reach-IsCounted n _ small before)
