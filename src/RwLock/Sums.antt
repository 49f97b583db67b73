-- ===== src/RwLock/Sums.antt =====
-- src/port/atomic.c: how many threads hold the lock.
use forfun.Prelude.{
  ℕ, zero, suc, ◌+◌, ◌≤◌, ◌<◌, ◌≡◌, ◌≢◌, refl, sym, Bool-cases, ◌==◌, ==_iff, inl, inr, arith,
}
use forfun.RwLock.Threads.{Holds, nothing, reads, writes, set_holds}

-- Whether a thread holds the lock in one way.
abbrev pub is_reader : Holds → ℕ
is_reader reads = 1
is_reader _ = 0

abbrev pub is_writer : Holds → ℕ
is_writer writes = 1
is_writer _ = 0

-- The number of threads that do.
pub sum_of : (Holds → ℕ) → (ℕ → Holds) → ℕ → ℕ
sum_of f holds zero = 0
sum_of f holds (suc n) = sum_of f holds n + f (holds n)

sum_of-same :
    (f : Holds → ℕ) (g h : ℕ → Holds) (n : ℕ)
    → ((j : ℕ) → j < n → g j ≡ h j)
    → sum_of f g n ≡ sum_of f h n
unfolding sum_of
sum_of-same f g h zero same = refl
sum_of-same f g h (suc n) same =
    rw (sum_of-same f g h n (λ j p. same j (omega arith)), same n (omega arith)) refl

pub sum_of-set_holds :
    (f : Holds → ℕ) (holds : ℕ → Holds) (i : ℕ) (h : Holds) (n : ℕ)
    → i < n
    → sum_of f (set_holds holds i h) n + f (holds i) ≡ sum_of f holds n + f h
unfolding sum_of
sum_of-set_holds f holds i h (suc n) below = elim (Bool-cases (n == i)) [
  | inl e ↦
      let at = (==_iff n i).0 e in
      rw (e, at, sum_of-same f (set_holds holds i h) holds i (λ j p. ground arith)) (omega arith)
  | inr e ↦ let before = sum_of-set_holds f holds i h n (ground arith) in rw (e) (omega arith)
]
sum_of-set_holds f holds i h zero below = absurd (omega arith)

pub sum_of-le :
    (f : Holds → ℕ) (holds : ℕ → Holds) (n i : ℕ) → i < n → f (holds i) ≤ sum_of f holds n
unfolding sum_of
sum_of-le f holds (suc n) i below = elim (Bool-cases (n == i)) [
  | inl e ↦ rw ((==_iff n i).0 e) (omega arith)
  | inr e ↦ let before = sum_of-le f holds n i (ground arith) in omega arith
]
sum_of-le f holds zero i below = absurd (omega arith)

pub sum_of-pair :
    (f : Holds → ℕ) (holds : ℕ → Holds) (n i j : ℕ)
    → i < n
    → j < n
    → i ≢ j
    → f (holds i) + f (holds j) ≤ sum_of f holds n
unfolding sum_of
sum_of-pair f holds (suc n) i j i_lt j_lt ne = elim (Bool-cases (n == i)) [
  | inl e ↦
      let at = (==_iff n i).0 e in
      let before = sum_of-le f holds n j (ground arith) in rw (sym at) (omega arith)
  | inr e ↦ elim (Bool-cases (n == j)) [
    | inl h ↦
        let at = (==_iff n j).0 h in
        let before = sum_of-le f holds n i (ground arith) in rw (sym at) (omega arith)
    | inr h ↦ let before = sum_of-pair f holds n i j (ground arith) (ground arith) ne in omega arith
  ]
]
sum_of-pair f holds zero i j i_lt j_lt ne = absurd (omega arith)

pub sum_of-start : (f : Holds → ℕ) (n : ℕ) → f nothing ≡ 0 → sum_of f (λ i. nothing) n ≡ 0
unfolding sum_of
sum_of-start f zero h = refl
sum_of-start f (suc n) h = rw (sum_of-start f n h, h) refl

is_reader-le : (h : Holds) → is_reader h ≤ 1
is_reader-le nothing = omega arith
is_reader-le reads = omega arith
is_reader-le writes = omega arith

pub sum_of-bound : (holds : ℕ → Holds) (n : ℕ) → sum_of is_reader holds n ≤ n
unfolding sum_of
sum_of-bound holds zero = omega arith
sum_of-bound holds (suc n) =
    let before = sum_of-bound holds n in let last = is_reader-le (holds n) in omega arith
