-- ===== src/BaseString/Fill.antt =====
-- The loop of initString and allocString over a C string.
use forfun.Prelude.{
  ℕ, zero, suc, ◌+◌, ◌≤◌, ◌<◌, ◌≡◌, refl, ◌∙◌, true, ltb, List, [], ◌∷◌, length, get_or, min,
  Bool-cases, inl, inr, arith,
}
use forfun.BaseString.{fill, write}

-- The loop copies as many characters as there are and fit.
pub fill-length :
    (cstr : List ℕ) (limit i : ℕ) (b : ℕ → ℕ)
    → i ≤ limit
    → (fill cstr limit i b).1 ≡ min (i + length cstr) limit
unfolding fill
fill-length [] limit i b n = omega arith
fill-length (c ∷ cstr) limit i b n = elim (Bool-cases (ltb i limit)) [
  | inl more ↦ rw (more) (fill-length cstr limit (suc i) (write b i c) (ground arith) ∙ omega arith)
  | inr full ↦ rw (full) (ground arith)
]

-- What stood before its first index stays.
pub fill-before :
    (cstr : List ℕ) (limit i : ℕ) (b : ℕ → ℕ) (k : ℕ) → k < i → (fill cstr limit i b).0 k ≡ b k
unfolding fill
fill-before [] limit i b k n = refl
fill-before (c ∷ cstr) limit i b k n = elim (Bool-cases (ltb i limit)) [
  | inl more ↦
      let other : write b i c k ≡ b k = ground arith in
      rw (more) (fill-before cstr limit (suc i) (write b i c) k (omega arith) ∙ other)
  | inr full ↦ rw (full) refl
]

pub fill-bytes :
    (cstr : List ℕ) (limit i : ℕ) (b : ℕ → ℕ) (k : ℕ)
    → k < length cstr
    → i + k < limit
    → (fill cstr limit i b).0 (i + k) ≡ get_or cstr k 0
unfolding fill
fill-bytes [] limit i b k n m = absurd (omega arith)
fill-bytes (c ∷ cstr) limit i b zero n m =
    let more : ltb i limit ≡ true = ground arith in
    let same : i + 0 ≡ i = omega arith in
    let here : write b i c i ≡ c = ground arith in
    rw (more, same) (fill-before cstr limit (suc i) (write b i c) i (omega arith) ∙ here)
fill-bytes (c ∷ cstr) limit i b (suc k) n m =
    let more : ltb i limit ≡ true = ground arith in
    let next : i + suc k ≡ suc i + k = omega arith in
    rw (more, next) (fill-bytes cstr limit (suc i) (write b i c) k (omega arith) (omega arith))
