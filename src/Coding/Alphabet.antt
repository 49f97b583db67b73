-- ===== src/Coding/Alphabet.antt =====
-- The alphabets of the three codes: what encodes a digit and what reads it agree. Each fact is a
-- table over the digits or over the bytes.
use forfun.Prelude.{
  ℕ, ◌<◌, ◌≡◌, Bool, true, false, Option, none, some, List, get_or, ◌==◌, ltb, ◌&&◌, arith,
  every_below, every_below-at,
}

abbrev pub reads : Option ℕ → ℕ → Bool
reads none x = false
reads (some c) x = c == x

-- The digit of a byte, if it has one, is below `n`, and stands for that byte.
abbrev pub stands_for : ℕ → List ℕ → Option ℕ → ℕ → Bool
stands_for n table none b = true
stands_for n table (some c) b = ltb c n && get_or table c 0 == b

reads→eq : (o : Option ℕ) (x : ℕ) → reads o x ≡ true → o ≡ some x
reads→eq none x h = ground arith
reads→eq (some c) x h = ground arith

module _ (base : ℕ → Option ℕ) (table : List ℕ) (n : ℕ) where
  -- Every digit is read back.
  pub base-table :
      every_below n (λ x. reads (base (get_or table x 0)) x) ≡ true
      → (x : ℕ) → x < n
      → base (get_or table x 0) ≡ some x
  base-table h x lt = reads→eq _ x (every_below-at _ n h x lt)

  -- A byte that is read as a digit is the character of that digit.
  pub table-base :
      every_below 256 (λ b. stands_for n table (base b) b) ≡ true
      → (b c : ℕ) → b < 256
      → base b ≡ some c
      → (c < n) × (get_or table c 0 ≡ b)
  table-base h b c lt e =
      let t = every_below-at (λ b. stands_for n table (base b) b) 256 h b lt in ground arith
