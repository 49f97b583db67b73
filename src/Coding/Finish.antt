-- ===== src/Coding/Finish.antt =====
-- The buffer that `finish` leaves: nothing of the allocated memory shows before the terminator.
use forfun.Prelude.{ℕ, zero, suc, ◌+◌, ◌≤◌, ◌≡◌, refl, List, [], ◌∷◌, ◌++◌, length, arith}
use forfun.Coding.{ok, finish}

-- A full buffer.
pub finish_full :
    (out m : List ℕ) (n : ℕ)
    → length out ≡ n
    → length m ≡ n + 1
    → finish out n m ≡ ok (out ++ 0 ∷ [])
unfolding finish
finish_full [] [] n p q = absurd (omega arith)
finish_full [] (y ∷ []) zero p q = refl
finish_full [] (y ∷ z ∷ m) zero p q = absurd (omega arith)
finish_full [] (y ∷ m) (suc n) p q = absurd (omega arith)
finish_full (x ∷ out) [] n p q = absurd (omega arith)
finish_full (x ∷ out) (y ∷ m) zero p q = absurd (omega arith)
finish_full (x ∷ out) (y ∷ m) (suc n) p q =
    ground (arith, finish_full out m n (omega arith) (omega arith))

-- The bytes fit, so the call ends well.
pub finish_fits :
    (out m : List ℕ) (n : ℕ)
    → length out ≤ n + 1
    → length m ≡ n + 1
    → (buf : List ℕ) × (finish out n m ≡ ok buf) × (length buf ≡ n + 1)
unfolding finish
finish_fits [] [] n p q = absurd (omega arith)
finish_fits [] (y ∷ m) zero p q = (0 ∷ m, refl, omega arith)
finish_fits [] (y ∷ m) (suc n) p q =
    let (buf, e, l) = finish_fits [] m n (omega arith) (omega arith) in
    (y ∷ buf, ground arith, omega arith)
finish_fits (x ∷ out) [] n p q = absurd (omega arith)
finish_fits (x ∷ []) (y ∷ m) zero p q = (0 ∷ m, refl, omega arith)
finish_fits (x ∷ z ∷ out) (y ∷ m) zero p q = absurd (omega arith)
finish_fits (x ∷ out) (y ∷ m) (suc n) p q =
    let (buf, e, l) = finish_fits out m n (omega arith) (omega arith) in
    (x ∷ buf, ground arith, omega arith)

-- What is written up to a zero byte is what a reader of the string sees.
pub finish_string :
    (s r m : List ℕ) (n : ℕ)
    → length (s ++ 0 ∷ r) ≤ n + 1
    → length m ≡ n + 1
    → (rest : List ℕ) × (finish (s ++ 0 ∷ r) n m ≡ ok (s ++ 0 ∷ rest))
unfolding finish
finish_string [] r [] n p q = absurd (omega arith)
finish_string [] [] (y ∷ m) zero p q = (m, refl)
finish_string [] (x ∷ r) (y ∷ m) zero p q = absurd (omega arith)
finish_string [] r (y ∷ m) (suc n) p q =
    let (buf, e, l) = finish_fits r m n (omega arith) (omega arith) in (buf, ground arith)
finish_string (x ∷ s) r [] n p q = absurd (omega arith)
finish_string (x ∷ []) r (y ∷ m) zero p q = absurd (omega arith)
finish_string (x ∷ z ∷ s) r (y ∷ m) zero p q = absurd (omega arith)
finish_string (x ∷ s) r (y ∷ m) (suc n) p q =
    let (rest, e) = finish_string s r m n (omega arith) (omega arith) in (rest, ground arith)
