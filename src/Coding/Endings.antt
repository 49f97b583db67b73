-- ===== src/Coding/Endings.antt =====
-- Rules for the ends of the decoders: a call ends well exactly if a test of its text passes.
use forfun.Prelude.{
  ℕ, ◌+◌, ◌≤◌, ◌≡◌, refl, Bool, true, false, ◌&&◌, Option, none, some, List, [], ◌∷◌, length, ◌==◌,
  if◌then◌else◌, not, ◌⊎◌, inl, inr,
}
use forfun.Coding.{
  Outcome, ok, err, ◌>>=◌, ◌>>◌, invalid_byte, get_base_code, is_digit, base_padding, check_padding,
  finish,
}
use forfun.Coding.Finish.{finish_fits}

-- The end well, with at most `n` bytes written, for a good text, and with an error for a bad one.
pub data Ends (n : ℕ) : Bool → Outcome (List ℕ) → Type 0 where
  ends_ok : {out : List ℕ} → length out ≤ n → Ends n true (ok out)
  ends_err : Ends n false (err invalid_byte)

abbrev pub is_padding : ℕ → Bool
is_padding b = b == base_padding

abbrev pub all_padding : List ℕ → Bool
all_padding [] = true
all_padding (b ∷ src) = is_padding b && all_padding src

module _ {n : ℕ} where
  -- GET_BASE_CODE.
  pub Ends-code :
      {good : Bool} {k : ℕ → Outcome (List ℕ)} (o : Option ℕ)
      → ((c : ℕ) → Ends n good (k c))
      → Ends n (is_digit o && good) (get_base_code o >>= k)
  Ends-code none f = ends_err
  Ends-code (some c) f = f c

  pub Ends-if :
      {good bad : Bool} {x y : Outcome (List ℕ)} (t : Bool)
      → Ends n good x
      → Ends n bad y
      → Ends n (if t then good else bad) (if t then x else y)
  Ends-if true p q = p
  Ends-if false p q = q

  pub Ends-padding :
      (src out : List ℕ) → length out ≤ n → Ends n (all_padding src) (check_padding src >> ok out)
  unfolding check_padding
  Ends-padding [] out h = ends_ok h
  Ends-padding (b ∷ src) out h = step (is_padding b) (check_padding src) (Ends-padding src out h)
    where
      step :
          {good : Bool} (t : Bool) (r : Outcome (Unit {0}))
          → Ends n good (r >> ok out)
          → Ends n (t && good) ((if not t then err invalid_byte else r) >> ok out)
      step true r e = e
      step false r e = ends_err

  -- Bytes in front of those of a rest.
  pub Ends-more :
      {k : ℕ} {good : Bool} {r : Outcome (List ℕ)} (pre : List ℕ → List ℕ)
      → ((out : List ℕ) → length out ≤ k → length (pre out) ≤ n)
      → Ends k good r
      → Ends n good (r >>= λ out. ok (pre out))
  Ends-more pre h (ends_ok l) = ends_ok (h _ l)
  Ends-more pre h ends_err = ends_err

-- The buffer takes the bytes that a good text decodes to.
pub settle :
    (good : Bool) (n : ℕ) (m : List ℕ) (r : Outcome (List ℕ))
    → length m ≡ n + 1
    → Ends (n + 1) good r
    → ((good ≡ false) × ((r >>= λ out. finish out n m) ≡ err invalid_byte))
      ⊎ ((good ≡ true)
          × ((buf : List ℕ) × ((r >>= λ out. finish out n m) ≡ ok buf) × (length buf ≡ n + 1)))
settle _ n m _ size (ends_ok l) = inr (refl, finish_fits _ m n l size)
settle _ n m _ size ends_err = inl (refl, refl)
