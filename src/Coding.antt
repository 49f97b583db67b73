-- ===== src/Coding.antt =====
-- src/base/base_coding.c: base 64, 32 and 16. This file has what the six functions share: how a
-- call ends, the buffer that it allocates and fills, and the alphabets.
--
-- A buffer is filled from its first byte on, with no gap, so the bytes that the loops write are a
-- list, and `finish` lays it over the memory that `base_alloc` returned. That memory may hold
-- anything. `base_alloc` is the pointer that the program sets; it stands as a parameter.
pub mod Finish
pub mod Alphabet
pub mod Endings
pub mod Base16
pub mod Base32
pub mod Base64
mod Tests
use Prim.Native.Char.{code}
use Prim.Native.String.{String}
use forfun.Prelude.{
  ℕ, zero, suc, ◌+◌, ◌*◌, ◌/◌, ◌%◌, ◌^◌, ◌<◌, ◌≡◌, refl, Bool, true, false, Option, none, some,
  arith, List, [], ◌∷◌, length, if◌then◌else◌, not, ◌==◌,
}

pub data CodingError : Type 0 where
  invalid_len : CodingError
  invalid_byte : CodingError
  out_of_memory : CodingError

-- `null` is a NULL result with no error recorded, `err e` a NULL result with `e` recorded, and
-- `fault` a write behind the end of the buffer, which C leaves undefined.
pub data Outcome (A : Type 0) : Type 0 where
  ok : A → Outcome A
  null : Outcome A
  err : CodingError → Outcome A
  fault : Outcome A

infixl 5 ◌>>=◌ ◌>>◌
abbrev pub ◌>>=◌ : {A B : Type 0} → Outcome A → (A → Outcome B) → Outcome B
ok a >>= f = f a
null >>= f = null
err e >>= f = err e
fault >>= f = fault

abbrev pub ◌>>◌ : {B : Type 0} → Outcome (Unit {0}) → Outcome B → Outcome B
m >> k = m >>= λ _. k

-- A chain that ends well, from its last step back.
pub first_step :
    {A B : Type 0} {last : B} (step : Outcome A) {next : A → Outcome B}
    → (step >>= next) ≡ ok last
    → (value : A) × (step ≡ ok value) × (next value ≡ ok last)
first_step fault all_well = cc
first_step null all_well = cc
first_step (err e) all_well = cc
first_step (ok value) all_well = (value, refl, all_well)

-- The macro GET_BASE_CODE: a byte outside the alphabet ends the call.
abbrev pub get_base_code : Option ℕ → Outcome ℕ
get_base_code (some c) = ok c
get_base_code none = err invalid_byte

abbrev pub allocated : Option (List ℕ) → Outcome (List ℕ)
allocated (some m) = ok m
allocated none = err out_of_memory

pub get_base_code-eq-ok : (o : Option ℕ) {c : ℕ} → get_base_code o ≡ ok c → o ≡ some c
get_base_code-eq-ok (some c) h = ground arith
get_base_code-eq-ok none h = cc

pub allocated-eq-ok : (o : Option (List ℕ)) {m : List ℕ} → allocated o ≡ ok m → o ≡ some m
allocated-eq-ok (some m) h = ground arith
allocated-eq-ok none h = cc

-- The written bytes over the memory.
pub overlay : List ℕ → List ℕ → Outcome (List ℕ)
overlay [] m = ok m
overlay (x ∷ xs) [] = fault
overlay (x ∷ xs) (y ∷ m) = overlay xs m >>= λ r. ok (x ∷ r)

-- `buf[i] = v`
pub store : List ℕ → ℕ → ℕ → Outcome (List ℕ)
store [] i v = fault
store (x ∷ m) zero v = ok (v ∷ m)
store (x ∷ m) (suc i) v = store m i v >>= λ r. ok (x ∷ r)

-- The written bytes, and the terminator at index `len`.
unfoldable pub finish : List ℕ → ℕ → List ℕ → Outcome (List ℕ)
unfolding overlay store
finish out len m = overlay out m >>= λ buf. store buf len 0

-- `(byte)(x << k)`, `x >> k` and `x | y`
abbrev pub shl : ℕ → ℕ → ℕ
shl x k = x * 2 ^ k % 256

abbrev pub shr : ℕ → ℕ → ℕ
shr x k = x / 2 ^ k

abbrev pub is_digit : Option ℕ → Bool
is_digit none = false
is_digit (some c) = true

abbrev pub IsByte : ℕ → Type 0
IsByte b = b < 256

-- What the program relies on in the pointer that it sets: memory of the size that it asks for.
abbrev pub IsAlloc : (ℕ → Option (List ℕ)) → Type 0
IsAlloc base_alloc = (n : ℕ) (m : List ℕ) → base_alloc n ≡ some m → length m ≡ n

-- The characters of an alphabet.
abbrev pub codes : String → List ℕ
codes String.[] = []
codes (String.◌∷◌ c s) = code c ∷ codes s

-- The byte '='.
abbrev pub base_padding : ℕ
base_padding = b'='

-- The loop that wants nothing but padding in what is left.
unfoldable pub check_padding : List ℕ → Outcome (Unit {0})
check_padding [] = ok tt
check_padding (b ∷ src) =
    let rest = check_padding src in if not (b == base_padding) then err invalid_byte else rest
