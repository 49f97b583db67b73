-- ===== src/Prelude/Bits.antt =====
-- Masks, shifts and disjoint unions of bits at variables, from the digit recursion that the
-- native operations stand for.
use Prim.Native.Nat.{
  ℕ, zero, suc, ◌+◌, ◌*◌, ◌/◌, ◌%◌, ◌^◌, ◌≤◌, ◌<◌, min, max, bit_and, bit_or, digits,
  bit_and-bitwise, bit_or-bitwise,
}
use mathlib.Core.Path.{◌≡◌, refl, ap}
use native.Mathlib.Nat.{pow-suc}
use native.Mathlib.Omega.{arith}

-- Both operations are one recursion, on a count of the digits to go: `last b` is what is left once the
-- first number has run out, `low` joins two digits.
module _ (last : ℕ → ℕ) (low : ℕ → ℕ → ℕ) where
  run_out : (count b : ℕ) → digits last low count 0 b ≡ last b
  run_out zero b = refl
  run_out (suc count) b = refl

  -- Any count will do that is no less than the first number.
  any_count :
      (bound x y : ℕ)
      → x ≤ bound
      → (i j : ℕ) → x ≤ i
      → x ≤ j
      → digits last low i x y ≡ digits last low j x y
  any_count bound zero y p i j q r = omega (arith, run_out i y, run_out j y)
  any_count (suc bound) (suc x) y p (suc i) (suc j) q r =
      let half : suc x / 2 ≤ x = omega arith in
      let rest =
        any_count bound (suc x / 2) (y / 2) (omega arith) i j (omega arith) (omega arith) in
      omega (arith, rest)
  any_count zero (suc x) y p i j q r = absurd (omega arith)
  any_count (suc bound) (suc x) y p zero j q r = absurd (omega arith)
  any_count (suc bound) (suc x) y p (suc i) zero q r = absurd (omega arith)

  lowest_digit :
      (x y : ℕ)
      → digits last low (suc x) (suc x) y
        ≡ digits last low (suc x / 2) (suc x / 2) (y / 2) * 2 + low (suc x % 2) (y % 2)
  lowest_digit x y = omega (
    arith,
    any_count x (suc x / 2) (y / 2) (omega arith) x (suc x / 2) (omega arith) (omega arith),
  )

pub bit_and_step : (x y : ℕ) → bit_and x y ≡ min (x % 2) (y % 2) + 2 * bit_and (x / 2) (y / 2)
bit_and_step zero y = omega (arith, bit_and-bitwise 0 y, bit_and-bitwise 0 (y / 2))
bit_and_step (suc x) y =
    let here = bit_and-bitwise (suc x) y in
    let there = bit_and-bitwise (suc x / 2) (y / 2) in
    omega (arith, here, there, lowest_digit (λ t. zero) min x y)

pub bit_or_step : (x y : ℕ) → bit_or x y ≡ max (x % 2) (y % 2) + 2 * bit_or (x / 2) (y / 2)
bit_or_step zero y = omega (arith, bit_or-bitwise 0 y, bit_or-bitwise 0 (y / 2))
bit_or_step (suc x) y =
    let here = bit_or-bitwise (suc x) y in
    let there = bit_or-bitwise (suc x / 2) (y / 2) in
    omega (arith, here, there, lowest_digit (λ t. t) max x y)

-- With zero there is nothing in common and nothing to add.
with_zero : (bound x : ℕ) → x ≤ bound → (bit_and x 0 ≡ 0) × (bit_or x 0 ≡ x)
with_zero bound zero p = (refl, refl)
with_zero (suc bound) (suc x) p =
    let (none, same) = with_zero bound (suc x / 2) (omega arith) in
    (omega (arith, bit_and_step (suc x) 0, none), omega (arith, bit_or_step (suc x) 0, same))
with_zero zero (suc x) p = absurd (omega arith)

pub bit_and-zero : (x : ℕ) → bit_and x 0 ≡ 0
bit_and-zero x = (with_zero x x (omega arith)).0

pub bit_or-zero : (x : ℕ) → bit_or x 0 ≡ x
bit_or-zero x = (with_zero x x (omega arith)).1

-- `a & (2^k - 1)` is the remainder by `2^k`, for the masks that the code uses.
pub mask_1 : (a : ℕ) → bit_and a 0x01 ≡ a % 2
mask_1 a = omega (arith, bit_and_step a 1, bit_and-zero (a / 2))

pub mask_2 : (a : ℕ) → bit_and a 0x03 ≡ a % 4
mask_2 a = omega (arith, bit_and_step a 3, mask_1 (a / 2))

pub mask_3 : (a : ℕ) → bit_and a 0x07 ≡ a % 8
mask_3 a = omega (arith, bit_and_step a 7, mask_2 (a / 2))

pub mask_4 : (a : ℕ) → bit_and a 0x0f ≡ a % 16
mask_4 a = omega (arith, bit_and_step a 15, mask_3 (a / 2))

pub mask_5 : (a : ℕ) → bit_and a 0x1f ≡ a % 32
mask_5 a = omega (arith, bit_and_step a 31, mask_4 (a / 2))

pub mask_6 : (a : ℕ) → bit_and a 0x3f ≡ a % 64
mask_6 a = omega (arith, bit_and_step a 63, mask_5 (a / 2))

pub mask_7 : (a : ℕ) → bit_and a 0x7f ≡ a % 128
mask_7 a = omega (arith, bit_and_step a 127, mask_6 (a / 2))

-- A shifted number and one that fits below the shift share no bit: their union is their sum.
pub or_disjoint : (k a b : ℕ) → b < 2 ^ k → bit_or (a * 2 ^ k) b ≡ a * 2 ^ k + b
or_disjoint zero a b h = let e : b ≡ 0 = omega arith in rw e (omega (arith, bit_or-zero (a * 1)))
or_disjoint (suc k) a b h =
    let e : a * 2 ^ suc k ≡ a * 2 ^ k * 2 = omega (arith, ap (λ (t : ℕ). a * t) (pow-suc 2 k)) in
    let half : a * 2 ^ k * 2 / 2 ≡ a * 2 ^ k = omega arith in
    let step = rw half at (bit_or_step (a * 2 ^ k * 2) b) in
    rw e (omega (arith, step, pow-suc 2 k, or_disjoint k a (b / 2) (omega (arith, pow-suc 2 k))))
