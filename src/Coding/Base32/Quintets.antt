-- ===== src/Coding/Base32/Quintets.antt =====
-- Five bytes and eight digits of five bits are the same 40 bits, in the arithmetic of the code.
use forfun.Prelude.{
  ℕ, ◌+◌, ◌*◌, ◌/◌, ◌%◌, ◌^◌, ◌<◌, ◌≡◌, ◌≢◌, refl, some, ◌==◌, false, arith, every_below, bit_and,
  bit_or,
}
use forfun.Prelude.Bits.{mask_1, mask_2, mask_3, mask_4, or_disjoint}
use forfun.Coding.{shl, shr, base_padding}
use forfun.Coding.Alphabet.{base-table}
use forfun.Coding.Base32.{base32_table, digit32, get_base32_base}

-- Every digit is read back from its character.
pub base32_digit : (x : ℕ) → x < 32 → get_base32_base (digit32 x) ≡ some x
unfolding get_base32_base every_below
base32_digit = base-table get_base32_base base32_table 32 refl

digit32-ne-padding : (x : ℕ) → x < 32 → digit32 x ≢ base_padding
unfolding get_base32_base
digit32-ne-padding x h e = let d = rw e at (base32_digit x h) in cc

-- No digit looks like padding.
pub digit32_kept : (x : ℕ) → x < 32 → (digit32 x == base_padding) ≡ false
digit32_kept x h = ground (arith, digit32-ne-padding x h)

-- The digits that span two bytes, and those that do not, as numbers.
module _ (a b : ℕ) (hb : b < 256) where
  pub span_1 : bit_or (bit_and a 0x07 * 2 ^ 2) (shr b 6) ≡ a % 8 * 4 + b / 64
  span_1 = rw (mask_3 a) (or_disjoint 2 (a % 8) (b / 64) (omega arith))

  pub span_3 : bit_or (bit_and a 0x01 * 2 ^ 4) (shr b 4) ≡ a % 2 * 16 + b / 16
  span_3 = rw (mask_1 a) (or_disjoint 4 (a % 2) (b / 16) (omega arith))

  pub span_4 : bit_or (bit_and a 0x0f * 2 ^ 1) (shr b 7) ≡ a % 16 * 2 + b / 128
  span_4 = rw (mask_4 a) (or_disjoint 1 (a % 16) (b / 128) (omega arith))

  pub span_6 : bit_or (bit_and a 0x03 * 2 ^ 3) (shr b 5) ≡ a % 4 * 8 + b / 32
  span_6 = rw (mask_2 a) (or_disjoint 3 (a % 4) (b / 32) (omega arith))

module _ (c0 c1 : ℕ) where
  pub byte_0 : c0 < 32 → c1 < 32 → bit_or (shl c0 3) (shr c1 2) ≡ c0 * 8 + c1 / 4
  byte_0 h0 h1 =
      let e : shl c0 3 ≡ c0 * 8 = omega arith in rw e (or_disjoint 3 c0 (c1 / 4) (omega arith))

  pub byte_2 : c1 < 32 → bit_or (shl c0 4) (shr c1 1) ≡ c0 % 16 * 16 + c1 / 2
  byte_2 h1 =
      let e : shl c0 4 ≡ c0 % 16 * 16 = omega arith in
      rw e (or_disjoint 4 (c0 % 16) (c1 / 2) (omega arith))

  pub byte_4 : c1 < 32 → bit_or (shl c0 5) c1 ≡ c0 % 8 * 32 + c1
  byte_4 h1 = let e : shl c0 5 ≡ c0 % 8 * 32 = omega arith in rw e (or_disjoint 5 (c0 % 8) c1 h1)

module _ (c0 c1 c2 : ℕ) (h1 : c1 < 32) (h2 : c2 < 32) where
  pub byte_1 : bit_or (bit_or (shl c0 6) (shl c1 1)) (shr c2 4) ≡ c0 % 4 * 64 + c1 * 2 + c2 / 16
  byte_1 =
      let e : shl c0 6 ≡ c0 % 4 * 64 = omega arith in
      let f : shl c1 1 ≡ c1 * 2 = omega arith in
      let g : c0 % 4 * 64 + c1 * 2 ≡ (c0 % 4 * 32 + c1) * 2 = omega arith in
      rw (e, f, or_disjoint 6 (c0 % 4) (c1 * 2) (omega arith), g)
        (omega (arith, or_disjoint 1 (c0 % 4 * 32 + c1) (c2 / 16) (omega arith)))

  pub byte_3 : bit_or (bit_or (shl c0 7) (shl c1 2)) (shr c2 3) ≡ c0 % 2 * 128 + c1 * 4 + c2 / 8
  byte_3 =
      let e : shl c0 7 ≡ c0 % 2 * 128 = omega arith in
      let f : shl c1 2 ≡ c1 * 4 = omega arith in
      let g : c0 % 2 * 128 + c1 * 4 ≡ (c0 % 2 * 32 + c1) * 4 = omega arith in
      rw (e, f, or_disjoint 7 (c0 % 2) (c1 * 4) (omega arith), g)
        (omega (arith, or_disjoint 2 (c0 % 2 * 32 + c1) (c2 / 8) (omega arith)))
