-- ===== src/Coding/Base64/Sextets.antt =====
-- Three bytes and four digits of six bits are the same 24 bits, in the arithmetic of the code.
use forfun.Prelude.{
  ℕ, ◌+◌, ◌*◌, ◌/◌, ◌%◌, ◌^◌, ◌<◌, ◌≡◌, ◌≢◌, refl, some, ◌==◌, false, arith, every_below, bit_and,
  bit_or,
}
use forfun.Prelude.Bits.{mask_2, mask_4, mask_6, or_disjoint}
use forfun.Coding.{shl, shr, base_padding}
use forfun.Coding.Alphabet.{base-table}
use forfun.Coding.Base64.{base64_table, digit64, get_base64_base}

-- Every digit is read back from its character.
pub base64_digit : (x : ℕ) → x < 64 → get_base64_base (digit64 x) ≡ some x
unfolding get_base64_base every_below
base64_digit = base-table get_base64_base base64_table 64 refl

-- No digit looks like padding.
pub digit64-ne-padding : (x : ℕ) → x < 64 → digit64 x ≢ base_padding
unfolding get_base64_base
digit64-ne-padding x h e = let d = rw e at (base64_digit x h) in cc

module _ (a b c : ℕ) where
  -- The four digits, as numbers.
  pub digit_0 : a < 256 → shr a 2 < 64
  digit_0 h = omega arith

  pub digit_1 : b < 256 → bit_or (bit_and a 0x03 * 2 ^ 4) (shr b 4) ≡ a % 4 * 16 + b / 16
  digit_1 h = rw (mask_2 a) (or_disjoint 4 (a % 4) (b / 16) (omega arith))

  pub digit_2 : c < 256 → bit_or (bit_and b 0x0f * 2 ^ 2) (shr c 6) ≡ b % 16 * 4 + c / 64
  digit_2 h = rw (mask_4 b) (or_disjoint 2 (b % 16) (c / 64) (omega arith))

module _ (c0 c1 c2 c3 : ℕ) where
  -- The three bytes, as numbers.
  pub byte_0 : c0 < 64 → c1 < 64 → bit_or (shl c0 2) (shr c1 4) ≡ c0 * 4 + c1 / 16
  byte_0 h0 h1 =
      let e : shl c0 2 ≡ c0 * 4 = omega arith in rw e (or_disjoint 2 c0 (c1 / 16) (omega arith))

  pub byte_1 : c2 < 64 → bit_or (shl c1 4) (shr c2 2) ≡ c1 % 16 * 16 + c2 / 4
  byte_1 h2 =
      let e : shl c1 4 ≡ c1 % 16 * 16 = omega arith in
      rw e (or_disjoint 4 (c1 % 16) (c2 / 4) (omega arith))

  pub byte_2 : c3 < 64 → bit_or (shl c2 6) (bit_and c3 0x3f) ≡ c2 % 4 * 64 + c3
  byte_2 h3 =
      let e : shl c2 6 ≡ c2 % 4 * 64 = omega arith in
      let m : bit_and c3 0x3f ≡ c3 = omega (arith, mask_6 c3) in
      rw (e, m) (or_disjoint 6 (c2 % 4) c3 (omega arith))

pub digit64_kept : (x : ℕ) → x < 64 → (digit64 x == base_padding) ≡ false
digit64_kept x h = ground (arith, digit64-ne-padding x h)
