-- ===== src/Coding/Base32/Groups.antt =====
-- Decoding a whole group that base32_encode wrote.
use forfun.Prelude.{ℕ, ◌+◌, ◌*◌, ◌/◌, ◌%◌, ◌<◌, ◌≡◌, refl, ◌∙◌, List, [], ◌∷◌, arith, bit_or}
use forfun.Prelude.Bits.{mask_5, mask_6, mask_7}
use forfun.Coding.{ok, ◌>>=◌, shl, shr}
use forfun.Coding.Base32.{
  digit_0, digit_1, digit_2, digit_3, digit_4, digit_5, digit_6, digit_7, encode32_loop,
  decode32_loop,
}
use forfun.Coding.Base32.Quintets.{
  base32_digit, digit32_kept, span_1, span_3, span_4, span_6, byte_0, byte_1, byte_2, byte_3,
  byte_4,
}

-- The digits, as numbers.
abbrev pub q1 : ℕ → ℕ → ℕ
q1 a b = a % 8 * 4 + b / 64

abbrev pub q3 : ℕ → ℕ → ℕ
q3 b c = b % 2 * 16 + c / 16

abbrev pub q4 : ℕ → ℕ → ℕ
q4 c d = c % 16 * 2 + d / 128

abbrev q6 : ℕ → ℕ → ℕ
q6 d e = d % 4 * 8 + e / 32

-- The bytes that the digits are put together to.
module _ (a b c d e : ℕ) (ha : a < 256) (hb : b < 256) (hc : c < 256) (hd : d < 256)
    (he : e < 256) where
  pub join_0 : bit_or (shl (a / 8) 3) (shr (q1 a b) 2) ≡ a
  join_0 = byte_0 (a / 8) (q1 a b) (omega arith) (omega arith) ∙ omega arith

  pub join_1 : bit_or (bit_or (shl (q1 a b) 6) (shl (b % 64 / 2) 1)) (shr (q3 b c) 4) ≡ b
  join_1 = byte_1 (q1 a b) (b % 64 / 2) (q3 b c) (omega arith) (omega arith) ∙ omega arith

  pub join_2 : bit_or (shl (q3 b c) 4) (shr (q4 c d) 1) ≡ c
  join_2 = byte_2 (q3 b c) (q4 c d) (omega arith) ∙ omega arith

  join_3 : bit_or (bit_or (shl (q4 c d) 7) (shl (d % 128 / 4) 2)) (shr (q6 d e) 3) ≡ d
  join_3 = byte_3 (q4 c d) (d % 128 / 4) (q6 d e) (omega arith) (omega arith) ∙ omega arith

  join_4 : bit_or (shl (q6 d e) 5) (e % 32) ≡ e
  join_4 = byte_4 (q6 d e) (e % 32) (omega arith) ∙ omega arith

  -- A whole group that is not the last.
  pub decode32_group :
      (i : ℕ) (rest : List ℕ)
      → decode32_loop (
          digit_0 a
          ∷ digit_1 a b
          ∷ digit_2 b
          ∷ digit_3 b c
          ∷ digit_4 c d
          ∷ digit_5 d
          ∷ digit_6 d e
          ∷ digit_7 e
          ∷ i
          ∷ rest)
        ≡ (decode32_loop (i ∷ rest) >>= λ out. ok (a ∷ b ∷ c ∷ d ∷ e ∷ out))
  unfolding decode32_loop
  decode32_group i rest =
      rw
        (
          span_1 a b hb,
          mask_6 b,
          span_3 b c hc,
          span_4 c d hd,
          mask_7 d,
          span_6 d e he,
          mask_5 e,
          base32_digit (a / 8) (omega arith),
          base32_digit (q1 a b) (omega arith),
          base32_digit (b % 64 / 2) (omega arith),
          base32_digit (q3 b c) (omega arith),
          base32_digit (q4 c d) (omega arith),
          base32_digit (d % 128 / 4) (omega arith),
          base32_digit (q6 d e) (omega arith),
          base32_digit (e % 32) (omega arith),
          join_0,
          join_1,
          join_2,
          join_3,
          join_4,
        )
        refl

  -- A whole group that is the last.
  pub decode32_whole :
      decode32_loop (encode32_loop (a ∷ b ∷ c ∷ d ∷ e ∷ [])) ≡ ok (a ∷ b ∷ c ∷ d ∷ e ∷ 0 ∷ [])
  unfolding encode32_loop decode32_loop
  decode32_whole =
      rw
        (
          span_1 a b hb,
          mask_6 b,
          span_3 b c hc,
          span_4 c d hd,
          mask_7 d,
          span_6 d e he,
          mask_5 e,
          base32_digit (a / 8) (omega arith),
          base32_digit (q1 a b) (omega arith),
          base32_digit (b % 64 / 2) (omega arith),
          base32_digit (q3 b c) (omega arith),
          base32_digit (q4 c d) (omega arith),
          base32_digit (d % 128 / 4) (omega arith),
          base32_digit (q6 d e) (omega arith),
          base32_digit (e % 32) (omega arith),
          digit32_kept (b % 64 / 2) (omega arith),
          digit32_kept (q4 c d) (omega arith),
          digit32_kept (d % 128 / 4) (omega arith),
          digit32_kept (e % 32) (omega arith),
          join_0,
          join_1,
          join_2,
          join_3,
          join_4,
        )
        refl
