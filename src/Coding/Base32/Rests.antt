-- ===== src/Coding/Base32/Rests.antt =====
-- Decoding the characters of the one to four bytes behind the last whole group.
use forfun.Prelude.{ℕ, ◌*◌, ◌/◌, ◌%◌, ◌<◌, ◌≡◌, refl, ◌∙◌, [], ◌∷◌, arith, bit_or}
use forfun.Prelude.Bits.{mask_1, mask_2, mask_3, mask_4, mask_6, mask_7}
use forfun.Coding.{ok, shl, shr}
use forfun.Coding.Base32.{encode32_tail, decode32_loop}
use forfun.Coding.Base32.Quintets.{
  base32_digit, digit32_kept, span_1, span_3, span_4, byte_0, byte_1, byte_2, byte_3,
}
use forfun.Coding.Base32.Groups.{q1, q3, q4, join_0, join_1, join_2}

-- One to four bytes left over: what is cut off is zero.
module _ (a b c d : ℕ) (ha : a < 256) (hb : b < 256) (hc : c < 256) (hd : d < 256) where
  pub decode32_tail_1 : decode32_loop (encode32_tail (a ∷ [])) ≡ ok (a ∷ 0 ∷ 0 ∷ [])
  unfolding decode32_loop encode32_tail
  decode32_tail_1 =
      let join : bit_or (shl (a / 8) 3) (shr (a % 8 * 4) 2) ≡ a =
        byte_0 (a / 8) (a % 8 * 4) (omega arith) (omega arith) ∙ omega arith in
      let cut : shl (a % 8 * 4) 6 ≡ 0 = omega arith in
      rw
        (
          mask_3 a,
          base32_digit (a / 8) (omega arith),
          base32_digit (a % 8 * 4) (omega arith),
          join,
          cut,
        )
        refl

  pub decode32_tail_2 : decode32_loop (encode32_tail (a ∷ b ∷ [])) ≡ ok (a ∷ b ∷ 0 ∷ 0 ∷ [])
  unfolding decode32_loop encode32_tail
  decode32_tail_2 =
      let join : bit_or (bit_or (shl (q1 a b) 6) (shl (b % 64 / 2) 1)) (shr (b % 2 * 16) 4) ≡ b =
        byte_1 (q1 a b) (b % 64 / 2) (b % 2 * 16) (omega arith) (omega arith) ∙ omega arith in
      let cut : shl (b % 2 * 16) 4 ≡ 0 = omega arith in
      rw
        (
          span_1 a b hb,
          mask_6 b,
          mask_1 b,
          base32_digit (a / 8) (omega arith),
          base32_digit (q1 a b) (omega arith),
          base32_digit (b % 64 / 2) (omega arith),
          base32_digit (b % 2 * 16) (omega arith),
          digit32_kept (b % 64 / 2) (omega arith),
          join_0 a b 0 0 0 ha hb (omega arith) (omega arith) (omega arith),
          join,
          cut,
        )
        refl

  pub decode32_tail_3 : decode32_loop (encode32_tail (a ∷ b ∷ c ∷ [])) ≡ ok (a ∷ b ∷ c ∷ 0 ∷ 0 ∷ [])
  unfolding decode32_loop encode32_tail
  decode32_tail_3 =
      let join : bit_or (shl (q3 b c) 4) (shr (c % 16 * 2) 1) ≡ c =
        byte_2 (q3 b c) (c % 16 * 2) (omega arith) ∙ omega arith in
      let cut : shl (c % 16 * 2) 7 ≡ 0 = omega arith in
      rw
        (
          span_1 a b hb,
          mask_6 b,
          span_3 b c hc,
          mask_4 c,
          base32_digit (a / 8) (omega arith),
          base32_digit (q1 a b) (omega arith),
          base32_digit (b % 64 / 2) (omega arith),
          base32_digit (q3 b c) (omega arith),
          base32_digit (c % 16 * 2) (omega arith),
          digit32_kept (b % 64 / 2) (omega arith),
          digit32_kept (c % 16 * 2) (omega arith),
          join_0 a b 0 0 0 ha hb (omega arith) (omega arith) (omega arith),
          join_1 a b c 0 0 ha hb hc (omega arith) (omega arith),
          join,
          cut,
        )
        refl

  pub decode32_tail_4 :
      decode32_loop (encode32_tail (a ∷ b ∷ c ∷ d ∷ [])) ≡ ok (a ∷ b ∷ c ∷ d ∷ 0 ∷ 0 ∷ [])
  unfolding decode32_loop encode32_tail
  decode32_tail_4 =
      let join : bit_or (bit_or (shl (q4 c d) 7) (shl (d % 128 / 4) 2)) (shr (d % 4 * 8) 3) ≡ d =
        byte_3 (q4 c d) (d % 128 / 4) (d % 4 * 8) (omega arith) (omega arith) ∙ omega arith in
      let cut : shl (d % 4 * 8) 5 ≡ 0 = omega arith in
      rw
        (
          span_1 a b hb,
          mask_6 b,
          span_3 b c hc,
          span_4 c d hd,
          mask_7 d,
          mask_2 d,
          base32_digit (a / 8) (omega arith),
          base32_digit (q1 a b) (omega arith),
          base32_digit (b % 64 / 2) (omega arith),
          base32_digit (q3 b c) (omega arith),
          base32_digit (q4 c d) (omega arith),
          base32_digit (d % 128 / 4) (omega arith),
          base32_digit (d % 4 * 8) (omega arith),
          digit32_kept (b % 64 / 2) (omega arith),
          digit32_kept (q4 c d) (omega arith),
          digit32_kept (d % 128 / 4) (omega arith),
          join_0 a b 0 0 0 ha hb (omega arith) (omega arith) (omega arith),
          join_1 a b c 0 0 ha hb hc (omega arith) (omega arith),
          join_2 a b c d 0 ha hb hc hd (omega arith),
          join,
          cut,
        )
        refl
