-- ===== src/Coding/Base64/RoundTrip.antt =====
-- Decoding what base64_encode wrote.
use forfun.Prelude.{
  ℕ, ◌+◌, ◌*◌, ◌/◌, ◌%◌, ◌^◌, ◌≤◌, ◌<◌, ◌≡◌, refl, ◌∙◌, Option, some, List, [], ◌∷◌, ◌++◌, length,
  All, arith, ==_refl, bit_and, bit_or,
}
use forfun.Prelude.Bits.{mask_2, mask_4, mask_6}
use forfun.Coding.{ok, IsByte, IsAlloc, ◌>>=◌, shl, shr}
use forfun.Coding.Finish.{finish_full, finish_string}
use forfun.Coding.Base64.{
  digit64, encode64_loop, encode64_tail, base64_encode, decode64_last, decode64_loop, base64_decode,
}
use forfun.Coding.Base64.Sextets.{
  base64_digit, digit64_kept, digit_1, digit_2, byte_0, byte_1, byte_2,
}

module _ (a b c : ℕ) (ha : a < 256) (hb : b < 256) (hc : c < 256) where
  -- A whole group that is not the last.
  decode64_group :
      (e : ℕ) (rest : List ℕ)
      → decode64_loop (
          digit64 (shr a 2)
          ∷ digit64 (bit_or (bit_and a 0x03 * 2 ^ 4) (shr b 4))
          ∷ digit64 (bit_or (bit_and b 0x0f * 2 ^ 2) (shr c 6))
          ∷ digit64 (bit_and c 0x3f)
          ∷ e
          ∷ rest)
        ≡ (decode64_loop (e ∷ rest) >>= λ out. ok (a ∷ b ∷ c ∷ out))
  unfolding decode64_loop
  decode64_group e rest =
      let d1 = a % 4 * 16 + b / 16 in
      let d2 = b % 16 * 4 + c / 64 in
      let e0 : shr a 2 * 4 + d1 / 16 ≡ a = omega arith in
      let e1 : d1 % 16 * 16 + d2 / 4 ≡ b = omega arith in
      let e2 : d2 % 4 * 64 + c % 64 ≡ c = omega arith in
      rw
        (
          digit_1 a b c hb,
          digit_2 a b c hc,
          mask_6 c,
          base64_digit (shr a 2) (omega arith),
          base64_digit d1 (omega arith),
          base64_digit d2 (omega arith),
          base64_digit (c % 64) (omega arith),
          byte_0 (shr a 2) d1 d2 (c % 64) (omega arith) (omega arith),
          byte_1 (shr a 2) d1 d2 (c % 64) (omega arith),
          byte_2 (shr a 2) d1 d2 (c % 64) (omega arith),
          e0,
          e1,
          e2,
        )
        refl

  -- A whole group that is the last.
  decode64_last_whole :
      decode64_last
        (digit64 (shr a 2))
        (digit64 (bit_or (bit_and a 0x03 * 2 ^ 4) (shr b 4)))
        (digit64 (bit_or (bit_and b 0x0f * 2 ^ 2) (shr c 6)))
        (digit64 (bit_and c 0x3f))
      ≡ ok (a ∷ b ∷ c ∷ 0 ∷ [])
  unfolding decode64_last
  decode64_last_whole =
      let d1 = a % 4 * 16 + b / 16 in
      let d2 = b % 16 * 4 + c / 64 in
      let e0 : shr a 2 * 4 + d1 / 16 ≡ a = omega arith in
      let e1 : d1 % 16 * 16 + d2 / 4 ≡ b = omega arith in
      let e2 : d2 % 4 * 64 + c % 64 ≡ c = omega arith in
      rw
        (
          digit_1 a b c hb,
          digit_2 a b c hc,
          mask_6 c,
          base64_digit (shr a 2) (omega arith),
          base64_digit d1 (omega arith),
          base64_digit d2 (omega arith),
          base64_digit (c % 64) (omega arith),
          digit64_kept d2 (omega arith),
          digit64_kept (c % 64) (omega arith),
          byte_0 (shr a 2) d1 d2 (c % 64) (omega arith) (omega arith),
          byte_1 (shr a 2) d1 d2 (c % 64) (omega arith),
          byte_2 (shr a 2) d1 d2 (c % 64) (omega arith),
          e0,
          e1,
          e2,
        )
        refl

decode64_whole :
    (a b c : ℕ)
    → a < 256
    → b < 256
    → c < 256
    → decode64_loop (encode64_loop (a ∷ b ∷ c ∷ [])) ≡ ok (a ∷ b ∷ c ∷ 0 ∷ [])
unfolding encode64_loop decode64_loop
decode64_whole a b c ha hb hc = decode64_last_whole a b c ha hb hc

-- One byte left over: two digits and two paddings.
decode64_tail_1 : (a : ℕ) → a < 256 → decode64_loop (encode64_tail (a ∷ [])) ≡ ok (a ∷ 0 ∷ 0 ∷ [])
unfolding decode64_loop encode64_tail
decode64_tail_1 a ha =
    let d1 = a % 4 * 16 in
    let e0 : shr a 2 * 4 + d1 / 16 ≡ a = omega arith in
    let e1 : shl d1 4 ≡ 0 = omega arith in
    rw
      (
        mask_2 a,
        base64_digit (shr a 2) (omega arith),
        base64_digit d1 (omega arith),
        byte_0 (shr a 2) d1 0 0 (omega arith) (omega arith),
        e0,
        e1,
      )
      refl

-- Two bytes left over: three digits and one padding.
decode64_tail_2 :
    (a b : ℕ)
    → a < 256
    → b < 256
    → decode64_loop (encode64_tail (a ∷ b ∷ [])) ≡ ok (a ∷ b ∷ 0 ∷ 0 ∷ [])
unfolding decode64_loop encode64_tail
decode64_tail_2 a b ha hb =
    let d1 = a % 4 * 16 + b / 16 in
    let d2 = b % 16 * 4 in
    let e0 : shr a 2 * 4 + d1 / 16 ≡ a = omega arith in
    let e1 : d1 % 16 * 16 + d2 / 4 ≡ b = omega arith in
    let e2 : shl d2 6 ≡ 0 = omega arith in
    rw
      (
        digit_1 a b 0 hb,
        mask_4 b,
        base64_digit (shr a 2) (omega arith),
        base64_digit d1 (omega arith),
        base64_digit d2 (omega arith),
        digit64_kept d2 (omega arith),
        byte_0 (shr a 2) d1 d2 0 (omega arith) (omega arith),
        byte_1 (shr a 2) d1 d2 0 (omega arith),
        e0,
        e1,
        e2,
      )
      refl

-- What the decoder has written after the characters of `s`: the bytes of `s`, and zeros that fit.
abbrev Decodes : List ℕ → List ℕ → Type 0
Decodes s chars =
    (zs : List ℕ) × (decode64_loop chars ≡ ok (s ++ 0 ∷ zs))
    × (length (s ++ 0 ∷ zs) ≤ (length s + 2) / 3 * 3 + 1)

-- A group in front.
Decodes-group :
    (a b c e : ℕ) (s rest : List ℕ)
    → a < 256
    → b < 256
    → c < 256
    → encode64_loop s ≡ e ∷ rest
    → Decodes s (encode64_loop s)
    → Decodes (a ∷ b ∷ c ∷ s) (encode64_loop (a ∷ b ∷ c ∷ s))
unfolding encode64_loop
Decodes-group a b c e s rest ha hb hc shape (zs, d, fits) =
    let g = decode64_group a b c ha hb hc e rest in
    (zs, rw shape (g ∙ rw (rw shape at d) refl), omega arith)

decode64_loop-encode64_loop :
    (a : ℕ) (s : List ℕ) → All IsByte (a ∷ s) → Decodes (a ∷ s) (encode64_loop (a ∷ s))
unfolding encode64_loop
decode64_loop-encode64_loop a [] h = (0 ∷ [], decode64_tail_1 a h.0, omega arith)
decode64_loop-encode64_loop a (b ∷ []) h = (0 ∷ [], decode64_tail_2 a b h.0 h.1.0, omega arith)
decode64_loop-encode64_loop a (b ∷ c ∷ []) h =
    ([], decode64_whole a b c h.0 h.1.0 h.1.1.0, omega arith)
decode64_loop-encode64_loop a (b ∷ c ∷ d ∷ []) h =
    Decodes-group a b c _ (d ∷ []) _ h.0 h.1.0 h.1.1.0 refl
      (decode64_loop-encode64_loop d [] h.1.1.1)
decode64_loop-encode64_loop a (b ∷ c ∷ d ∷ e ∷ []) h =
    Decodes-group a b c _ (d ∷ e ∷ []) _ h.0 h.1.0 h.1.1.0 refl
      (decode64_loop-encode64_loop d (e ∷ []) h.1.1.1)
decode64_loop-encode64_loop a (b ∷ c ∷ d ∷ e ∷ f ∷ s) h =
    Decodes-group a b c _ (d ∷ e ∷ f ∷ s) _ h.0 h.1.0 h.1.1.0 refl
      (decode64_loop-encode64_loop d (e ∷ f ∷ s) h.1.1.1)

pub length-encode64_loop : (s : List ℕ) → length (encode64_loop s) ≡ (length s + 2) / 3 * 4
unfolding encode64_loop
length-encode64_loop [] = refl
length-encode64_loop (a ∷ []) = refl
length-encode64_loop (a ∷ b ∷ []) = refl
length-encode64_loop (a ∷ b ∷ c ∷ s) = omega (arith, length-encode64_loop s)

encode64_loop-nil : encode64_loop [] ≡ []
unfolding encode64_loop
encode64_loop-nil = refl

decode64_loop-nil : decode64_loop [] ≡ ok []
unfolding decode64_loop
decode64_loop-nil = refl

-- Given memory of the two sizes that are asked for, base64_encode of any bytes returns a terminated
-- string, and base64_decode of that string returns a buffer that begins with the bytes and a zero.
pub base64_decode-encode :
    (base_alloc : ℕ → Option (List ℕ)) (src m m' : List ℕ)
    → IsAlloc base_alloc
    → All IsByte src
    → base_alloc ((length src + 2) / 3 * 4 + 1) ≡ some m
    → base_alloc ((length src + 2) / 3 * 3 + 1) ≡ some m'
    → (chars rest : List ℕ) × (base64_encode base_alloc (some src) ≡ ok (chars ++ 0 ∷ []))
      × (base64_decode base_alloc (some chars) ≡ ok (src ++ 0 ∷ rest))
unfolding base64_encode base64_decode
base64_decode-encode base_alloc [] m m' alloc bytes e e' = (
  [],
  [],
  simp (e, encode64_loop-nil, finish_full [] m 0 refl (alloc _ m e)) refl,
  simp (e', decode64_loop-nil, finish_full [] m' 0 refl (alloc _ m' e')) refl,
)
base64_decode-encode base_alloc (a ∷ s) m m' alloc bytes e e' =
    let n = (length (a ∷ s) + 2) / 3 in
    let len = length-encode64_loop (a ∷ s) in
    let quarter : n * 4 / 4 ≡ n = omega arith in
    let (zs, d, fits) = decode64_loop-encode64_loop a s bytes in
    let (rest, f) = finish_string (a ∷ s) zs m' (n * 3) fits (alloc _ m' e') in
    (
      encode64_loop (a ∷ s),
      rest,
      rw (e, finish_full (encode64_loop (a ∷ s)) m (n * 4) len (alloc _ m e)) refl,
      simp (len, quarter, ==_refl (n * 4), e', d, f) refl,
    )
