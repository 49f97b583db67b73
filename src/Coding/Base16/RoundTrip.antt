-- ===== src/Coding/Base16/RoundTrip.antt =====
-- base16_encode and base16_decode are inverse to one another, and no call writes outside its buffer.
use forfun.Prelude.{
  ℕ, ◌+◌, ◌*◌, ◌/◌, ◌%◌, ◌<◌, ◌≡◌, ◌≢◌, ◌⊎◌, refl, Option, none, some, List, [], ◌∷◌, ◌++◌, length,
  All, get_or, arith, Bool-cases, ◌==◌, every_below, ==_refl, bit_or, Option-cases, inl, inr,
}
use forfun.Prelude.Bits.{mask_4, or_disjoint}
use forfun.Coding.{
  ok, err, IsByte, IsAlloc, allocated, shl, first_step, invalid_byte, allocated-eq-ok,
  get_base_code, get_base_code-eq-ok,
}
use forfun.Coding.Alphabet.{base-table, table-base}
use forfun.Coding.Finish.{finish_full}
use forfun.Coding.Base16.{
  base16_table, get_base16_base, encode16_loop, base16_encode, decode16_loop, base16_decode,
}

pub base16_digit : (x : ℕ) → x < 16 → get_base16_base (get_or base16_table x 0) ≡ some x
unfolding get_base16_base every_below
base16_digit = base-table get_base16_base base16_table 16 refl

pub base16_char :
    (b c : ℕ) → b < 256 → get_base16_base b ≡ some c → (c < 16) × (get_or base16_table c 0 ≡ b)
unfolding get_base16_base every_below
base16_char = table-base get_base16_base base16_table 16 refl

-- The two digits of a byte are put together again.
join_digits : (a : ℕ) → a < 256 → bit_or (shl (a / 16) 4) (a % 16) ≡ a
join_digits a h =
    let e : shl (a / 16) 4 ≡ a / 16 * 16 = omega arith in
    rw e (omega (arith, or_disjoint 4 (a / 16) (a % 16) (omega arith)))

pub length-encode16_loop : (src : List ℕ) → length (encode16_loop src) ≡ length src * 2
unfolding encode16_loop
length-encode16_loop [] = refl
length-encode16_loop (a ∷ src) = omega (arith, length-encode16_loop src)

decode16_loop-encode16_loop :
    (src : List ℕ) → All IsByte src → decode16_loop (encode16_loop src) ≡ ok src
unfolding decode16_loop encode16_loop
decode16_loop-encode16_loop [] h = refl
decode16_loop-encode16_loop (a ∷ src) h =
    let lt = h.0 in
    rw
      (
        mask_4 a,
        base16_digit (a / 16) (omega arith),
        base16_digit (a % 16) (omega arith),
        decode16_loop-encode16_loop src h.1,
        join_digits a lt,
      )
      refl

-- Given memory of the two sizes that are asked for, base16_encode of any bytes returns a terminated
-- string, and base16_decode of that string returns the bytes, terminated.
pub base16_decode-encode :
    (base_alloc : ℕ → Option (List ℕ)) (src m m' : List ℕ)
    → IsAlloc base_alloc
    → All IsByte src
    → base_alloc (length src * 2 + 1) ≡ some m
    → base_alloc (length src + 1) ≡ some m'
    → (chars : List ℕ) × (base16_encode base_alloc (some src) ≡ ok (chars ++ 0 ∷ []))
      × (base16_decode base_alloc (some chars) ≡ ok (src ++ 0 ∷ []))
unfolding base16_encode base16_decode
base16_decode-encode base_alloc src m m' alloc bytes e e' =
    let len = length-encode16_loop src in
    let half : length src * 2 / 2 ≡ length src = omega arith in
    (
      encode16_loop src,
      rw (e, finish_full (encode16_loop src) m (length src * 2) len (alloc _ m e)) refl,
      simp
          (
            len,
            half,
            ==_refl (length src * 2),
            e',
            decode16_loop-encode16_loop src bytes,
            finish_full src m' (length src) refl (alloc _ m' e'),
          )
          refl,
    )

encode_digits :
    (c0 c1 : ℕ)
    → c0 < 16
    → c1 < 16
    → (bit_or (shl c0 4) c1 / 16 ≡ c0)
      × (bit_or (shl c0 4) c1 % 16 ≡ c1)
      × IsByte (bit_or (shl c0 4) c1)
encode_digits c0 c1 h0 h1 =
    let e : shl c0 4 ≡ c0 * 16 = omega arith in rw e (omega (arith, or_disjoint 4 c0 c1 h1))

decode16_loop_inv :
    (src out : List ℕ)
    → All IsByte src
    → decode16_loop src ≡ ok out
    → length src % 2 ≡ 0
    → (encode16_loop out ≡ src) × (length out * 2 ≡ length src) × All IsByte out
unfolding decode16_loop encode16_loop
decode16_loop_inv [] out bytes e even = ground arith
decode16_loop_inv (a ∷ []) out bytes e even = absurd (omega arith)
decode16_loop_inv (a ∷ b ∷ src) out bytes e even =
    let (c0, e0, k0) = first_step (get_base_code (get_base16_base a)) e in
    let (c1, e1, k1) = first_step (get_base_code (get_base16_base b)) k0 in
    let (rest, e2, k2) = first_step (decode16_loop src) k1 in
    let d0 = base16_char a c0 bytes.0 (get_base_code-eq-ok _ e0) in
    let d1 = base16_char b c1 bytes.1.0 (get_base_code-eq-ok _ e1) in
    let same = encode_digits c0 c1 d0.0 d1.0 in
    let ih = decode16_loop_inv src rest bytes.1.1 e2 (omega arith) in
    let head : out ≡ bit_or (shl c0 4) c1 ∷ rest = ground arith in
    rw head
      (rw (mask_4, same.0, same.1, d0.1, d1.1, ih.0) refl, omega (arith, ih.1), (same.2, ih.2))

-- Given memory for the encoder, a string of bytes that base16_decode accepts is what base16_encode
-- writes for the bytes that it was decoded to.
pub base16_encode-decode :
    (base_alloc : ℕ → Option (List ℕ)) (src buf m : List ℕ)
    → IsAlloc base_alloc
    → All IsByte src
    → base16_decode base_alloc (some src) ≡ ok buf
    → base_alloc (length src + 1) ≡ some m
    → (out : List ℕ) × (buf ≡ out ++ 0 ∷ [])
      × (base16_encode base_alloc (some out) ≡ ok (src ++ 0 ∷ []))
unfolding base16_encode base16_decode
base16_encode-decode base_alloc src buf m alloc bytes e em =
    elim (Bool-cases (length src / 2 * 2 == length src)) [
      | inl even ↦
          let k = rw even at e in
          let (m', a, k0) = first_step (allocated (base_alloc (length src / 2 + 1))) k in
          let (out, d, k1) = first_step (decode16_loop src) k0 in
          let (same, len, digits) = decode16_loop_inv src out bytes d (ground arith) in
          let size : length m' ≡ length src / 2 + 1 = alloc _ m' (allocated-eq-ok _ a) in
          let full = finish_full out m' (length src / 2) (omega arith) size in
          (
            out,
            ground arith,
            rw (len, em, same, finish_full src m (length src) refl (alloc _ m em)) refl,
          )
      | inr odd ↦ let k = rw odd at e in cc
    ]

-- A character of the alphabet.
abbrev pub IsBase16 : ℕ → Type 0
IsBase16 b = get_base16_base b ≢ none

decode16_loop_cases :
    (src : List ℕ)
    → length src % 2 ≡ 0
    → ((out : List ℕ) × (decode16_loop src ≡ ok out)
        × (length out * 2 ≡ length src)
        × All IsBase16 src)
      ⊎ ((decode16_loop src ≡ err invalid_byte) × ¬ All IsBase16 src)
unfolding decode16_loop
decode16_loop_cases [] even = inl ([], refl, refl, tt)
decode16_loop_cases (a ∷ []) even = absurd (omega arith)
decode16_loop_cases (a ∷ b ∷ src) even = elim (Option-cases (get_base16_base a)) [
  | inl bad ↦ inr (rw bad refl, λ all. all.0 bad)
  | inr (c0, e0) ↦ elim (Option-cases (get_base16_base b)) [
    | inl bad ↦ inr (rw (e0, bad) refl, λ all. all.1.0 bad)
    | inr (c1, e1) ↦ elim (decode16_loop_cases src (omega arith)) [
      | inl (out, e, len, all) ↦ inl (
        bit_or (shl c0 4) c1 ∷ out,
        rw (e0, e1, e) refl,
        omega arith,
        ((λ n. cc), ((λ n. cc), all)),
      )
      | inr (e, bad) ↦ inr (rw (e0, e1, e) refl, λ all. bad all.1.1)
    ]
  ]
]

-- How base16_decode ends, for every input of an even length and given memory: with the string that it decodes to when
-- all bytes are of the alphabet, with an error when one is not. It never writes outside its buffer.
pub base16_decode_outcome :
    (base_alloc : ℕ → Option (List ℕ)) (src m : List ℕ)
    → IsAlloc base_alloc
    → length src % 2 ≡ 0
    → base_alloc (length src / 2 + 1) ≡ some m
    → (All IsBase16 src
        × ((out : List ℕ) × (base16_decode base_alloc (some src) ≡ ok (out ++ 0 ∷ []))
            × (length out * 2 ≡ length src)))
      ⊎ (¬ All IsBase16 src × (base16_decode base_alloc (some src) ≡ err invalid_byte))
unfolding base16_decode
base16_decode_outcome base_alloc src m alloc even em =
    let whole : length src / 2 * 2 ≡ length src = omega arith in
    elim (decode16_loop_cases src even) [
      | inl (out, e, len, all) ↦
          let full = finish_full out m (length src / 2) (omega arith) (alloc _ m em) in
          inl (all, (out, simp (whole, ==_refl (length src), em, e, full) refl, len))
      | inr (e, bad) ↦ inr (bad, simp (whole, ==_refl (length src), em, e) refl)
    ]
