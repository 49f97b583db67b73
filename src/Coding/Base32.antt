-- ===== src/Coding/Base32.antt =====
-- base32_encode and base32_decode of src/base/base_coding.c.
pub mod Quintets
pub mod Groups
pub mod Rests
pub mod RoundTrip
pub mod Outcomes
use forfun.Prelude.{
  ℕ, zero, suc, ◌+◌, ◌-◌, ◌*◌, ◌/◌, ◌^◌, Option, none, some, List, [], ◌∷◌, length, get_or, leb,
  ◌==◌, if◌then◌else◌, not, ◌&&◌, bit_and, bit_or,
}
use forfun.Coding.{
  Outcome, ok, null, err, ◌>>=◌, ◌>>◌, invalid_len, invalid_byte, get_base_code, allocated, finish,
  shl, shr, codes, base_padding, check_padding,
}

abbrev pub base32_table : List ℕ
base32_table = codes "ABCDEFGHIJKLMNOPQRSTUVWXYZ234567"

abbrev pub digit32 : ℕ → ℕ
digit32 x = get_or base32_table x 0

-- `none` is the invalid value -1.
unfoldable pub get_base32_base : ℕ → Option ℕ
get_base32_base b =
    if leb b'A' b && leb b b'Z'
    then some (b - b'A')
    else if leb b'2' b && leb b b'7'
    then some (b - b'2' + 26)
    else none

-- The digits of a group, each from the bytes that it spans.
abbrev pub digit_0 : ℕ → ℕ
digit_0 a = digit32 (shr a 3)

abbrev pub digit_1 : ℕ → ℕ → ℕ
digit_1 a b = digit32 (bit_or (bit_and a 0x07 * 2 ^ 2) (shr b 6))

abbrev pub digit_2 : ℕ → ℕ
digit_2 b = digit32 (shr (bit_and b 0x3f) 1)

abbrev pub digit_3 : ℕ → ℕ → ℕ
digit_3 b c = digit32 (bit_or (bit_and b 0x01 * 2 ^ 4) (shr c 4))

abbrev pub digit_4 : ℕ → ℕ → ℕ
digit_4 c d = digit32 (bit_or (bit_and c 0x0f * 2 ^ 1) (shr d 7))

abbrev pub digit_5 : ℕ → ℕ
digit_5 d = digit32 (shr (bit_and d 0x7f) 2)

abbrev pub digit_6 : ℕ → ℕ → ℕ
digit_6 d e = digit32 (bit_or (bit_and d 0x03 * 2 ^ 3) (shr e 5))

abbrev pub digit_7 : ℕ → ℕ
digit_7 e = digit32 (bit_and e 0x1f)

abbrev pub pads : List ℕ → List ℕ
pads rest = base_padding ∷ rest

-- The bytes left over when the length is no multiple of 5, filled up to eight characters.
unfoldable pub encode32_tail : List ℕ → List ℕ
encode32_tail (a ∷ []) =
    digit_0 a ∷ digit32 (bit_and a 0x07 * 2 ^ 2) ∷ pads (pads (pads (pads (pads (pads [])))))
encode32_tail (a ∷ b ∷ []) =
    digit_0 a
    ∷ digit_1 a b
    ∷ digit_2 b
    ∷ digit32 (bit_and b 0x01 * 2 ^ 4)
    ∷ pads (pads (pads (pads [])))
encode32_tail (a ∷ b ∷ c ∷ []) =
    digit_0 a
    ∷ digit_1 a b
    ∷ digit_2 b
    ∷ digit_3 b c
    ∷ digit32 (bit_and c 0x0f * 2 ^ 1)
    ∷ pads (pads (pads []))
encode32_tail (a ∷ b ∷ c ∷ d ∷ []) =
    digit_0 a
    ∷ digit_1 a b
    ∷ digit_2 b
    ∷ digit_3 b c
    ∷ digit_4 c d
    ∷ digit_5 d
    ∷ digit32 (bit_and d 0x03 * 2 ^ 3)
    ∷ pads []
encode32_tail _ = []

unfoldable pub encode32_loop : List ℕ → List ℕ
unfolding encode32_tail
encode32_loop (a ∷ b ∷ c ∷ d ∷ e ∷ src) =
    digit_0 a
    ∷ digit_1 a b
    ∷ digit_2 b
    ∷ digit_3 b c
    ∷ digit_4 c d
    ∷ digit_5 d
    ∷ digit_6 d e
    ∷ digit_7 e
    ∷ encode32_loop src
encode32_loop src = encode32_tail src

unfoldable pub base32_encode : (ℕ → Option (List ℕ)) → Option (List ℕ) → Outcome (List ℕ)
base32_encode base_alloc none = null
base32_encode base_alloc (some src) = do
  let encode_len = (length src + 4) / 5 * 8
  m ← allocated (base_alloc (encode_len + 1))
  finish (encode32_loop src) encode_len m

-- The last eight characters: the bytes that they decode to, the byte that `decoded_p[j]` was set to
-- in advance where padding cuts it off, and the zero written behind it.
unfoldable pub decode32_last : ℕ → ℕ → ℕ → ℕ → ℕ → ℕ → ℕ → ℕ → Outcome (List ℕ)
unfolding check_padding
decode32_last a b c d e f g h = do
  c0 ← get_base_code (get_base32_base a)
  c1 ← get_base_code (get_base32_base b)
  let v = bit_or (shl c0 3) (shr c1 2)
  let w = shl c1 6
  if c == base_padding
      then (check_padding (c ∷ d ∷ e ∷ f ∷ g ∷ h ∷ []) >> ok (v ∷ w ∷ 0 ∷ []))
      else do
        c2 ← get_base_code (get_base32_base c)
        c3 ← get_base_code (get_base32_base d)
        let w' = bit_or (bit_or w (shl c2 1)) (shr c3 4)
        let x = shl c3 4
        if e == base_padding
            then (check_padding (e ∷ f ∷ g ∷ h ∷ []) >> ok (v ∷ w' ∷ x ∷ 0 ∷ []))
            else do
              c4 ← get_base_code (get_base32_base e)
              let x' = bit_or x (shr c4 1)
              let y = shl c4 7
              if f == base_padding
                  then (check_padding (f ∷ g ∷ h ∷ []) >> ok (v ∷ w' ∷ x' ∷ y ∷ 0 ∷ []))
                  else do
                    c5 ← get_base_code (get_base32_base f)
                    c6 ← get_base_code (get_base32_base g)
                    let y' = bit_or (bit_or y (shl c5 2)) (shr c6 3)
                    let z = shl c6 5
                    if h == base_padding
                        then (check_padding (h ∷ []) >> ok (v ∷ w' ∷ x' ∷ y' ∷ z ∷ 0 ∷ []))
                        else do
                          c7 ← get_base_code (get_base32_base h)
                          ok (v ∷ w' ∷ x' ∷ y' ∷ bit_or z c7 ∷ 0 ∷ [])

-- `while (i + 8 < length)`, then the last eight. One to seven characters alone cannot occur: the
-- length has been checked.
unfoldable pub decode32_loop : List ℕ → Outcome (List ℕ)
unfolding decode32_last
decode32_loop (a ∷ b ∷ c ∷ d ∷ e ∷ f ∷ g ∷ h ∷ i ∷ src) = do
  c0 ← get_base_code (get_base32_base a)
  c1 ← get_base_code (get_base32_base b)
  c2 ← get_base_code (get_base32_base c)
  c3 ← get_base_code (get_base32_base d)
  c4 ← get_base_code (get_base32_base e)
  c5 ← get_base_code (get_base32_base f)
  c6 ← get_base_code (get_base32_base g)
  c7 ← get_base_code (get_base32_base h)
  out ← decode32_loop (i ∷ src)
  ok (
      bit_or (shl c0 3) (shr c1 2)
      ∷ bit_or (bit_or (shl c1 6) (shl c2 1)) (shr c3 4)
      ∷ bit_or (shl c3 4) (shr c4 1)
      ∷ bit_or (bit_or (shl c4 7) (shl c5 2)) (shr c6 3)
      ∷ bit_or (shl c6 5) c7
      ∷ out)
decode32_loop (a ∷ b ∷ c ∷ d ∷ e ∷ f ∷ g ∷ h ∷ []) = decode32_last a b c d e f g h
decode32_loop _ = ok []

-- `length & ~0x07` is `length / 8 * 8`.
unfoldable pub base32_decode : (ℕ → Option (List ℕ)) → Option (List ℕ) → Outcome (List ℕ)
base32_decode base_alloc none = null
base32_decode base_alloc (some src) =
    if not (length src / 8 * 8 == length src) then err invalid_len else do
      let decode_len = length src / 8 * 5
      m ← allocated (base_alloc (decode_len + 1))
      out ← decode32_loop src
      finish out decode_len m
