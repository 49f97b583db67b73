-- ===== src/Coding/Base64.antt =====
-- base64_encode and base64_decode of src/base/base_coding.c.
pub mod Sextets
pub mod RoundTrip
pub mod Outcomes
use forfun.Prelude.{
  ℕ, zero, suc, ◌+◌, ◌-◌, ◌*◌, ◌/◌, ◌^◌, Option, none, some, List, [], ◌∷◌, length, get_or, leb,
  ◌==◌, if◌then◌else◌, not, ◌&&◌, bit_and, bit_or,
}
use forfun.Coding.{
  Outcome, ok, null, err, fault, ◌>>=◌, ◌>>◌, invalid_len, invalid_byte, get_base_code, allocated,
  finish, shl, shr, codes, base_padding, check_padding,
}

abbrev pub base64_table : List ℕ
base64_table = codes "ABCDEFGHIJKLMNOPQRSTUVWXYZabcdefghijklmnopqrstuvwxyz0123456789+/"

abbrev pub digit64 : ℕ → ℕ
digit64 x = get_or base64_table x 0

-- `none` is the invalid value -1.
unfoldable pub get_base64_base : ℕ → Option ℕ
get_base64_base b =
    if leb b'A' b && leb b b'Z'
    then some (b - b'A')
    else if leb b'a' b && leb b b'z'
    then some (b - b'a' + 26)
    else if leb b'0' b && leb b b'9'
    then some (b - b'0' + 52)
    else if b == b'+'
    then some 62
    else if b == b'/'
    then some 63
    else none

-- The bytes left over when the length is no multiple of 3.
unfoldable pub encode64_tail : List ℕ → List ℕ
encode64_tail (a ∷ []) =
    digit64 (shr a 2) ∷ digit64 (bit_and a 0x03 * 2 ^ 4) ∷ base_padding ∷ base_padding ∷ []
encode64_tail (a ∷ b ∷ []) =
    digit64 (shr a 2)
    ∷ digit64 (bit_or (bit_and a 0x03 * 2 ^ 4) (shr b 4))
    ∷ digit64 (bit_and b 0x0f * 2 ^ 2)
    ∷ base_padding
    ∷ []
encode64_tail _ = []

unfoldable pub encode64_loop : List ℕ → List ℕ
unfolding encode64_tail
encode64_loop (a ∷ b ∷ c ∷ src) =
    digit64 (shr a 2)
    ∷ digit64 (bit_or (bit_and a 0x03 * 2 ^ 4) (shr b 4))
    ∷ digit64 (bit_or (bit_and b 0x0f * 2 ^ 2) (shr c 6))
    ∷ digit64 (bit_and c 0x3f)
    ∷ encode64_loop src
encode64_loop src = encode64_tail src

unfoldable pub base64_encode : (ℕ → Option (List ℕ)) → Option (List ℕ) → Outcome (List ℕ)
base64_encode base_alloc none = null
base64_encode base_alloc (some src) = do
  let encode_len = (length src + 2) / 3 * 4
  m ← allocated (base_alloc (encode_len + 1))
  finish (encode64_loop src) encode_len m

-- The last four characters: the bytes that they decode to, the byte that `decoded_p[j]` was set to
-- in advance where padding cuts it off, and the zero written behind it.
unfoldable pub decode64_last : ℕ → ℕ → ℕ → ℕ → Outcome (List ℕ)
unfolding check_padding
decode64_last a b c d = do
  c0 ← get_base_code (get_base64_base a)
  c1 ← get_base_code (get_base64_base b)
  let x = bit_or (shl c0 2) (shr c1 4)
  let y = shl c1 4
  if c == base_padding then (check_padding (c ∷ d ∷ []) >> ok (x ∷ y ∷ 0 ∷ [])) else do
    c2 ← get_base_code (get_base64_base c)
    let y' = bit_or y (shr c2 2)
    let z = shl c2 6
    if d == base_padding then (check_padding (d ∷ []) >> ok (x ∷ y' ∷ z ∷ 0 ∷ [])) else do
      c3 ← get_base_code (get_base64_base d)
      ok (x ∷ y' ∷ bit_or z (bit_and c3 0x3f) ∷ 0 ∷ [])

-- `while (i + 4 < length)`, then the last four. One to three characters alone cannot occur: the
-- length has been checked.
unfoldable pub decode64_loop : List ℕ → Outcome (List ℕ)
unfolding decode64_last
decode64_loop (a ∷ b ∷ c ∷ d ∷ e ∷ src) = do
  c0 ← get_base_code (get_base64_base a)
  c1 ← get_base_code (get_base64_base b)
  c2 ← get_base_code (get_base64_base c)
  c3 ← get_base_code (get_base64_base d)
  out ← decode64_loop (e ∷ src)
  ok (
      bit_or (shl c0 2) (shr c1 4)
      ∷ bit_or (shl c1 4) (shr c2 2)
      ∷ bit_or (shl c2 6) (bit_and c3 0x3f)
      ∷ out)
decode64_loop (a ∷ b ∷ c ∷ d ∷ []) = decode64_last a b c d
decode64_loop _ = ok []

-- `length & ~0x03` is `length / 4 * 4`.
unfoldable pub base64_decode : (ℕ → Option (List ℕ)) → Option (List ℕ) → Outcome (List ℕ)
base64_decode base_alloc none = null
base64_decode base_alloc (some src) =
    if not (length src / 4 * 4 == length src) then err invalid_len else do
      let decode_len = length src / 4 * 3
      m ← allocated (base_alloc (decode_len + 1))
      out ← decode64_loop src
      finish out decode_len m
