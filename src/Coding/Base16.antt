-- ===== src/Coding/Base16.antt =====
-- base16_encode and base16_decode of src/base/base_coding.c.
pub mod RoundTrip
use forfun.Prelude.{
  ℕ, zero, suc, ◌+◌, ◌-◌, ◌*◌, ◌/◌, ◌≡◌, Option, none, some, List, [], ◌∷◌, length, get_or, leb,
  ◌==◌, if◌then◌else◌, not, ◌&&◌, bit_and, bit_or,
}
use forfun.Coding.{
  Outcome, ok, null, err, fault, ◌>>=◌, invalid_len, get_base_code, allocated, finish, shl, shr,
  codes,
}

abbrev pub base16_table : List ℕ
base16_table = codes "0123456789ABCDEF"

-- `none` is the invalid value -1.
unfoldable pub get_base16_base : ℕ → Option ℕ
get_base16_base b =
    if leb b'0' b && leb b b'9'
    then some (b - b'0')
    else if leb b'A' b && leb b b'F'
    then some (b - b'A' + 10)
    else none

unfoldable pub encode16_loop : List ℕ → List ℕ
encode16_loop [] = []
encode16_loop (a ∷ src) =
    get_or base16_table (shr a 4) 0 ∷ get_or base16_table (bit_and a 0x0f) 0 ∷ encode16_loop src

unfoldable pub base16_encode : (ℕ → Option (List ℕ)) → Option (List ℕ) → Outcome (List ℕ)
base16_encode base_alloc none = null
base16_encode base_alloc (some src) = do
  let encode_len = length src * 2
  m ← allocated (base_alloc (encode_len + 1))
  finish (encode16_loop src) encode_len m

-- An odd rest cannot occur: the length has been checked.
unfoldable pub decode16_loop : List ℕ → Outcome (List ℕ)
decode16_loop [] = ok []
decode16_loop (a ∷ []) = ok []
decode16_loop (a ∷ b ∷ src) = do
  c0 ← get_base_code (get_base16_base a)
  c1 ← get_base_code (get_base16_base b)
  out ← decode16_loop src
  ok (bit_or (shl c0 4) c1 ∷ out)

-- `length & ~0x01` is `length / 2 * 2`. The bytes are decoded into a buffer that exists already, so
-- a bad byte is met after the allocation.
unfoldable pub base16_decode : (ℕ → Option (List ℕ)) → Option (List ℕ) → Outcome (List ℕ)
base16_decode base_alloc none = null
base16_decode base_alloc (some src) =
    if not (length src / 2 * 2 == length src) then err invalid_len else do
      let decode_len = length src / 2
      m ← allocated (base_alloc (decode_len + 1))
      out ← decode16_loop src
      finish out decode_len m
