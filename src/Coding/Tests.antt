-- ===== src/Coding/Tests.antt =====
-- Runs of src/base/base_coding.c on concrete bytes.
use forfun.Prelude.{
  ℕ, ◌+◌, ◌/◌, ◌*◌, ◌%◌, ◌≡◌, ◌≢◌, refl, ◌∙◌, sym, ap, Option, some, List, [], ◌∷◌, ◌++◌, length,
  replicate, length-replicate, All, true, false, arith, ◌⊎◌,
}
use forfun.Coding.{ok, err, finish, invalid_byte, invalid_len, IsAlloc, IsByte}
use forfun.Coding.Base16.{base16_encode, base16_decode, decode16_loop, get_base16_base}
use forfun.Coding.Base32.{base32_encode, base32_decode}
use forfun.Coding.Base64.{base64_encode, base64_decode}
use forfun.Coding.Base16.RoundTrip.{
  base16_decode-encode, base16_encode-decode, base16_decode_outcome, IsBase16,
}
use forfun.Coding.Base32.RoundTrip.{base32_decode-encode}
use forfun.Coding.Base32.Outcomes.{base32_decode_outcome, is_base32_text}
use forfun.Coding.Base64.RoundTrip.{base64_decode-encode}
use forfun.Coding.Base64.Outcomes.{base64_decode_outcome, is_base64_text}

-- A pointer base_alloc whose memory holds sevens.
abbrev sevens : ℕ → Option (List ℕ)
sevens n = some (replicate n 7)

sevens-IsAlloc : IsAlloc sevens
sevens-IsAlloc n m e =
    let same : replicate n 7 ≡ m = cc in ap length (sym same) ∙ length-replicate n 7

abbrev text : List ℕ
text = 102 ∷ 111 ∷ 111 ∷ 98 ∷ []

text_bytes : All IsByte text
text_bytes = (omega arith, (omega arith, (omega arith, (omega arith, tt))))

abbrev hex : List ℕ
hex = 54 ∷ 54 ∷ []

hex_decodes : base16_decode sevens (some hex) ≡ ok (102 ∷ 0 ∷ [])
unfolding base16_decode decode16_loop get_base16_base finish
hex_decodes = refl

base64_decode-encode_example :
    (chars rest : List ℕ) × (base64_encode sevens (some text) ≡ ok (chars ++ 0 ∷ []))
    × (base64_decode sevens (some chars) ≡ ok (text ++ 0 ∷ rest))
base64_decode-encode_example =
    base64_decode-encode sevens text (replicate 9 7) (replicate 7 7) sevens-IsAlloc text_bytes refl
      refl

base32_decode-encode_example :
    (chars rest : List ℕ) × (base32_encode sevens (some text) ≡ ok (chars ++ 0 ∷ []))
    × (base32_decode sevens (some chars) ≡ ok (text ++ 0 ∷ rest))
base32_decode-encode_example =
    base32_decode-encode sevens text (replicate 9 7) (replicate 6 7) sevens-IsAlloc text_bytes refl
      refl

base16_decode-encode_example :
    (chars : List ℕ) × (base16_encode sevens (some text) ≡ ok (chars ++ 0 ∷ []))
    × (base16_decode sevens (some chars) ≡ ok (text ++ 0 ∷ []))
base16_decode-encode_example =
    base16_decode-encode sevens text (replicate 9 7) (replicate 5 7) sevens-IsAlloc text_bytes refl
      refl

base16_encode-decode_example :
    (out : List ℕ) × ((102 ∷ 0 ∷ []) ≡ out ++ 0 ∷ [])
    × (base16_encode sevens (some out) ≡ ok (hex ++ 0 ∷ []))
base16_encode-decode_example =
    base16_encode-decode sevens hex (102 ∷ 0 ∷ []) (replicate 3 7) sevens-IsAlloc
      (omega arith, (omega arith, tt)) hex_decodes refl

base64_decode_outcome_example :
    ((length text % 4 ≢ 0) × (base64_decode sevens (some text) ≡ err invalid_len))
    ⊎ ((length text % 4 ≡ 0)
        × (is_base64_text text ≡ false)
        × (base64_decode sevens (some text) ≡ err invalid_byte))
    ⊎ ((length text % 4 ≡ 0)
        × (is_base64_text text ≡ true)
        × ((buf : List ℕ) × (base64_decode sevens (some text) ≡ ok buf)
            × (length buf ≡ length text / 4 * 3 + 1)))
base64_decode_outcome_example =
    base64_decode_outcome sevens text (replicate 4 7) sevens-IsAlloc refl

base32_decode_outcome_example :
    ((length text % 8 ≢ 0) × (base32_decode sevens (some text) ≡ err invalid_len))
    ⊎ ((length text % 8 ≡ 0)
        × (is_base32_text text ≡ false)
        × (base32_decode sevens (some text) ≡ err invalid_byte))
    ⊎ ((length text % 8 ≡ 0)
        × (is_base32_text text ≡ true)
        × ((buf : List ℕ) × (base32_decode sevens (some text) ≡ ok buf)
            × (length buf ≡ length text / 8 * 5 + 1)))
base32_decode_outcome_example =
    base32_decode_outcome sevens text (replicate 1 7) sevens-IsAlloc refl

base16_decode_outcome_example :
    (All IsBase16 text
      × ((out : List ℕ) × (base16_decode sevens (some text) ≡ ok (out ++ 0 ∷ []))
          × (length out * 2 ≡ length text)))
    ⊎ (¬ All IsBase16 text × (base16_decode sevens (some text) ≡ err invalid_byte))
base16_decode_outcome_example =
    base16_decode_outcome sevens text (replicate 3 7) sevens-IsAlloc refl refl
