-- ===== src/Coding/Base32/RoundTrip.antt =====
-- Decoding what base32_encode wrote.
use forfun.Prelude.{
  ℕ, ◌+◌, ◌*◌, ◌/◌, ◌≤◌, ◌≡◌, refl, ◌∙◌, Option, some, List, [], ◌∷◌, ◌++◌, length, All, arith,
  ==_refl,
}
use forfun.Coding.{ok, IsByte, IsAlloc}
use forfun.Coding.Finish.{finish_full, finish_string}
use forfun.Coding.Base32.{encode32_loop, base32_encode, decode32_loop, base32_decode}
use forfun.Coding.Base32.Groups.{decode32_group, decode32_whole}
use forfun.Coding.Base32.Rests.{decode32_tail_1, decode32_tail_2, decode32_tail_3, decode32_tail_4}

-- What the decoder has written after the characters of `s`: the bytes of `s`, and zeros that fit.
abbrev Decodes : List ℕ → List ℕ → Type 0
Decodes s chars =
    (zs : List ℕ) × (decode32_loop chars ≡ ok (s ++ 0 ∷ zs))
    × (length (s ++ 0 ∷ zs) ≤ (length s + 4) / 5 * 5 + 1)

-- A group in front.
Decodes-group :
    (a b c d e i : ℕ) (s rest : List ℕ)
    → All IsByte (a ∷ b ∷ c ∷ d ∷ e ∷ s)
    → encode32_loop s ≡ i ∷ rest
    → Decodes s (encode32_loop s)
    → Decodes (a ∷ b ∷ c ∷ d ∷ e ∷ s) (encode32_loop (a ∷ b ∷ c ∷ d ∷ e ∷ s))
unfolding encode32_loop
Decodes-group a b c d e i s rest h shape (zs, p, fits) =
    let g = decode32_group a b c d e h.0 h.1.0 h.1.1.0 h.1.1.1.0 h.1.1.1.1.0 i rest in
    (zs, rw shape (g ∙ rw (rw shape at p) refl), omega arith)

-- The characters of a non-empty input are not none.
encode32_loop-cons :
    (a : ℕ) (s : List ℕ) → (i : ℕ) × (rest : List ℕ) × (encode32_loop (a ∷ s) ≡ i ∷ rest)
unfolding encode32_loop
encode32_loop-cons a [] = (_, _, refl)
encode32_loop-cons a (b ∷ []) = (_, _, refl)
encode32_loop-cons a (b ∷ c ∷ []) = (_, _, refl)
encode32_loop-cons a (b ∷ c ∷ d ∷ []) = (_, _, refl)
encode32_loop-cons a (b ∷ c ∷ d ∷ e ∷ s) = (_, _, refl)

decode32_loop-encode32_loop :
    (a : ℕ) (s : List ℕ) → All IsByte (a ∷ s) → Decodes (a ∷ s) (encode32_loop (a ∷ s))
unfolding encode32_loop
decode32_loop-encode32_loop a [] h =
    (0 ∷ [], decode32_tail_1 a 0 0 0 h.0 (omega arith) (omega arith) (omega arith), omega arith)
decode32_loop-encode32_loop a (b ∷ []) h =
    (0 ∷ [], decode32_tail_2 a b 0 0 h.0 h.1.0 (omega arith) (omega arith), omega arith)
decode32_loop-encode32_loop a (b ∷ c ∷ []) h =
    (0 ∷ [], decode32_tail_3 a b c 0 h.0 h.1.0 h.1.1.0 (omega arith), omega arith)
decode32_loop-encode32_loop a (b ∷ c ∷ d ∷ []) h =
    (0 ∷ [], decode32_tail_4 a b c d h.0 h.1.0 h.1.1.0 h.1.1.1.0, omega arith)
decode32_loop-encode32_loop a (b ∷ c ∷ d ∷ e ∷ []) h =
    ([], decode32_whole a b c d e h.0 h.1.0 h.1.1.0 h.1.1.1.0 h.1.1.1.1.0, omega arith)
decode32_loop-encode32_loop a (b ∷ c ∷ d ∷ e ∷ f ∷ s) h =
    let (i, rest, shape) = encode32_loop-cons f s in
    Decodes-group a b c d e i (f ∷ s) rest h shape (decode32_loop-encode32_loop f s h.1.1.1.1.1)

pub length-encode32_loop : (s : List ℕ) → length (encode32_loop s) ≡ (length s + 4) / 5 * 8
unfolding encode32_loop
length-encode32_loop [] = refl
length-encode32_loop (a ∷ []) = refl
length-encode32_loop (a ∷ b ∷ []) = refl
length-encode32_loop (a ∷ b ∷ c ∷ []) = refl
length-encode32_loop (a ∷ b ∷ c ∷ d ∷ []) = refl
length-encode32_loop (a ∷ b ∷ c ∷ d ∷ e ∷ s) = omega (arith, length-encode32_loop s)

encode32_loop-nil : encode32_loop [] ≡ []
unfolding encode32_loop
encode32_loop-nil = refl

decode32_loop-nil : decode32_loop [] ≡ ok []
unfolding decode32_loop
decode32_loop-nil = refl

-- Given memory of the two sizes that are asked for, base32_encode of any bytes returns a terminated
-- string, and base32_decode of that string returns a buffer that begins with the bytes and a zero.
pub base32_decode-encode :
    (base_alloc : ℕ → Option (List ℕ)) (src m m' : List ℕ)
    → IsAlloc base_alloc
    → All IsByte src
    → base_alloc ((length src + 4) / 5 * 8 + 1) ≡ some m
    → base_alloc ((length src + 4) / 5 * 5 + 1) ≡ some m'
    → (chars rest : List ℕ) × (base32_encode base_alloc (some src) ≡ ok (chars ++ 0 ∷ []))
      × (base32_decode base_alloc (some chars) ≡ ok (src ++ 0 ∷ rest))
unfolding base32_encode base32_decode
base32_decode-encode base_alloc [] m m' alloc bytes e e' = (
  [],
  [],
  simp (e, encode32_loop-nil, finish_full [] m 0 refl (alloc _ m e)) refl,
  simp (e', decode32_loop-nil, finish_full [] m' 0 refl (alloc _ m' e')) refl,
)
base32_decode-encode base_alloc (a ∷ s) m m' alloc bytes e e' =
    let n = (length (a ∷ s) + 4) / 5 in
    let len = length-encode32_loop (a ∷ s) in
    let eighth : n * 8 / 8 ≡ n = omega arith in
    let (zs, d, fits) = decode32_loop-encode32_loop a s bytes in
    let (rest, f) = finish_string (a ∷ s) zs m' (n * 5) fits (alloc _ m' e') in
    (
      encode32_loop (a ∷ s),
      rest,
      rw (e, finish_full (encode32_loop (a ∷ s)) m (n * 8) len (alloc _ m e)) refl,
      simp (len, eighth, ==_refl (n * 8), e', d, f) refl,
    )
