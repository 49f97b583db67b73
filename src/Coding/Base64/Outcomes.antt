-- ===== src/Coding/Base64/Outcomes.antt =====
-- How base64_decode ends, for every input.
use forfun.Prelude.{
  ℕ, ◌+◌, ◌*◌, ◌/◌, ◌%◌, ◌≡◌, ◌≢◌, refl, Bool, true, false, ◌&&◌, Option, some, List, [], ◌∷◌,
  length, arith, ◌==◌, if◌then◌else◌, Bool-cases, ◌⊎◌, inl, inr,
}
use forfun.Coding.{ok, err, invalid_byte, invalid_len, is_digit, IsAlloc}
use forfun.Coding.Endings.{
  Ends, ends_ok, Ends-code, Ends-if, Ends-padding, Ends-more, settle, is_padding, all_padding,
}
use forfun.Coding.Base64.{get_base64_base, decode64_last, decode64_loop, base64_decode}

-- A character of the alphabet.
abbrev pub is_base64 : ℕ → Bool
is_base64 b = is_digit (get_base64_base b)

-- A text of RFC 4648: groups of four characters, of which the last may end in one or two paddings.
abbrev pub is_base64_text : List ℕ → Bool
is_base64_text (a ∷ b ∷ c ∷ d ∷ e ∷ src) =
    is_base64 a && (is_base64 b && (is_base64 c && (is_base64 d && is_base64_text (e ∷ src))))
is_base64_text (a ∷ b ∷ c ∷ d ∷ []) =
    is_base64 a
    && (is_base64 b
        && (if is_padding c
            then all_padding (c ∷ d ∷ [])
            else is_base64 c
              && (if is_padding d then all_padding (d ∷ []) else is_base64 d && true)))
is_base64_text _ = true

decode64_last-Ends :
    (a b c d : ℕ) → Ends 4 (is_base64_text (a ∷ b ∷ c ∷ d ∷ [])) (decode64_last a b c d)
unfolding decode64_last
decode64_last-Ends a b c d = Ends-code (get_base64_base a) λ c0. Ends-code (get_base64_base b) λ c1.
    Ends-if (is_padding c) (Ends-padding (c ∷ d ∷ []) _ (omega arith)) (
      Ends-code (get_base64_base c) λ c2.
        Ends-if (is_padding d) (Ends-padding (d ∷ []) _ (omega arith))
          (Ends-code (get_base64_base d) λ c3. ends_ok (omega arith)))

decode64_loop-Ends :
    (src : List ℕ)
    → length src % 4 ≡ 0
    → Ends (length src / 4 * 3 + 1) (is_base64_text src) (decode64_loop src)
unfolding decode64_loop
decode64_loop-Ends (a ∷ b ∷ c ∷ d ∷ e ∷ src) even = Ends-code (get_base64_base a) λ c0.
    Ends-code (get_base64_base b) λ c1. Ends-code (get_base64_base c) λ c2.
      Ends-code (get_base64_base d)
        λ c3. Ends-more _ (λ out l. omega arith) (decode64_loop-Ends (e ∷ src) (omega arith))
decode64_loop-Ends (a ∷ b ∷ c ∷ d ∷ []) even = decode64_last-Ends a b c d
decode64_loop-Ends _ even = ends_ok (omega arith)

-- How base64_decode ends, given the memory: a length that is no multiple of four and a text with a
-- bad byte are errors, every other text is decoded into a buffer of the size that was asked for, and
-- no call writes behind its buffer.
pub base64_decode_outcome :
    (base_alloc : ℕ → Option (List ℕ)) (src m : List ℕ)
    → IsAlloc base_alloc
    → base_alloc (length src / 4 * 3 + 1) ≡ some m
    → ((length src % 4 ≢ 0) × (base64_decode base_alloc (some src) ≡ err invalid_len))
      ⊎ ((length src % 4 ≡ 0)
          × (is_base64_text src ≡ false)
          × (base64_decode base_alloc (some src) ≡ err invalid_byte))
      ⊎ ((length src % 4 ≡ 0)
          × (is_base64_text src ≡ true)
          × ((buf : List ℕ) × (base64_decode base_alloc (some src) ≡ ok buf)
              × (length buf ≡ length src / 4 * 3 + 1)))
unfolding base64_decode
base64_decode_outcome base_alloc src m alloc em =
    elim (Bool-cases (length src / 4 * 4 == length src)) [
      | inl even ↦
          elim (settle (is_base64_text src) (length src / 4 * 3) m (decode64_loop src)
            (alloc _ m em) (decode64_loop-Ends src (ground arith))) [
              | inl (bad, e) ↦ inr (inl (ground arith, bad, rw (even, em) e))
              | inr (good, (buf, e, l)) ↦ inr (inr (ground arith, good, (buf, rw (even, em) e, l)))
            ]
      | inr odd ↦ inl (ground arith, rw odd refl)
    ]
