-- ===== src/Coding/Base32/Outcomes.antt =====
-- How base32_decode ends, for every input.
use forfun.Prelude.{
  ℕ, ◌+◌, ◌*◌, ◌/◌, ◌%◌, ◌≡◌, ◌≢◌, refl, Bool, true, false, ◌&&◌, Option, some, List, [], ◌∷◌,
  length, arith, ◌==◌, if◌then◌else◌, Bool-cases, ◌⊎◌, inl, inr,
}
use forfun.Coding.{ok, err, invalid_byte, invalid_len, is_digit, IsAlloc}
use forfun.Coding.Endings.{
  Ends, ends_ok, Ends-code, Ends-if, Ends-padding, Ends-more, settle, is_padding, all_padding,
}
use forfun.Coding.Base32.{get_base32_base, decode32_last, decode32_loop, base32_decode}

-- A character of the alphabet.
abbrev pub is_base32 : ℕ → Bool
is_base32 b = is_digit (get_base32_base b)

-- A text of RFC 4648: groups of eight characters, of which the last may end in one, three, four or
-- six paddings.
abbrev pub is_base32_text : List ℕ → Bool
is_base32_text (a ∷ b ∷ c ∷ d ∷ e ∷ f ∷ g ∷ h ∷ i ∷ src) =
    is_base32 a
    && (is_base32 b
        && (is_base32 c
            && (is_base32 d
                && (is_base32 e
                    && (is_base32 f
                        && (is_base32 g && (is_base32 h && is_base32_text (i ∷ src))))))))
is_base32_text (a ∷ b ∷ c ∷ d ∷ e ∷ f ∷ g ∷ h ∷ []) =
    is_base32 a
    && (is_base32 b
        && (if is_padding c
            then all_padding (c ∷ d ∷ e ∷ f ∷ g ∷ h ∷ [])
            else is_base32 c
              && (is_base32 d
                  && (if is_padding e
                      then all_padding (e ∷ f ∷ g ∷ h ∷ [])
                      else is_base32 e
                        && (if is_padding f
                            then all_padding (f ∷ g ∷ h ∷ [])
                            else is_base32 f
                              && (is_base32 g
                                  && (if is_padding h
                                      then all_padding (h ∷ [])
                                      else is_base32 h && true)))))))
is_base32_text _ = true

decode32_last-Ends :
    (a b c d e f g h : ℕ)
    → Ends 6 (is_base32_text (a ∷ b ∷ c ∷ d ∷ e ∷ f ∷ g ∷ h ∷ [])) (decode32_last a b c d e f g h)
unfolding decode32_last
decode32_last-Ends a b c d e f g h = Ends-code (get_base32_base a) λ c0.
    Ends-code (get_base32_base b) λ c1.
      Ends-if (is_padding c) (Ends-padding (c ∷ d ∷ e ∷ f ∷ g ∷ h ∷ []) _ (omega arith)) (
        Ends-code (get_base32_base c) λ c2. Ends-code (get_base32_base d) λ c3.
          Ends-if (is_padding e) (Ends-padding (e ∷ f ∷ g ∷ h ∷ []) _ (omega arith)) (
            Ends-code (get_base32_base e) λ c4.
              Ends-if (is_padding f) (Ends-padding (f ∷ g ∷ h ∷ []) _ (omega arith)) (
                Ends-code (get_base32_base f) λ c5. Ends-code (get_base32_base g) λ c6.
                  Ends-if (is_padding h) (Ends-padding (h ∷ []) _ (omega arith))
                    (Ends-code (get_base32_base h) λ c7. ends_ok (omega arith)))))

decode32_loop-Ends :
    (src : List ℕ)
    → length src % 8 ≡ 0
    → Ends (length src / 8 * 5 + 1) (is_base32_text src) (decode32_loop src)
unfolding decode32_loop
decode32_loop-Ends (a ∷ b ∷ c ∷ d ∷ e ∷ f ∷ g ∷ h ∷ i ∷ src) even =
    Ends-code (get_base32_base a) λ c0. Ends-code (get_base32_base b) λ c1.
      Ends-code (get_base32_base c) λ c2. Ends-code (get_base32_base d) λ c3.
        Ends-code (get_base32_base e) λ c4. Ends-code (get_base32_base f) λ c5.
          Ends-code (get_base32_base g) λ c6.
            Ends-code (get_base32_base h)
              λ c7. Ends-more _ (λ out l. omega arith) (decode32_loop-Ends (i ∷ src) (omega arith))
decode32_loop-Ends (a ∷ b ∷ c ∷ d ∷ e ∷ f ∷ g ∷ h ∷ []) even = decode32_last-Ends a b c d e f g h
decode32_loop-Ends _ even = ends_ok (omega arith)

-- How base32_decode ends, given the memory: a length that is no multiple of eight and a text with a
-- bad byte are errors, every other text is decoded into a buffer of the size that was asked for, and
-- no call writes behind its buffer.
pub base32_decode_outcome :
    (base_alloc : ℕ → Option (List ℕ)) (src m : List ℕ)
    → IsAlloc base_alloc
    → base_alloc (length src / 8 * 5 + 1) ≡ some m
    → ((length src % 8 ≢ 0) × (base32_decode base_alloc (some src) ≡ err invalid_len))
      ⊎ ((length src % 8 ≡ 0)
          × (is_base32_text src ≡ false)
          × (base32_decode base_alloc (some src) ≡ err invalid_byte))
      ⊎ ((length src % 8 ≡ 0)
          × (is_base32_text src ≡ true)
          × ((buf : List ℕ) × (base32_decode base_alloc (some src) ≡ ok buf)
              × (length buf ≡ length src / 8 * 5 + 1)))
unfolding base32_decode
base32_decode_outcome base_alloc src m alloc em =
    elim (Bool-cases (length src / 8 * 8 == length src)) [
      | inl even ↦
          elim (settle (is_base32_text src) (length src / 8 * 5) m (decode32_loop src)
            (alloc _ m em) (decode32_loop-Ends src (ground arith))) [
              | inl (bad, e) ↦ inr (inl (ground arith, bad, rw (even, em) e))
              | inr (good, (buf, e, l)) ↦ inr (inr (ground arith, good, (buf, rw (even, em) e, l)))
            ]
      | inr odd ↦ inl (ground arith, rw odd refl)
    ]
