-- ===== src/SlotPage/Words.antt =====
-- src/storage/slot_page.c: the words of a page.
use forfun.Prelude.{
  ℕ, zero, suc, ◌+◌, ◌-◌, ◌*◌, ◌/◌, ◌%◌, ◌^◌, ◌≤◌, ◌<◌, ◌≡◌, ◌⊎◌, inl, inr, refl, ◌∙◌, true, false,
  ltb, leb, List, [], ◌∷◌, length, get_elem?, some, arith,
}
use forfun.SlotPage.{Page, save_uint64, read_bytes, read_64bits, save_words}

save_uint64-at :
    (m : Page) (pos v k : ℕ) → k < 8 → save_uint64 m pos v (pos + k) ≡ v / 2 ^ (8 * (7 - k)) % 256
unfolding save_uint64
save_uint64-at m pos v k below =
    let low : leb pos (pos + k) ≡ true = ground arith in
    let high : ltb (pos + k) (pos + 8) ≡ true = ground arith in
    let back : pos + k - pos ≡ k = omega arith in rw (low, high, back) refl

pub save_uint64-off :
    (m : Page) (pos v a : ℕ) → (a < pos) ⊎ (pos + 8 ≤ a) → save_uint64 m pos v a ≡ m a
unfolding save_uint64
save_uint64-off m pos v a (inl before) = let low : leb pos a ≡ false = ground arith in rw (low) refl
save_uint64-off m pos v a (inr behind) =
    let high : ltb a (pos + 8) ≡ false = ground arith in ground arith

pub read_bytes-same :
    (m n : Page) (pos k : ℕ)
    → ((j : ℕ) → j < k → m (pos + j) ≡ n (pos + j))
    → read_bytes m pos k ≡ read_bytes n pos k
unfolding read_bytes
read_bytes-same m n pos zero same = refl
read_bytes-same m n pos (suc k) same =
    rw (read_bytes-same m n pos k (λ j p. same j (omega arith)), same k (omega arith)) refl

pub read_64bits-save_uint64 :
    (m : Page) (pos v : ℕ) → v < 2 ^ 64 → read_64bits (save_uint64 m pos v) pos ≡ v
unfolding read_bytes
read_64bits-save_uint64 m pos v small =
    rw
      (
        save_uint64-at m pos v 0 (omega arith),
        save_uint64-at m pos v 1 (omega arith),
        save_uint64-at m pos v 2 (omega arith),
        save_uint64-at m pos v 3 (omega arith),
        save_uint64-at m pos v 4 (omega arith),
        save_uint64-at m pos v 5 (omega arith),
        save_uint64-at m pos v 6 (omega arith),
        save_uint64-at m pos v 7 (omega arith),
      )
      (omega arith)

-- What is written at `pos` and behind leaves the rest.
pub save_words-off :
    (m : Page) (pos a : ℕ) (ws : List ℕ)
    → (a < pos) ⊎ (pos + 8 * length ws ≤ a)
    → save_words m pos ws a ≡ m a
unfolding save_words
save_words-off m pos a [] out = refl
save_words-off m pos a (w ∷ ws) out =
    save_words-off (save_uint64 m pos w) (pos + 8) a ws (ground arith)
    ∙ save_uint64-off m pos w a (ground arith)

pub read_64bits-save_words :
    (m : Page) (pos i w : ℕ) (ws : List ℕ)
    → get_elem? ws i ≡ some w
    → w < 2 ^ 64
    → read_64bits (save_words m pos ws) (pos + 8 * i) ≡ w
unfolding save_words
read_64bits-save_words m pos i w [] found small = absurd (cc)
read_64bits-save_words m pos zero w (x ∷ ws) found small =
    let here : x ≡ w = cc in
    let rest : (j : ℕ)
        → j < 8
        → save_words (save_uint64 m pos x) (pos + 8) ws (pos + j) ≡ save_uint64 m pos x (pos + j) =
      λ j p. save_words-off (save_uint64 m pos x) (pos + 8) (pos + j) ws (inl (omega arith)) in
    let at : pos + 8 * 0 ≡ pos = omega arith in
    rw (at) (
      read_bytes-same (save_words (save_uint64 m pos x) (pos + 8) ws) (save_uint64 m pos x) pos 8
        rest
      ∙ read_64bits-save_uint64 m pos x (rw (here) small)
      ∙ here)
read_64bits-save_words m pos (suc i) w (x ∷ ws) found small =
    let at : pos + 8 * suc i ≡ pos + 8 + 8 * i = omega arith in
    rw (at) (read_64bits-save_words (save_uint64 m pos x) (pos + 8) i w ws found small)
