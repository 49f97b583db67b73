-- ===== src/SlotPage/Slots.antt =====
-- src/storage/slot_page.c: what getSlot finds after setSlot.
use forfun.Prelude.{
  true_not_false, ℕ, ◌+◌, ◌-◌, ◌*◌, ◌%◌, ◌^◌, ◌≤◌, ◌<◌, ◌≡◌, ◌≢◌, ◌⊎◌, inl, inr, refl, sym, ap, ◌∙◌,
  true, Bool-cases, ==_iff, subst, if◌then◌else◌, ltb, ◌==◌, some, arith,
}
use forfun.SlotPage.{
  Page, Slot, no_error, read_64bits, save_words, slot_words, slot_pos, read_slot,
  get_slot_page_header, get_slot, set_slot,
}
use forfun.SlotPage.Words.{read_bytes-same, save_words-off, read_64bits-save_words}

-- The fields of a slot are numbers of their types.
pub record IsSlot (s : Slot) : Type 0 where
  pub type_small : s.type < 2 ^ 32
  pub length_small : s.length < 2 ^ 64
  pub start_small : s.start < 2 ^ 64
  pub end_small : s.end < 2 ^ 64
  pub op_id_small : s.op_id < 2 ^ 64
  pub vol_id_small : s.next_pos.vol_id < 2 ^ 64
  pub pg_id_small : s.next_pos.pg_id < 2 ^ 64
  pub slot_number_small : s.next_pos.slot_number < 2 ^ 64

pub slot_pos-within : (n : ℕ) → n < 255 → slot_pos n ≡ 16384 - (n + 1) * 64
unfolding slot_pos
slot_pos-within n small = omega arith

-- Two slots with the same fields.
Slot-same :
    (n : ℕ) (t : ℕ) (l : ℕ) (b : ℕ) (e : ℕ) (o : ℕ) (v : ℕ) (p : ℕ) (q : ℕ) (s : Slot)
    → t ≡ s.type
    → l ≡ s.length
    → b ≡ s.start
    → e ≡ s.end
    → o ≡ s.op_id
    → v ≡ s.next_pos.vol_id
    → p ≡ s.next_pos.pg_id
    → q ≡ s.next_pos.slot_number
    → record {
      no = n;
      type = t;
      length = l;
      start = b;
      end = e;
      op_id = o;
      next_pos = record { vol_id = v; pg_id = p; slot_number = q };
    }
      ≡ record s { no = n }
Slot-same n t l b e o v p q s h0 h1 h2 h3 h4 h5 h6 h7 = cc

read_slot-save_words :
    (m : Page) (pos n : ℕ) (s : Slot)
    → IsSlot s
    → read_slot (save_words m pos (slot_words s)) pos n ≡ record s { no = n }
unfolding read_slot
read_slot-save_words m pos n s ok =
    let ws = slot_words s in
    let first : read_64bits (save_words m pos ws) (pos + 0) ≡ s.type =
      read_64bits-save_words m pos 0 s.type ws refl (omega arith) in
    let none_further : pos + 0 ≡ pos = omega arith in
    let here : read_64bits (save_words m pos ws) pos ≡ s.type =
      subst (λ p. read_64bits (save_words m pos ws) p ≡ s.type) none_further first in
    let kept : s.type % 2 ^ 32 ≡ s.type = omega arith in
    Slot-same n _ _ _ _ _ _ _ _ s (ap (λ x. x % 2 ^ 32) here ∙ kept)
      (read_64bits-save_words m pos 1 s.length ws refl ok.length_small)
      (read_64bits-save_words m pos 2 s.start ws refl ok.start_small)
      (read_64bits-save_words m pos 3 s.end ws refl ok.end_small)
      (read_64bits-save_words m pos 4 s.op_id ws refl ok.op_id_small)
      (read_64bits-save_words m pos 5 s.next_pos.vol_id ws refl ok.vol_id_small)
      (read_64bits-save_words m pos 6 s.next_pos.pg_id ws refl ok.pg_id_small)
      (read_64bits-save_words m pos 7 s.next_pos.slot_number ws refl ok.slot_number_small)

-- A slot elsewhere than the words that are written.
pub read_slot-same :
    (m k : Page) (pos n : ℕ)
    → ((j : ℕ) → j < 64 → m (pos + j) ≡ k (pos + j))
    → read_slot m pos n ≡ read_slot k pos n
unfolding read_slot
read_slot-same m k pos n same =
    let word : (i : ℕ) → i ≤ 56 → read_64bits m (pos + i) ≡ read_64bits k (pos + i) = λ i p.
      read_bytes-same m k (pos + i) 8 (λ j q.
        let at : pos + i + j ≡ pos + (i + j) = omega arith in
        rw (at) (same (i + j) (omega arith))) in
    let none_further : pos + 0 ≡ pos = omega arith in
    let here = subst (λ p. read_64bits m p ≡ read_64bits k p) none_further (word 0 (omega arith)) in
    Slot-same n _ _ _ _ _ _ _ _ (read_slot k pos n) (ap (λ x. x % 2 ^ 32) here)
      (word 8 (omega arith)) (word 16 (omega arith)) (word 24 (omega arith)) (word 32 (omega arith))
      (word 40 (omega arith)) (word 48 (omega arith)) (word 56 (omega arith))

-- Different slots stand apart.
apart_slots :
    (n k j : ℕ)
    → n < 255
    → k < 255
    → k ≢ n
    → j < 64
    → (slot_pos k + j < slot_pos n) ⊎ (slot_pos n + 64 ≤ slot_pos k + j)
apart_slots n k j n_lt k_lt other within =
    let at_n = slot_pos-within n n_lt in let at_k = slot_pos-within k k_lt in ground arith

pub set_slot-no_error :
    (m : Page) (n : ℕ) (s : Slot) → n < get_slot_page_header m → (set_slot m n s).0 ≡ no_error
unfolding set_slot
set_slot-no_error m n s there =
    let test : ltb n (get_slot_page_header m) ≡ true = ground arith in rw (test) refl

-- Writing the slot `n` leaves the number of slots.
pub set_slot-header :
    (m : Page) (n : ℕ) (s : Slot)
    → n < 255
    → get_slot_page_header (set_slot m n s).1 ≡ get_slot_page_header m
unfolding set_slot get_slot_page_header
set_slot-header m n s small = elim (Bool-cases (ltb n (read_64bits m 0))) [
  | inl h ↦ rw (h) (
      read_bytes-same (save_words m (slot_pos n) (slot_words s)) m 0 8 (λ j p.
        save_words-off m (slot_pos n) (0 + j) (slot_words s)
          (let at = slot_pos-within n small in inl (omega arith))))
  | inr h ↦ rw (h) refl
]

set_slot-read :
    (m : Page) (n : ℕ) (s : Slot)
    → n < get_slot_page_header m
    → IsSlot s
    → read_slot (set_slot m n s).1 (slot_pos n) n ≡ record s { no = n }
unfolding set_slot
set_slot-read m n s there ok =
    let test : ltb n (get_slot_page_header m) ≡ true = ground arith in
    rw (test) (read_slot-save_words m (slot_pos n) n s ok)

set_slot-read_other :
    (m : Page) (n k : ℕ) (s : Slot)
    → n < 255
    → k < 255
    → k ≢ n
    → read_slot (set_slot m n s).1 (slot_pos k) k ≡ read_slot m (slot_pos k) k
unfolding set_slot
set_slot-read_other m n k s n_lt k_lt other = elim (Bool-cases (ltb n (get_slot_page_header m))) [
  | inl h ↦ rw (h) (
      read_slot-same (save_words m (slot_pos n) (slot_words s)) m (slot_pos k) k (λ j p.
        save_words-off m (slot_pos n) (slot_pos k + j) (slot_words s)
          (apart_slots n k j n_lt k_lt other p)))
  | inr h ↦ rw (h) refl
]

pub set_slot-found :
    (m : Page) (n : ℕ) (s : Slot)
    → n < 255
    → n < get_slot_page_header m
    → IsSlot s
    → get_slot (set_slot m n s).1 n ≡ some (record s { no = n })
unfolding get_slot
set_slot-found m n s n_lt there ok =
    let test : ltb n (get_slot_page_header m) ≡ true = ground arith in
    rw (set_slot-header m n s n_lt, test) (ap some (set_slot-read m n s there ok))

pub set_slot-other :
    (m : Page) (n k : ℕ) (s : Slot)
    → n < 255
    → k < 255
    → k ≢ n
    → get_slot (set_slot m n s).1 k ≡ get_slot m k
unfolding get_slot
set_slot-other m n k s n_lt k_lt other =
    rw (set_slot-header m n s n_lt, set_slot-read_other m n k s n_lt k_lt other) refl

-- After setSlot of one of the slots of a page, whose fields are numbers of their types, getSlot returns
-- it with its number, and the other slots as before. A page has 255 slots at most.
pub set_slot-get_slot :
    (m : Page) (n k : ℕ) (s : Slot)
    → n < 255
    → k < 255
    → n < get_slot_page_header m
    → IsSlot s
    → ((set_slot m n s).0 ≡ no_error)
      × (get_slot (set_slot m n s).1 k
          ≡ (if k == n then some (record s { no = n }) else get_slot m k))
set_slot-get_slot m n k s n_lt k_lt there ok = (
  set_slot-no_error m n s there,
  elim (Bool-cases (k == n)) [
    | inl h ↦ rw (h, (==_iff k n).0 h) (set_slot-found m n s n_lt there ok)
    | inr h ↦
        rw (h) (set_slot-other m n k s n_lt k_lt (λ e. true_not_false (sym ((==_iff k n).1 e) ∙ h)))
  ],
)
