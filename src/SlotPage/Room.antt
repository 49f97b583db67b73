-- ===== src/SlotPage/Room.antt =====
-- src/storage/slot_page.c: copies between the header of a page and its slots.
use forfun.Prelude.{
  ℕ, ◌+◌, ◌-◌, ◌*◌, ◌%◌, ◌^◌, ◌≤◌, ◌<◌, ◌≡◌, ◌⊎◌, inl, inr, refl, true, false, Bool-cases, subst,
  ◌&&◌, if◌then◌else◌, ltb, leb, arith,
}
use forfun.SlotPage.{
  Page, Slot, slot_words, slot_pos, read_slot, get_slot_page_header, get_slot, set_slot, memcpy,
}
use forfun.SlotPage.Words.{read_bytes-same, save_words-off}
use forfun.SlotPage.Slots.{read_slot-same, slot_pos-within}

memcpy-in :
    (m : Page) (dst len i : ℕ) (src : ℕ → ℕ)
    → dst + len ≤ 16384
    → i < len
    → memcpy m dst src len (dst + i) ≡ src i
unfolding memcpy
memcpy-in m dst len i src room below =
    let at : (dst + i + (2 ^ 64 - dst)) % 2 ^ 64 ≡ i = omega arith in
    let test : ltb i len ≡ true = ground arith in rw (at, test) refl

pub memcpy-out :
    (m : Page) (dst len a : ℕ) (src : ℕ → ℕ)
    → dst + len ≤ 16384
    → a < 16384
    → (a < dst) ⊎ (dst + len ≤ a)
    → memcpy m dst src len a ≡ m a
unfolding memcpy
memcpy-out m dst len a src room within out =
    let far : len ≤ (a + (2 ^ 64 - dst)) % 2 ^ 64 = ground arith in
    let test : ltb ((a + (2 ^ 64 - dst)) % 2 ^ 64) len ≡ false = ground arith in rw (test) refl

-- What memcpy to a page leaves at each offset.
pub memcpy-at :
    (m : Page) (dst len a : ℕ) (src : ℕ → ℕ)
    → dst + len ≤ 16384
    → a < 16384
    → memcpy m dst src len a ≡ (if leb dst a && ltb a (dst + len) then src (a - dst) else m a)
memcpy-at m dst len a src room within = elim (Bool-cases (leb dst a && ltb a (dst + len))) [
  | inl h ↦
      let first : dst ≤ a = ground arith in
      let last : a < dst + len = ground arith in
      let at : dst + (a - dst) ≡ a = omega arith in
      rw (h) (
        subst (λ b. memcpy m dst src len b ≡ src (a - dst)) at
          (memcpy-in m dst len (a - dst) src room (omega arith)))
  | inr h ↦ rw (h) (memcpy-out m dst len a src room within (ground arith))
]

-- A record of `len` bytes at `dst` lies between the header and the slots of a page.
pub record IsRoom (m : Page) (dst len : ℕ) : Type 0 where
  pub behind_header : 8 ≤ dst
  pub slots_fit : get_slot_page_header m ≤ 254
  pub before_slots : dst + len + get_slot_page_header m * 64 ≤ 16384

pub memcpy-header :
    (m : Page) (dst len : ℕ) (src : ℕ → ℕ)
    → IsRoom m dst len
    → get_slot_page_header (memcpy m dst src len) ≡ get_slot_page_header m
unfolding get_slot_page_header
memcpy-header m dst len src room =
    let first = room.behind_header in
    let last : dst + len ≤ 16384 = ground (arith, room.before_slots) in
    read_bytes-same (memcpy m dst src len) m 0 8
      (λ j p. memcpy-out m dst len (0 + j) src last (omega arith) (inl (omega arith)))

-- A copy between the header and the slots leaves the slots.
memcpy-slot :
    (m : Page) (dst len k : ℕ) (src : ℕ → ℕ)
    → IsRoom m dst len
    → k < get_slot_page_header m
    → read_slot (memcpy m dst src len) (slot_pos k) k ≡ read_slot m (slot_pos k) k
memcpy-slot m dst len k src room there =
    let fit = room.slots_fit in
    let before = room.before_slots in
    let at = slot_pos-within k (omega arith) in
    read_slot-same (memcpy m dst src len) m (slot_pos k) k (λ j p.
      memcpy-out m dst len (slot_pos k + j) src (omega arith) (omega arith) (inr (omega arith)))

pub memcpy-get_slot :
    (m : Page) (dst len k : ℕ) (src : ℕ → ℕ)
    → IsRoom m dst len
    → k < get_slot_page_header m
    → get_slot (memcpy m dst src len) k ≡ get_slot m k
unfolding get_slot
memcpy-get_slot m dst len k src room there =
    rw (memcpy-header m dst len src room, memcpy-slot m dst len k src room there) refl

-- Writing a slot leaves the records.
pub set_slot-off :
    (m : Page) (n a : ℕ) (s : Slot) → n < 255 → a < slot_pos n → (set_slot m n s).1 a ≡ m a
unfolding set_slot
set_slot-off m n a s n_lt before = elim (Bool-cases (ltb n (get_slot_page_header m))) [
  | inl h ↦ rw (h) (save_words-off m (slot_pos n) a (slot_words s) (inl before))
  | inr h ↦ rw (h) refl
]
