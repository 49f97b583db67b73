-- ===== src/SlotPage/Append.antt =====
-- src/storage/slot_page.c: the record that appendSlotPageRecord adds to a page.
use forfun.Prelude.{
  ℕ, ◌+◌, ◌-◌, ◌*◌, ◌%◌, ◌^◌, ◌≤◌, ◌<◌, ◌≡◌, inr, refl, ap, ◌∙◌, true, false, subst, ltb, leb, ◌==◌,
  some, arith,
}
use forfun.SlotPage.{
  Page, Slot, no_error, slot_pos, read_slot, get_slot_page_header, set_slot_page_header, get_slot,
  set_slot, memcpy, get_slot_page_left_size, align_disk_default, appended_slot, append_record,
  with_left_size, append_slot_page_record,
}
use forfun.SlotPage.Words.{save_uint64-off, read_64bits-save_uint64}
use forfun.SlotPage.Slots.{read_slot-same, slot_pos-within}
use forfun.SlotPage.Room.{IsRoom, memcpy-header, memcpy-out}

-- The last slot of a page with slots.
abbrev pub last_slot : Page → Slot
last_slot m = read_slot m (slot_pos (get_slot_page_header m - 1)) (get_slot_page_header m - 1)

-- A page with at least one slot, whose records end before a new slot.
pub record IsFilled (m : Page) : Type 0 where
  pub has_slot : 1 ≤ get_slot_page_header m
  pub header_before : 7 ≤ (last_slot m).end
  pub end_before : (last_slot m).end + 1 + (get_slot_page_header m + 1) * 64 ≤ 16384

-- The room that is left.
abbrev pub room_of : Page → ℕ
room_of m = 16384 - ((last_slot m).end + 1 + (get_slot_page_header m + 1) * 64)

left_size-room : (m : Page) → IsFilled m → get_slot_page_left_size m ≡ some (room_of m)
unfolding get_slot_page_left_size
left_size-room m ok =
    let some_slot = ok.has_slot in
    let fit = ok.end_before in
    let test : get_slot_page_header m == 0 ≡ false = ground arith in
    rw (test) (ap some (omega arith))

align_disk_default-le : (len : ℕ) → len + 7 < 2 ^ 64 → len ≤ align_disk_default len
unfolding align_disk_default
align_disk_default-le len small = omega arith

-- The slot behind the last one is not one of the page's, so setSlot refuses it.
set_slot-refused : (m : Page) (s : Slot) → (set_slot m (get_slot_page_header m) s).1 ≡ m
unfolding set_slot
set_slot-refused m s =
    let test : ltb (get_slot_page_header m) (get_slot_page_header m) ≡ false = ground arith in
    rw (test) refl

pub appended : Page → (ℕ → ℕ) → ℕ → Page
appended m src len =
    set_slot_page_header (memcpy m ((last_slot m).end + 1) src len) (get_slot_page_header m + 1)

append_record-appended :
    (m : Page) (len : ℕ) (src : ℕ → ℕ)
    → IsFilled m
    → len + 7 < 2 ^ 64
    → align_disk_default len ≤ room_of m
    → append_record m (room_of m) src len ≡ (no_error, appended m src len)
unfolding append_record appended
append_record-appended m len src ok small fit =
    let some_slot = ok.has_slot in
    let first = ok.header_before in
    let last = ok.end_before in
    let longer = align_disk_default-le len small in
    let test : leb (align_disk_default len) (room_of m) ≡ true = ground arith in
    let start : ((last_slot m).end + 1) % 2 ^ 64 ≡ (last_slot m).end + 1 = omega arith in
    let next : (get_slot_page_header m + 1) % 2 ^ 64 ≡ get_slot_page_header m + 1 = omega arith in
    let room : IsRoom m ((last_slot m).end + 1) len = record {
      behind_header = omega arith;
      slots_fit = omega arith;
      before_slots = omega arith;
    } in
    let header = memcpy-header m ((last_slot m).end + 1) len src room in
    let copied = memcpy m ((last_slot m).end + 1) src len in
    let same : (set_slot copied (get_slot_page_header m)
          (appended_slot (last_slot m) (get_slot_page_header m) len)).1
        ≡ copied =
      subst
        (λ c.
          (set_slot copied c (appended_slot (last_slot m) (get_slot_page_header m) len)).1 ≡ copied)
        header
        (set_slot-refused copied (appended_slot (last_slot m) (get_slot_page_header m) len)) in
    rw (test, start, next, same) refl

header-small : (m : Page) → IsFilled m → get_slot_page_header m + 1 < 2 ^ 64
header-small m ok = let last = ok.end_before in omega arith

appended-header :
    (m : Page) (len : ℕ) (src : ℕ → ℕ)
    → IsFilled m
    → get_slot_page_header (appended m src len) ≡ get_slot_page_header m + 1
unfolding appended get_slot_page_header set_slot_page_header
appended-header m len src ok =
    read_64bits-save_uint64 (memcpy m ((last_slot m).end + 1) src len) 0
      (get_slot_page_header m + 1) (header-small m ok)

-- The words of the new slot are what they were.
appended-slot :
    (m : Page) (len : ℕ) (src : ℕ → ℕ)
    → IsFilled m
    → (last_slot m).end + 1 + len + (get_slot_page_header m + 1) * 64 ≤ 16384
    → (k : ℕ) → k ≤ get_slot_page_header m
    → read_slot (appended m src len) (slot_pos k) k ≡ read_slot m (slot_pos k) k
unfolding appended set_slot_page_header
appended-slot m len src ok fit k below =
    let first = ok.header_before in
    let at = slot_pos-within k (omega arith) in
    read_slot-same (appended m src len) m (slot_pos k) k (λ j p.
      save_uint64-off _ 0 (get_slot_page_header m + 1) (slot_pos k + j) (inr (omega arith))
      ∙ memcpy-out m ((last_slot m).end + 1) len (slot_pos k + j) src (omega arith) (omega arith)
          (inr (omega arith)))

-- appendSlotPageRecord of a record that fits in the room that is left copies the record and counts a
-- slot more, but writes no slot: what getSlot returns as the new slot is the bytes that were there, and
-- the other slots are as before. The page has a slot, and its last record ends
-- behind the header and before a new slot.
pub append_slot_page_record-get_slot :
    (m : Page) (len k : ℕ) (src : ℕ → ℕ)
    → IsFilled m
    → len + 7 < 2 ^ 64
    → align_disk_default len ≤ room_of m
    → k ≤ get_slot_page_header m
    → (append_slot_page_record m src len ≡ some (no_error, appended m src len))
      × (get_slot_page_header (appended m src len) ≡ get_slot_page_header m + 1)
      × (get_slot (appended m src len) k ≡ some (read_slot m (slot_pos k) k))
unfolding append_slot_page_record with_left_size get_slot
append_slot_page_record-get_slot m len k src ok small fit below =
    let longer = align_disk_default-le len small in
    let last = ok.end_before in
    let header = appended-header m len src ok in
    let test : ltb k (get_slot_page_header m + 1) ≡ true = ground arith in
    (
      rw (left_size-room m ok) (ap some (append_record-appended m len src ok small fit)),
      header,
      rw (header, test) (ap some (appended-slot m len src ok (omega arith) k below)),
    )
