-- ===== src/SlotPage/Records.antt =====
-- src/storage/slot_page.c: the records of a page.
use forfun.Prelude.{
  ℕ, ◌+◌, ◌-◌, ◌*◌, ◌%◌, ◌^◌, ◌≤◌, ◌<◌, ◌≡◌, inl, inr, refl, sym, ◌∙◌, true, false, Bool-cases,
  ==_iff, ==_refl, ◌&&◌, if◌then◌else◌, ltb, leb, ◌==◌, some, arith,
}
use forfun.SlotPage.{
  Page, Slot, no_error, slot_page_not_enough_space, get_slot_page_header, get_slot, with_slot,
  memcpy, located, get_slot_page_record, put_record, set_slot_page_record,
}
use forfun.SlotPage.Slots.{IsSlot, slot_pos-within}
use forfun.SlotPage.Types.{
  IsPage, get_slot-some, get_slot-IsSlot, get_slot-no, set_slot-changed, kept_slot,
}
use forfun.SlotPage.Room.{IsRoom, memcpy-at, memcpy-header, memcpy-get_slot, set_slot-off}

with_length : (len : ℕ) (s : Slot) → s.length ≡ len → record s { length = len } ≡ s
with_length len s e = cc

length-IsSlot : (s : Slot) (len : ℕ) → len < 2 ^ 64 → IsSlot s → IsSlot (record s { length = len })
length-IsSlot s len small was = record {
  type_small = was.type_small;
  length_small = small;
  start_small = was.start_small;
  end_small = was.end_small;
  op_id_small = was.op_id_small;
  vol_id_small = was.vol_id_small;
  pg_id_small = was.pg_id_small;
  slot_number_small = was.slot_number_small;
}

-- The room of a slot, in the arithmetic of the code.
pub fits :
    (s : Slot) (len : ℕ)
    → s.start ≤ s.end
    → s.end < 16384
    → s.start + len ≤ s.end + 1
    → leb len ((s.end + (2 ^ 64 - s.start) + 1) % 2 ^ 64) ≡ true
fits s len order within room =
    let size : (s.end + (2 ^ 64 - s.start) + 1) % 2 ^ 64 ≡ s.end + 1 - s.start = omega arith in
    rw (size) (ground arith)

put_record-slots :
    (m : Page) (n k len : ℕ) (s : Slot) (src : ℕ → ℕ)
    → IsPage m
    → get_slot m n ≡ some s
    → s.start ≤ s.end
    → s.end < 16384
    → s.start + len ≤ s.end + 1
    → IsRoom m s.start len
    → k < get_slot_page_header m
    → ((put_record m n s src len).0 ≡ no_error)
      × (get_slot (put_record m n s src len).1 k
          ≡ (if k == n then some (record s { length = len }) else get_slot m k))
unfolding put_record
put_record-slots m n k len s src ok found order within fit room there =
    let was = get_slot-IsSlot m n s ok found in
    let inside = (get_slot-some m n s found).0 in
    let all = room.slots_fit in
    let before = room.before_slots in
    let copied = memcpy m s.start src len in
    let header = memcpy-header m s.start len src room in
    let others = memcpy-get_slot m s.start len k src room there in
    elim (Bool-cases (s.length == len)) [
      | inl h ↦
          rw (fits s len order within fit, h)
            (
              refl,
              others
                  ∙ kept_slot m n k s (record s { length = len }) found
                      (with_length len s ((==_iff s.length len).0 h)),
            )
      | inr h ↦
          let written =
            set_slot-changed copied n k (record s { length = len }) (omega arith) (omega arith)
              (rw (header) inside) (length-IsSlot s len (omega arith) was)
              (get_slot-no m n s found) in
          rw (fits s len order within fit, h, sym others) written
    ]

put_record-bytes :
    (m : Page) (n a len : ℕ) (s : Slot) (src : ℕ → ℕ)
    → IsPage m
    → get_slot m n ≡ some s
    → s.start ≤ s.end
    → s.end < 16384
    → s.start + len ≤ s.end + 1
    → IsRoom m s.start len
    → a + get_slot_page_header m * 64 < 16384
    → (put_record m n s src len).1 a
      ≡ (if leb s.start a && ltb a (s.start + len) then src (a - s.start) else m a)
unfolding put_record
put_record-bytes m n a len s src ok found order within fit room below =
    let was = get_slot-IsSlot m n s ok found in
    let inside = (get_slot-some m n s found).0 in
    let all = room.slots_fit in
    let before = room.before_slots in
    let copied = memcpy m s.start src len in
    let bytes = memcpy-at m s.start len a src (omega arith) (omega arith) in
    let pos = slot_pos-within n (omega arith) in
    elim (Bool-cases (s.length == len)) [
      | inl h ↦ rw (fits s len order within fit, h) bytes
      | inr h ↦
          rw (fits s len order within fit, h)
            (set_slot-off copied n a (record s { length = len }) (omega arith) (omega arith)
              ∙ bytes)
    ]

pub get_slot-record :
    (m : Page) (n : ℕ) (s : Slot)
    → get_slot m n ≡ some s
    → get_slot_page_record m n ≡ some (s, s.start)
unfolding get_slot_page_record located
get_slot-record m n s found =
    let inside = (get_slot-some m n s found).0 in
    let test : ltb n (get_slot_page_header m) ≡ true = ground arith in rw (test, found) refl

-- setSlotPageRecord of `len` bytes to a slot that getSlot returns as `s`, where the bytes fit in the
-- room of the slot, and the record lies between the header of the page and its slots, of which there
-- are 254 at most: the record that getSlotPageRecord returns then starts where it did and has the
-- length `len`, the bytes up to the slots are the new ones there and the old ones elsewhere, and the
-- other slots stay. The bytes of the page are below 256, and the room of the slot ends within it.
pub set_slot_page_record-get_slot_page_record :
    (m : Page) (n k a len : ℕ) (s : Slot) (src : ℕ → ℕ)
    → IsPage m
    → get_slot m n ≡ some s
    → s.start ≤ s.end
    → s.end < 16384
    → s.start + len ≤ s.end + 1
    → IsRoom m s.start len
    → k < get_slot_page_header m
    → a + get_slot_page_header m * 64 < 16384
    → ((set_slot_page_record m n src len).0 ≡ no_error)
      × (get_slot_page_record (set_slot_page_record m n src len).1 n
          ≡ some (record s { length = len }, s.start))
      × ((set_slot_page_record m n src len).1 a
          ≡ (if leb s.start a && ltb a (s.start + len) then src (a - s.start) else m a))
      × (get_slot (set_slot_page_record m n src len).1 k
          ≡ (if k == n then some (record s { length = len }) else get_slot m k))
unfolding set_slot_page_record with_slot
set_slot_page_record-get_slot_page_record m n k a len s src ok found order within fit room there
      below =
    let inside = (get_slot-some m n s found).0 in
    let own = put_record-slots m n n len s src ok found order within fit room inside in
    let other = put_record-slots m n k len s src ok found order within fit room there in
    let self : get_slot (put_record m n s src len).1 n ≡ some (record s { length = len }) =
      own.1 ∙ (rw (==_refl n) refl) in
    rw (found) (
      other.0,
      get_slot-record (put_record m n s src len).1 n (record s { length = len }) self,
      put_record-bytes m n a len s src ok found order within fit room below,
      other.1,
    )

-- A record that is longer than the room of its slot is refused, and the page stays as it is. The room
-- lies within the page.
pub set_slot_page_record-not_enough :
    (m : Page) (n len : ℕ) (s : Slot) (src : ℕ → ℕ)
    → get_slot m n ≡ some s
    → s.start ≤ s.end
    → s.end < 16384
    → s.end + 1 < s.start + len
    → set_slot_page_record m n src len ≡ (slot_page_not_enough_space, m)
unfolding set_slot_page_record with_slot put_record
set_slot_page_record-not_enough m n len s src found order within long =
    let size : (s.end + (2 ^ 64 - s.start) + 1) % 2 ^ 64 ≡ s.end + 1 - s.start = omega arith in
    let test : leb len (s.end + 1 - s.start) ≡ false = ground arith in rw (found, size, test) refl
