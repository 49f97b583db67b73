-- ===== src/SlotPage/Tests.antt =====
-- Slots and records of a page with two slots.
use forfun.Prelude.{none, ℕ, ◌+◌, ◌-◌, ◌^◌, ◌≡◌, refl, some, arith}
use forfun.SlotPage.{
  SlotPageError, Page, Slot, no_error, save_uint64, read_bytes, save_words, slot_words, slot_pos,
  read_slot, get_slot_page_header, get_slot, set_slot, get_slot_page_record, set_slot_page_record,
  align_disk_default, append_slot_page_record, delete_slot, deleted, alive,
}
use forfun.SlotPage.Slots.{IsSlot, set_slot-get_slot}
use forfun.SlotPage.Types.{IsPage, save_uint64-IsPage, save_words-IsPage, delete_slot-get_slot}
use forfun.SlotPage.Room.{IsRoom}
use forfun.SlotPage.Records.{set_slot_page_record-get_slot_page_record}
use forfun.SlotPage.Append.{IsFilled, last_slot, appended, append_slot_page_record-get_slot}

-- The slot of the header, and a record of five bytes in the room of eight.
abbrev header_slot : Slot
header_slot = record {
  no = 0;
  type = alive;
  length = 8;
  start = 0;
  end = 7;
  op_id = 0;
  next_pos = record { vol_id = 2 ^ 64 - 1; pg_id = 2 ^ 64 - 1; slot_number = 0 };
}

abbrev five : Slot
five = record {
  no = 1;
  type = alive;
  length = 5;
  start = 8;
  end = 15;
  op_id = 3;
  next_pos = record { vol_id = 2 ^ 64 - 1; pg_id = 2 ^ 64 - 1; slot_number = 0 };
}

abbrev two_slots : Page
two_slots =
    save_words (save_words (save_uint64 (λ a. 0) 0 2) 16320 (slot_words header_slot)) 16256
      (slot_words five)

two_slots-IsPage : IsPage two_slots
two_slots-IsPage = save_words-IsPage _ 16256 (slot_words five) (
    save_words-IsPage _ 16320 (slot_words header_slot)
      (save_uint64-IsPage (λ a. 0) 0 2 (record { bytes = λ a. omega arith })))

two_slots-header : get_slot_page_header two_slots ≡ 2
unfolding get_slot_page_header read_bytes save_words save_uint64
two_slots-header = refl

two_slots-five : get_slot two_slots 1 ≡ some five
unfolding get_slot get_slot_page_header slot_pos read_slot read_bytes save_words save_uint64
two_slots-five = refl

five-IsSlot : IsSlot five
five-IsSlot = record {
  type_small = omega arith;
  length_small = omega arith;
  start_small = omega arith;
  end_small = omega arith;
  op_id_small = omega arith;
  vol_id_small = omega arith;
  pg_id_small = omega arith;
  slot_number_small = omega arith;
}

set_slot-get_slot_example :
    ((set_slot two_slots 1 five).0 ≡ no_error)
    × (get_slot (set_slot two_slots 1 five).1 0 ≡ get_slot two_slots 0)
set_slot-get_slot_example =
    set_slot-get_slot two_slots 1 0 five (omega arith) (omega arith)
      (omega (arith, two_slots-header)) five-IsSlot

delete_slot-get_slot_example :
    ((r : SlotPageError × Page) × (delete_slot two_slots 1 ≡ some r)
      × (r.0 ≡ no_error)
      × (get_slot r.1 1 ≡ some (record five { type = deleted alive })))
    × (delete_slot two_slots 0 ≡ none)
delete_slot-get_slot_example =
    delete_slot-get_slot two_slots 1 1 five two_slots-IsPage (omega arith) (omega arith)
      (omega arith) two_slots-five

-- A record of three bytes for the one of five.
abbrev three : ℕ → ℕ
three i = i + 65

five-IsRoom : IsRoom two_slots 8 3
five-IsRoom = record {
  behind_header = omega arith;
  slots_fit = omega (arith, two_slots-header);
  before_slots = omega (arith, two_slots-header);
}

set_slot_page_record-get_slot_page_record_example :
    ((set_slot_page_record two_slots 1 three 3).0 ≡ no_error)
    × (get_slot_page_record (set_slot_page_record two_slots 1 three 3).1 1
        ≡ some (record five { length = 3 }, 8))
    × ((set_slot_page_record two_slots 1 three 3).1 9 ≡ 66)
    × (get_slot (set_slot_page_record two_slots 1 three 3).1 1 ≡ some (record five { length = 3 }))
set_slot_page_record-get_slot_page_record_example =
    set_slot_page_record-get_slot_page_record two_slots 1 1 9 3 five three two_slots-IsPage
      two_slots-five (omega arith) (omega arith) (omega arith) five-IsRoom
      (omega (arith, two_slots-header)) (omega (arith, two_slots-header))

two_slots-end : (last_slot two_slots).end ≡ 15
unfolding get_slot_page_header slot_pos read_slot read_bytes save_words save_uint64
two_slots-end = refl

two_slots-IsFilled : IsFilled two_slots
two_slots-IsFilled = record {
  has_slot = omega (arith, two_slots-header);
  header_before = omega (arith, two_slots-end);
  end_before = omega (arith, two_slots-header, two_slots-end);
}

align_three : align_disk_default 3 ≡ 8
unfolding align_disk_default
align_three = refl

append_slot_page_record-get_slot_example :
    (append_slot_page_record two_slots three 3 ≡ some (no_error, appended two_slots three 3))
    × (get_slot_page_header (appended two_slots three 3) ≡ get_slot_page_header two_slots + 1)
    × (get_slot (appended two_slots three 3) 2 ≡ some (read_slot two_slots (slot_pos 2) 2))
append_slot_page_record-get_slot_example =
    append_slot_page_record-get_slot two_slots 3 2 three two_slots-IsFilled (omega arith)
      (omega (arith, align_three, two_slots-header, two_slots-end))
      (omega (arith, two_slots-header))
