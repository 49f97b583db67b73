-- ===== src/SlotPage.antt =====
-- src/storage/slot_page.c: the slots at the end of a page and the records that they locate.
--
-- A page is its bytes by their offset, with what lies around it. A record's start is a signed number,
-- kept as its 64 bits. Words are written with the highest byte first, on either kind of machine.
pub mod Words
pub mod Slots
pub mod Types
pub mod Room
pub mod Records
pub mod Append
mod Tests
use forfun.Prelude.{
  ℕ, zero, suc, ◌+◌, ◌-◌, ◌*◌, ◌/◌, ◌%◌, ◌^◌, ◌≡◌, Bool, true, false, ◌&&◌, not, if◌then◌else◌, ltb,
  leb, ◌==◌, ◌||◌, Option, none, some, List, [], ◌∷◌,
}

abbrev pub Page : Type 0
Page = ℕ → ℕ

-- Writing a word, and reading `k` bytes of one.
unfoldable pub save_uint64 : Page → ℕ → ℕ → Page
save_uint64 m pos v a =
    if leb pos a && ltb a (pos + 8) then v / 2 ^ (8 * (7 - (a - pos))) % 256 else m a

unfoldable pub read_bytes : Page → ℕ → ℕ → ℕ
read_bytes m pos zero = 0
read_bytes m pos (suc k) = read_bytes m pos k * 256 + m (pos + k)

abbrev pub read_64bits : Page → ℕ → ℕ
read_64bits m pos = read_bytes m pos 8

pub record SlotId : Type 0 where
  pub vol_id : ℕ
  pub pg_id : ℕ
  pub slot_number : ℕ

pub record Slot : Type 0 where
  pub no : ℕ
  pub type : ℕ
  pub length : ℕ
  pub start : ℕ
  pub end : ℕ
  pub op_id : ℕ
  pub next_pos : SlotId

pub data SlotPageError : Type 0 where
  no_error : SlotPageError
  slot_page_not_enough_space : SlotPageError
  slot_page_slot_out_of_range : SlotPageError

-- The types of a slot that the code gives.
abbrev pub alive : ℕ
alive = 0

abbrev pub alive_overflow : ℕ
alive_overflow = 1

abbrev pub dead : ℕ
dead = 2

abbrev pub dead_overflow : ℕ
dead_overflow = 3

unfoldable pub get_slot_page_header : Page → ℕ
get_slot_page_header m = read_64bits m 0

unfoldable pub set_slot_page_header : Page → ℕ → Page
set_slot_page_header m slot_count = save_uint64 m 0 slot_count

-- Where the slot `n` stands.
unfoldable pub slot_pos : ℕ → ℕ
slot_pos n = (16384 + (2 ^ 64 - (n + 1) * 64 % 2 ^ 64)) % 2 ^ 64

-- A slot as its bytes have it.
unfoldable pub read_slot : Page → ℕ → ℕ → Slot
read_slot m pos n = record {
  no = n;
  type = read_64bits m pos % 2 ^ 32;
  length = read_64bits m (pos + 8);
  start = read_64bits m (pos + 16);
  end = read_64bits m (pos + 24);
  op_id = read_64bits m (pos + 32);
  next_pos = record {
    vol_id = read_64bits m (pos + 40);
    pg_id = read_64bits m (pos + 48);
    slot_number = read_64bits m (pos + 56);
  };
}

unfoldable pub get_slot : Page → ℕ → Option Slot
get_slot m n = if ltb n (get_slot_page_header m) then some (read_slot m (slot_pos n) n) else none

-- The words of a slot in their order.
abbrev pub slot_words : Slot → List ℕ
slot_words s =
    s.type ∷ s.length ∷ s.start ∷ s.end ∷ s.op_id ∷ s.next_pos.vol_id ∷ s.next_pos.pg_id
    ∷ s.next_pos.slot_number ∷ []

unfoldable pub save_words : Page → ℕ → List ℕ → Page
save_words m pos [] = m
save_words m pos (w ∷ ws) = save_words (save_uint64 m pos w) (pos + 8) ws

unfoldable pub set_slot : Page → ℕ → Slot → SlotPageError × Page
set_slot m n s =
    if ltb n (get_slot_page_header m)
    then (no_error, save_words m (slot_pos n) (slot_words s))
    else (slot_page_slot_out_of_range, m)

-- The room that is left between the last record and the slots, for a record and its slot. An assertion
-- that fails has no result.
unfoldable pub get_slot_page_left_size : Page → Option ℕ
get_slot_page_left_size m =
    let slot_count = get_slot_page_header m in
    if slot_count == 0
    then none
    else some (
        (16384
          + (2 ^ 64 - (slot_count + 1) * 64 % 2 ^ 64)
          + (2 ^ 64 - (read_slot m (slot_pos (slot_count - 1)) (slot_count - 1)).end % 2 ^ 64)
          + (2 ^ 64 - 1))
        % 2 ^ 64)

-- Going on with the slot that getSlot found, or returning its error.
unfoldable pub with_slot : Page → Option Slot → (Slot → SlotPageError × Page) → SlotPageError × Page
with_slot m (some s) go_on = go_on s
with_slot m none go_on = (slot_page_slot_out_of_range, m)

unfoldable pub located : Option Slot → Option (Slot × ℕ)
located (some s) = some (s, s.start)
located none = none

-- The slot, and the offset of the record's bytes.
unfoldable pub get_slot_page_record : Page → ℕ → Option (Slot × ℕ)
get_slot_page_record m n = if ltb n (get_slot_page_header m) then located (get_slot m n) else none

-- memcpy of `len` bytes to `dst`, which is an address of 64 bits.
unfoldable pub memcpy : Page → ℕ → (ℕ → ℕ) → ℕ → Page
memcpy m dst src len a = let i = (a + (2 ^ 64 - dst)) % 2 ^ 64 in if ltb i len then src i else m a

-- What setSlotPageRecord and updateSlotPageRecord do with the slot that they got.
unfoldable pub put_record : Page → ℕ → Slot → (ℕ → ℕ) → ℕ → SlotPageError × Page
put_record m n s record_p record_len =
    if leb record_len ((s.end + (2 ^ 64 - s.start) + 1) % 2 ^ 64)
    then (let copied = memcpy m s.start record_p record_len in
        if s.length == record_len
        then (no_error, copied)
        else set_slot copied n (record s { length = record_len }))
    else (slot_page_not_enough_space, m)

unfoldable pub set_slot_page_record : Page → ℕ → (ℕ → ℕ) → ℕ → SlotPageError × Page
set_slot_page_record m n record_p record_len =
    with_slot m (get_slot m n) (λ s. put_record m n s record_p record_len)

-- The same code, whose handling of a record that does not fit is to do.
unfoldable pub update_slot_page_record : Page → ℕ → (ℕ → ℕ) → ℕ → SlotPageError × Page
update_slot_page_record m n record_p record_len =
    with_slot m (get_slot m n) (λ s. put_record m n s record_p record_len)

unfoldable pub align_disk_default : ℕ → ℕ
align_disk_default p = (p + 7) % 2 ^ 64 / 8 * 8

-- The slot of a record of `len` bytes behind the last slot `last`, which it also takes op_id and
-- next_pos from.
unfoldable pub appended_slot : Slot → ℕ → ℕ → Slot
appended_slot last slot_count len = record last {
  no = slot_count;
  type = alive;
  length = len;
  start = (last.end + 1) % 2 ^ 64;
  end = (last.end + 1 + align_disk_default len + (2 ^ 64 - 1)) % 2 ^ 64;
}

unfoldable pub append_record : Page → ℕ → (ℕ → ℕ) → ℕ → SlotPageError × Page
append_record m left_size record_p record_len =
    if leb (align_disk_default record_len) left_size
    then (let slot_count = get_slot_page_header m in
        let last = read_slot m (slot_pos (slot_count - 1)) (slot_count - 1) in
        let copied = memcpy m ((last.end + 1) % 2 ^ 64) record_p record_len in
        let slotted = (set_slot copied slot_count (appended_slot last slot_count record_len)).1 in
        (no_error, set_slot_page_header slotted ((slot_count + 1) % 2 ^ 64)))
    else (slot_page_not_enough_space, m)

-- A result if the assertion of getSlotPageLeftSize holds.
unfoldable pub with_left_size :
    Option ℕ → (ℕ → SlotPageError × Page) → Option (SlotPageError × Page)
with_left_size (some left_size) go_on = some (go_on left_size)
with_left_size none go_on = none

unfoldable pub append_slot_page_record : Page → (ℕ → ℕ) → ℕ → Option (SlotPageError × Page)
append_slot_page_record m record_p record_len =
    with_left_size (get_slot_page_left_size m) (λ left. append_record m left record_p record_len)

-- The slot that allocSlot fills in.
unfoldable pub allocated_slot : ℕ → ℕ → ℕ → ℕ → Slot
allocated_slot last_end slot_count size type = record {
  no = slot_count;
  type = type;
  length = 0;
  start = (last_end + 1) % 2 ^ 64;
  end = (last_end + size) % 2 ^ 64;
  op_id = 0;
  next_pos = record { vol_id = 2 ^ 64 - 1; pg_id = 2 ^ 64 - 1; slot_number = 0 };
}

unfoldable pub alloc_in : Page → ℕ → ℕ → ℕ → SlotPageError × Page
alloc_in m left_size size type =
    if leb size left_size
    then (let slot_count = get_slot_page_header m in
        let last = read_slot m (slot_pos (slot_count - 1)) (slot_count - 1) in
        let slotted = (set_slot m slot_count (allocated_slot last.end slot_count size type)).1 in
        (no_error, set_slot_page_header slotted ((slot_count + 1) % 2 ^ 64)))
    else (slot_page_not_enough_space, m)

-- What it does to the page.
unfoldable pub alloc_slot : Page → ℕ → ℕ → Option (SlotPageError × Page)
alloc_slot m size type =
    with_left_size (get_slot_page_left_size m)
      (λ left. alloc_in m left (align_disk_default size) type)

unfoldable pub alloc_overflow_slot : Page → Option (SlotPageError × Page)
alloc_overflow_slot m = alloc_slot m 0 alive_overflow

unfoldable pub set_slot_type : Page → ℕ → ℕ → SlotPageError × Page
set_slot_type m n type =
    with_slot m (get_slot m n)
      (λ s. if s.type == type then (no_error, m) else set_slot m n (record s { type = type }))

-- The type of a slot after deleteSlot.
unfoldable pub deleted : ℕ → ℕ
deleted type =
    if type == alive then dead else (if type == alive_overflow then dead_overflow else type)

unfoldable pub delete_found : Page → ℕ → SlotPageError × Page
delete_found m n = with_slot m (get_slot m n) (λ s.
    if (s.type == alive) || (s.type == alive_overflow)
    then set_slot m n (record s { type = deleted s.type })
    else (no_error, m))

-- A result if the assertion that the slot is not the one of the header holds.
unfoldable pub delete_slot : Page → ℕ → Option (SlotPageError × Page)
delete_slot m n = if ltb 0 n then some (delete_found m n) else none
