-- ===== src/SlotPage/Types.antt =====
-- src/storage/slot_page.c: the types of the slots.
use forfun.Prelude.{
  ltb_lt, ℕ, zero, suc, ◌+◌, ◌-◌, ◌*◌, ◌/◌, ◌%◌, ◌^◌, ◌<◌, ◌≡◌, inl, inr, refl, sym, ap, Bool, true,
  false, Bool-cases, ==_iff, subst, ◌&&◌, ◌||◌, if◌then◌else◌, ltb, leb, ◌==◌, some, none, List, [],
  ◌∷◌, arith,
}
use native.Mathlib.Nat.{pow-suc}
use forfun.SlotPage.{
  Page, Slot, no_error, save_uint64, save_words, read_bytes, slot_pos, read_slot,
  get_slot_page_header, get_slot, set_slot, with_slot, set_slot_type, delete_found, delete_slot,
  SlotPageError, deleted, alive, alive_overflow,
}
use forfun.SlotPage.Slots.{IsSlot, set_slot-get_slot}

-- Bytes are below 256.
pub record IsPage (m : Page) : Type 0 where
  pub bytes : (a : ℕ) → m a < 256

mod_lt : (n : ℕ) → n % 256 < 256
mod_lt n = omega arith

pub save_uint64-IsPage : (m : Page) (pos v : ℕ) → IsPage m → IsPage (save_uint64 m pos v)
unfolding save_uint64
save_uint64-IsPage m pos v ok = record {
  bytes = λ a. elim (Bool-cases (leb pos a && ltb a (pos + 8))) [
    | inl h ↦ rw (h) (mod_lt (v / 2 ^ (8 * (7 - (a - pos)))))
    | inr h ↦ rw (h) (ok.bytes a)
  ];
}

pub save_words-IsPage : (m : Page) (pos : ℕ) (ws : List ℕ) → IsPage m → IsPage (save_words m pos ws)
unfolding save_words
save_words-IsPage m pos [] ok = ok
save_words-IsPage m pos (w ∷ ws) ok =
    save_words-IsPage (save_uint64 m pos w) (pos + 8) ws (save_uint64-IsPage m pos w ok)

read_bytes-bound : (m : Page) (pos k : ℕ) → IsPage m → read_bytes m pos k < 256 ^ k
unfolding read_bytes
read_bytes-bound m pos zero ok = omega arith
read_bytes-bound m pos (suc k) ok =
    let before = read_bytes-bound m pos k ok in
    let last = ok.bytes (pos + k) in
    let power : 256 ^ suc k ≡ 256 ^ k * 256 = pow-suc 256 k in omega arith

pub read_slot-IsSlot : (m : Page) (pos n : ℕ) → IsPage m → IsSlot (read_slot m pos n)
unfolding read_slot
read_slot-IsSlot m pos n ok = record {
  type_small = omega arith;
  length_small = read_bytes-bound m (pos + 8) 8 ok;
  start_small = read_bytes-bound m (pos + 16) 8 ok;
  end_small = read_bytes-bound m (pos + 24) 8 ok;
  op_id_small = read_bytes-bound m (pos + 32) 8 ok;
  vol_id_small = read_bytes-bound m (pos + 40) 8 ok;
  pg_id_small = read_bytes-bound m (pos + 48) 8 ok;
  slot_number_small = read_bytes-bound m (pos + 56) 8 ok;
}

chosen : (b : Bool) (t s : Slot) → (if b then some t else none) ≡ some s → (b ≡ true) × (t ≡ s)
chosen true t s found = (refl, cc)
chosen false t s found = absurd (cc)

-- A slot that getSlot returns.
pub get_slot-some :
    (m : Page) (n : ℕ) (s : Slot)
    → get_slot m n ≡ some s
    → (n < get_slot_page_header m) × (read_slot m (slot_pos n) n ≡ s)
unfolding get_slot
get_slot-some m n s found =
    let passed = chosen (ltb n (get_slot_page_header m)) _ s found in
    let test = passed.0 in (ltb_lt n (get_slot_page_header m) test, passed.1)

pub get_slot-IsSlot : (m : Page) (n : ℕ) (s : Slot) → IsPage m → get_slot m n ≡ some s → IsSlot s
get_slot-IsSlot m n s ok found =
    subst IsSlot (get_slot-some m n s found).1 (read_slot-IsSlot m (slot_pos n) n ok)

-- The number of a slot that getSlot returns.
pub get_slot-no : (m : Page) (n : ℕ) (s : Slot) → get_slot m n ≡ some s → s.no ≡ n
unfolding read_slot
get_slot-no m n s found = sym (ap (λ t. t.no) (get_slot-some m n s found).1)

deleted-small : (t : ℕ) → t < 2 ^ 32 → deleted t < 2 ^ 32
unfolding deleted
deleted-small t small = ground arith

record_type : (t : ℕ) (s : Slot) → s.type ≡ t → record s { type = t } ≡ s
record_type t s e = cc

deleted-other :
    (s : Slot)
    → (s.type == alive) || (s.type == alive_overflow) ≡ false
    → record s { type = deleted s.type } ≡ s
unfolding deleted
deleted-other s h =
    let same : s.type ≡ deleted s.type = ground arith in record_type (deleted s.type) s same

-- A deleted slot stays deleted.
pub deleted-deleted : (t : ℕ) → deleted (deleted t) ≡ deleted t
unfolding deleted
deleted-deleted t = ground arith

record_no : (n : ℕ) (s : Slot) → s.no ≡ n → record s { no = n } ≡ s
record_no n s e = cc

-- Writing back a slot that was found, changed.
pub set_slot-changed :
    (m : Page) (n k : ℕ) (s : Slot)
    → n < 255
    → k < 255
    → n < get_slot_page_header m
    → IsSlot s
    → s.no ≡ n
    → ((set_slot m n s).0 ≡ no_error)
      × (get_slot (set_slot m n s).1 k ≡ (if k == n then some s else get_slot m k))
set_slot-changed m n k s n_lt k_lt there ok own =
    subst
      (λ t.
        ((set_slot m n s).0 ≡ no_error)
        × (get_slot (set_slot m n s).1 k ≡ (if k == n then some t else get_slot m k)))
      (record_no n s own) (set_slot-get_slot m n k s n_lt k_lt there ok)

set_slot-type :
    (m : Page) (n k t : ℕ) (s : Slot)
    → IsPage m
    → n < 255
    → k < 255
    → get_slot m n ≡ some s
    → t < 2 ^ 32
    → ((set_slot m n (record s { type = t })).0 ≡ no_error)
      × (get_slot (set_slot m n (record s { type = t })).1 k
          ≡ (if k == n then some (record s { type = t }) else get_slot m k))
set_slot-type m n k t s ok n_lt k_lt found small =
    let was = get_slot-IsSlot m n s ok found in
    set_slot-changed m n k (record s { type = t }) n_lt k_lt (get_slot-some m n s found).0
      (record {
        type_small = small;
        length_small = was.length_small;
        start_small = was.start_small;
        end_small = was.end_small;
        op_id_small = was.op_id_small;
        vol_id_small = was.vol_id_small;
        pg_id_small = was.pg_id_small;
        slot_number_small = was.slot_number_small;
      })
      (get_slot-no m n s found)

-- Nothing is to be written where a slot stays as it is.
pub kept_slot :
    (m : Page) (n k : ℕ) (s t : Slot)
    → get_slot m n ≡ some s
    → t ≡ s
    → get_slot m k ≡ (if k == n then some t else get_slot m k)
kept_slot m n k s t found same = elim (Bool-cases (k == n)) [
  | inl h ↦ rw (h, (==_iff k n).0 h, same) found
  | inr h ↦ rw (h) refl
]

delete_found-get_slot :
    (m : Page) (n k : ℕ) (s : Slot)
    → IsPage m
    → n < 255
    → k < 255
    → get_slot m n ≡ some s
    → ((delete_found m n).0 ≡ no_error)
      × (get_slot (delete_found m n).1 k
          ≡ (if k == n then some (record s { type = deleted s.type }) else get_slot m k))
unfolding delete_found with_slot
delete_found-get_slot m n k s ok n_lt k_lt found =
    elim (Bool-cases ((s.type == alive) || (s.type == alive_overflow))) [
      | inl h ↦
          rw (found, h)
            (set_slot-type m n k (deleted s.type) s ok n_lt k_lt found
              (deleted-small s.type (get_slot-IsSlot m n s ok found).type_small))
      | inr h ↦
          rw (found, h)
            (refl, kept_slot m n k s (record s { type = deleted s.type }) found (deleted-other s h))
    ]

-- deleteSlot of a slot that is not the one of the header, number 0, and that getSlot returns as `s`,
-- passes its assertion, reports no error and leaves the other slots, and the slot itself but for its
-- type: alive becomes dead, alive_overflow becomes dead_overflow, and any other type stays. The bytes
-- of the page are below 256, and both slots among the 255 that a page can have. On the slot of the
-- header the assertion fails.
pub delete_slot-get_slot :
    (m : Page) (n k : ℕ) (s : Slot)
    → IsPage m
    → 0 < n
    → n < 255
    → k < 255
    → get_slot m n ≡ some s
    → ((r : SlotPageError × Page) × (delete_slot m n ≡ some r)
        × (r.0 ≡ no_error)
        × (get_slot r.1 k
            ≡ (if k == n then some (record s { type = deleted s.type }) else get_slot m k)))
      × (delete_slot m 0 ≡ none)
unfolding delete_slot
delete_slot-get_slot m n k s ok not_header n_lt k_lt found =
    let test : ltb 0 n ≡ true = ground arith in
    let (code, slots) = delete_found-get_slot m n k s ok n_lt k_lt found in
    ((delete_found m n, rw (test) refl, code, slots), refl)

-- setSlotType of a slot that getSlot returns as `s` gives it the type, a number of 32 bits, and leaves
-- the rest of it and the other slots.
pub set_slot_type-get_slot :
    (m : Page) (n k t : ℕ) (s : Slot)
    → IsPage m
    → n < 255
    → k < 255
    → get_slot m n ≡ some s
    → t < 2 ^ 32
    → ((set_slot_type m n t).0 ≡ no_error)
      × (get_slot (set_slot_type m n t).1 k
          ≡ (if k == n then some (record s { type = t }) else get_slot m k))
unfolding set_slot_type with_slot
set_slot_type-get_slot m n k t s ok n_lt k_lt found small = elim (Bool-cases (s.type == t)) [
  | inl h ↦
      rw (found, h)
        (
          refl,
          kept_slot m n k s (record s { type = t }) found (record_type t s ((==_iff s.type t).0 h)),
        )
  | inr h ↦ rw (found, h) (set_slot-type m n k t s ok n_lt k_lt found small)
]
