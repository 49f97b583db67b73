-- ===== src/BaseString/Laws.antt =====
-- What the operations of base_string.c make of the text of a string.
use forfun.Prelude.{
  ℕ, suc, ◌+◌, ◌-◌, ◌*◌, ◌/◌, ◌≤◌, ◌<◌, ◌≡◌, ◌≢◌, refl, ◌∙◌, ap, true, if◌then◌else◌, ltb, leb,
  some, [], length, Bool-cases, inl, inr, arith,
}
use forfun.BaseString.{
  BaseString, no_error, align_default, copy_bytes, fill, new_string, init_string, copy_string,
  copy_into, grow, put_byte, append_byte, put_bytes, append_bytes,
}

-- The text lies within the capacity, and so does the zero behind it.
abbrev pub IsString : BaseString → Type 0
IsString str = (str.length < str.size) × (str.bytes str.length ≡ 0)

abbrev pub Keeps : BaseString → BaseString → Type 0
Keeps str after = (k : ℕ) → k < str.length → after.bytes k ≡ str.bytes k

pub record Appended (str after : BaseString) (count : ℕ) (added : ℕ → ℕ) : Type 0 where
  pub is_string : IsString after
  pub longer : after.length ≡ str.length + count
  pub keeps : Keeps str after
  pub holds : (k : ℕ) → k < count → after.bytes (str.length + k) ≡ added k

put_byte-Appended :
    (str : BaseString) (b : ℕ)
    → str.length + 1 < str.size
    → Appended str (put_byte str b) 1 (λ k. b)
put_byte-Appended str b room = record {
  is_string = (omega arith, ground arith);
  longer = omega arith;
  keeps = λ k n. ground arith;
  holds = λ k n. let same : str.length + k ≡ str.length = omega arith in rw (same) (ground arith);
}

put_bytes-Appended :
    (str : BaseString) (source : ℕ → ℕ) (count : ℕ)
    → str.length + count < str.size
    → Appended str (put_bytes str source count) count source
put_bytes-Appended str source count room = record {
  is_string = (room, ground arith);
  longer = refl;
  keeps = λ k n. ground arith;
  holds = λ k n.
      let other : (put_bytes str source count).bytes (str.length + k)
          ≡ source (str.length + k - str.length) =
        ground arith in
      other ∙ ap source (omega arith);
}

grow-Keeps : (str : BaseString) (new_size : ℕ) (block : ℕ → ℕ) → Keeps str (grow str new_size block)
grow-Keeps str new_size block k n =
    let inside : copy_bytes block 0 str.bytes str.length k ≡ str.bytes (k - 0) = ground arith in
    let other : (grow str new_size block).bytes k ≡ copy_bytes block 0 str.bytes str.length k =
      ground arith in
    other ∙ inside ∙ ap str.bytes (omega arith)

-- A change of a string that has grown is one of the string.
grown :
    (str after : BaseString) (new_size count : ℕ) (block added : ℕ → ℕ)
    → Appended (grow str new_size block) after count added
    → Appended str after count added
grown str after new_size count block added a = record {
  is_string = a.is_string;
  longer = a.longer;
  keeps = λ k n. a.keeps k n ∙ grow-Keeps str new_size block k n;
  holds = a.holds;
}

-- appendByte, given memory, puts the byte behind the text of a string that has room for two bytes at
-- least, and ends it with a zero within the capacity.
pub append_byte-Appended :
    (str : BaseString) (b : ℕ) (block : ℕ → ℕ)
    → IsString str
    → 2 ≤ str.size
    → ((append_byte str b (some block)).0 ≡ no_error)
      × Appended str (append_byte str b (some block)).1 1 (λ k. b)
unfolding append_byte
append_byte-Appended str b block (inside, ended) two =
    elim (Bool-cases (leb str.size (str.length + 1))) [
      | inl full ↦
          let room : str.length + 1 < str.size * 3 / 2 = omega arith in
          rw (full) (
            refl,
            grown str _ (str.size * 3 / 2) 1 block (λ k. b)
                (put_byte-Appended (grow str (str.size * 3 / 2) block) b room),
          )
      | inr room ↦ rw (room) (refl, put_byte-Appended str b (ground arith))
    ]

-- appendBytes, given memory, puts the bytes behind the text of a string and ends it with a zero within
-- the capacity. The number of bytes is not zero.
pub append_bytes-Appended :
    (str : BaseString) (source : ℕ → ℕ) (count : ℕ) (block : ℕ → ℕ)
    → IsString str
    → 0 < count
    → ((append_bytes str source count (some block)).0 ≡ no_error)
      × Appended str (append_bytes str source count (some block)).1 count source
unfolding append_bytes
append_bytes-Appended str source count block (inside, ended) some_bytes =
    elim (Bool-cases (leb str.size (str.length + count))) [
      | inl full ↦
          let room : str.length + count < str.size + count * 3 / 2 = omega arith in
          rw (full) (
            refl,
            grown str _ (str.size + count * 3 / 2) count block source
                (put_bytes-Appended (grow str (str.size + count * 3 / 2) block) source count room),
          )
      | inr room ↦ rw (room) (refl, put_bytes-Appended str source count (ground arith))
    ]

-- The length of the destination of copyString when its text is overwritten.
abbrev pub old_length : BaseString → BaseString → ℕ
old_length dst src = if ltb dst.size src.size then 0 else dst.length

-- copyString, given memory, copies the length and every byte of the source but one: at the length
-- that the destination had, which is 0 after it has been made anew, stands a zero.
pub copy_string_lem :
    (dst src : BaseString) (block : ℕ → ℕ)
    → (after : BaseString) × (copy_string dst src (some block) ≡ (no_error, some after))
      × (after.length ≡ src.length)
      × (after.bytes (old_length dst src) ≡ 0)
      × ((k : ℕ) → k < src.length → k ≢ old_length dst src → after.bytes k ≡ src.bytes k)
unfolding copy_string init_string fill
copy_string_lem dst src block = elim (Bool-cases (ltb dst.size src.size)) [
  | inl small ↦
      let fresh = new_string (align_default src.size) [] block in
      rw (small)
        (copy_into fresh src, refl, refl, ended fresh 0 refl, λ k n ne. copied fresh 0 refl k n ne)
  | inr fits ↦ rw (fits) (
    copy_into dst src,
    refl,
    refl,
    ended dst dst.length refl,
    λ k n ne. copied dst dst.length refl k n ne,
  )
]
  where
    ended : (d : BaseString) (old : ℕ) → d.length ≡ old → (copy_into d src).bytes old ≡ 0
    ended d old e = ground arith

    copied :
        (d : BaseString) (old : ℕ)
        → d.length ≡ old
        → (k : ℕ) → k < src.length
        → k ≢ old
        → (copy_into d src).bytes k ≡ src.bytes k
    copied d old e k n ne =
        let inside : copy_bytes d.bytes 0 src.bytes src.length k ≡ src.bytes (k - 0) =
          ground arith in
        let other : (copy_into d src).bytes k ≡ copy_bytes d.bytes 0 src.bytes src.length k =
          ground arith in
        other ∙ inside ∙ ap src.bytes (omega arith)

-- An empty string of capacity 1, as streamToString makes it, has no room after appendByte has grown
-- it: the capacity is 1 again, so the byte takes the only place and the zero goes behind the block.
pub append_byte-size_one :
    (str : BaseString) (b : ℕ) (block : ℕ → ℕ)
    → str.size ≡ 1
    → str.length ≡ 0
    → ((append_byte str b (some block)).0 ≡ no_error)
      × ((append_byte str b (some block)).1.size ≡ 1)
      × ((append_byte str b (some block)).1.length ≡ 1)
      × ((append_byte str b (some block)).1.bytes 1 ≡ 0)
unfolding append_byte
append_byte-size_one str b block one empty =
    let full : leb str.size (str.length + 1) ≡ true = ground arith in
    rw (full) (refl, omega arith, omega arith, ended (suc str.length) (omega arith))
  where
    ended : (i : ℕ) → 1 ≡ i → (put_byte (grow str (str.size * 3 / 2) block) b).bytes 1 ≡ 0
    ended i e = ground arith
