-- ===== src/BaseString.antt =====
-- src/base/base_string.c: byte strings with a capacity and a zero behind the last byte.
--
-- The bytes are what stands at each index; the laws say which indices lie within the capacity. Each
-- block that the pointer string_alloc returns is an argument, `none` for NULL; it may hold anything. A
-- C string is the list of its characters, without the zero that ends it. A product with 1.5 is the
-- whole number below it.
pub mod Fill
pub mod Laws
mod Tests
use forfun.Prelude.{
  ℕ, zero, suc, ◌+◌, ◌-◌, ◌*◌, ◌/◌, Bool, true, false, if◌then◌else◌, ◌&&◌, Option, none, some,
  List, [], ◌∷◌, ltb, leb, ◌==◌,
}

-- The error codes that the file returns.
pub data StringError : Type 0 where
  no_error : StringError
  out_of_virtual_memory : StringError

pub record BaseString : Type 0 where
  pub length : ℕ
  pub size : ℕ
  pub ref_count : ℕ
  pub bytes : ℕ → ℕ

-- ALIGN_DEFAULT, for the default_align of 8.
abbrev pub align_default : ℕ → ℕ
align_default n = (n + 7) / 8 * 8

abbrev pub write : (ℕ → ℕ) → ℕ → ℕ → ℕ → ℕ
write b i v k = if k == i then v else b k

-- memcpy(b + offset, source, count)
abbrev pub copy_bytes : (ℕ → ℕ) → ℕ → (ℕ → ℕ) → ℕ → ℕ → ℕ
copy_bytes b offset source count k =
    if leb offset k && ltb k (offset + count) then source (k - offset) else b k

-- The loop over a C string; what it leaves in the bytes, and its index.
unfoldable pub fill : List ℕ → ℕ → ℕ → (ℕ → ℕ) → (ℕ → ℕ) × ℕ
fill [] limit i b = (b, i)
fill (c ∷ cstr) limit i b =
    let rest = fill cstr limit (suc i) (write b i c) in if ltb i limit then rest else (b, i)

-- The string that initString and allocString make of a block; no C string is NULL.
abbrev pub new_string : ℕ → List ℕ → (ℕ → ℕ) → BaseString
new_string size cstr block =
    let (b, i) = fill cstr (size - 1) 0 block in
    record { length = i; size = size; ref_count = 1; bytes = write b i 0 }

unfoldable pub init_string : ℕ → List ℕ → Option (ℕ → ℕ) → StringError × Option BaseString
init_string size cstr none = (out_of_virtual_memory, none)
init_string size cstr (some block) = (no_error, some (new_string (align_default size) cstr block))

-- `none` is what a failed allocation leaves to the caller. The first block is for the structure.
unfoldable pub alloc_string : ℕ → List ℕ → Bool → Option (ℕ → ℕ) → Option BaseString
alloc_string size cstr allocated none = none
alloc_string size cstr allocated (some block) =
    if allocated then some (new_string (align_default size) cstr block) else none

unfoldable pub clone_string : BaseString → Bool → Option (ℕ → ℕ) → Option BaseString
unfolding alloc_string
clone_string str allocated memory = elim (alloc_string str.size [] allocated memory) [
  | none ↦ none
  | some new ↦ some record {
    length = str.length;
    size = new.size;
    ref_count = 1;
    bytes = write (copy_bytes new.bytes 0 str.bytes str.length) str.length 0;
  }
]

-- The last three lines of copyString.
abbrev pub copy_into : BaseString → BaseString → BaseString
copy_into dst src = record {
  length = src.length;
  size = dst.size;
  ref_count = dst.ref_count;
  bytes = write (copy_bytes dst.bytes 0 src.bytes src.length) dst.length 0;
}

-- The error, and the destination when it has bytes.
unfoldable pub copy_string :
    BaseString → BaseString → Option (ℕ → ℕ) → StringError × Option BaseString
unfolding init_string
copy_string dst src memory =
    if ltb dst.size src.size
    then elim memory [
      | none ↦ (out_of_virtual_memory, none)
      | some block ↦ (no_error, some (copy_into (new_string (align_default src.size) [] block) src))
    ]
    else (no_error, some (copy_into dst src))

-- The growth in appendByte and appendBytes.
abbrev pub grow : BaseString → ℕ → (ℕ → ℕ) → BaseString
grow str new_size block = record {
  length = str.length;
  size = new_size;
  ref_count = str.ref_count;
  bytes = write (copy_bytes block 0 str.bytes str.length) str.length 0;
}

abbrev pub put_byte : BaseString → ℕ → BaseString
put_byte str b = record {
  length = suc str.length;
  size = str.size;
  ref_count = str.ref_count;
  bytes = write (write str.bytes str.length b) (suc str.length) 0;
}

unfoldable pub append_byte : BaseString → ℕ → Option (ℕ → ℕ) → StringError × BaseString
append_byte str b memory =
    if leb str.size (str.length + 1)
    then elim memory [
      | none ↦ (out_of_virtual_memory, str)
      | some block ↦ (no_error, put_byte (grow str (str.size * 3 / 2) block) b)
    ]
    else (no_error, put_byte str b)

abbrev pub put_bytes : BaseString → (ℕ → ℕ) → ℕ → BaseString
put_bytes str source count = record {
  length = str.length + count;
  size = str.size;
  ref_count = str.ref_count;
  bytes = write (copy_bytes str.bytes str.length source count) (str.length + count) 0;
}

unfoldable pub append_bytes : BaseString → (ℕ → ℕ) → ℕ → Option (ℕ → ℕ) → StringError × BaseString
append_bytes str source count memory =
    if leb str.size (str.length + count)
    then elim memory [
      | none ↦ (out_of_virtual_memory, str)
      | some block ↦ (no_error, put_bytes (grow str (str.size + count * 3 / 2) block) source count)
    ]
    else (no_error, put_bytes str source count)

unfoldable pub reset_string : BaseString → BaseString
reset_string str = record {
  length = 0;
  size = str.size;
  ref_count = str.ref_count;
  bytes = write str.bytes 0 0;
}

unfoldable pub string_length : BaseString → ℕ
string_length str = str.length
