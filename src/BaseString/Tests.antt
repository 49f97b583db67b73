-- ===== src/BaseString/Tests.antt =====
-- Runs of src/base/base_string.c on short texts.
use forfun.Prelude.{ℕ, zero, suc, ◌<◌, ◌≡◌, ◌≢◌, refl, some, arith}
use forfun.BaseString.{BaseString, no_error, copy_string, append_byte, append_bytes}
use forfun.BaseString.Laws.{
  Appended, append_byte-Appended, append_bytes-Appended, old_length, copy_string_lem,
  append_byte-size_one,
}

-- A block of sevens.
abbrev sevens : ℕ → ℕ
sevens k = 7

-- The text "ab" in a string of capacity 4.
abbrev small_bytes : ℕ → ℕ
small_bytes zero = 97
small_bytes (suc zero) = 98
small_bytes k = 0

abbrev small : BaseString
small = record { length = 2; size = 4; ref_count = 1; bytes = small_bytes }

abbrev longer : BaseString
longer = record { length = 3; size = 8; ref_count = 1; bytes = sevens }

abbrev tiny : BaseString
tiny = record { length = 0; size = 1; ref_count = 1; bytes = λ k. 0 }

append_byte-Appended_test :
    ((append_byte small 99 (some sevens)).0 ≡ no_error)
    × Appended small (append_byte small 99 (some sevens)).1 1 (λ k. 99)
append_byte-Appended_test = append_byte-Appended small 99 sevens (omega arith, refl) (omega arith)

append_bytes-Appended_example :
    ((append_bytes small sevens 3 (some sevens)).0 ≡ no_error)
    × Appended small (append_bytes small sevens 3 (some sevens)).1 3 sevens
append_bytes-Appended_example =
    append_bytes-Appended small sevens 3 sevens (omega arith, refl) (omega arith)

copy_string_lem_example :
    (after : BaseString) × (copy_string small longer (some sevens) ≡ (no_error, some after))
    × (after.length ≡ 3)
    × (after.bytes (old_length small longer) ≡ 0)
    × ((k : ℕ) → k < 3 → k ≢ old_length small longer → after.bytes k ≡ 7)
copy_string_lem_example = copy_string_lem small longer sevens

append_byte-size_one_test :
    ((append_byte tiny 99 (some sevens)).0 ≡ no_error)
    × ((append_byte tiny 99 (some sevens)).1.size ≡ 1)
    × ((append_byte tiny 99 (some sevens)).1.length ≡ 1)
    × ((append_byte tiny 99 (some sevens)).1.bytes 1 ≡ 0)
append_byte-size_one_test = append_byte-size_one tiny 99 sevens refl refl
