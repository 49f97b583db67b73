-- ===== src/HashTable.antt =====
-- src/base/base_hash.c and base_hash.h: a hash table that moves its items to a larger base a few at a
-- time.
--
-- A call is one step: the locks that it waits for are taken as soon as it asks. The locks that it only
-- tries can be held by others, all through the call: the argument `locks` says which. A pointer to a
-- base is a `WhichBase`, a list of nodes is the list of their pairs, and the free list is the number of
-- its nodes. The arrays of entries are functions, which are applied below `size` only.
--
-- An assertion that fails ends the program. The field `aborted`, which the code does not have, says that
-- one has failed, and is never taken back: what the model makes of such a table says nothing.
pub mod Rehash
pub mod Operations
pub mod Contents
pub mod Invariant
pub mod Change
pub mod Changed
pub mod Search
pub mod Entries
pub mod Tables
pub mod Laws
pub mod Map
pub mod Insert
pub mod Inserted
pub mod Visit
pub mod Visited
pub mod Created
pub mod Client
mod Tests
use forfun.Prelude.{
  ℕ, zero, suc, ◌+◌, ◌-◌, ◌*◌, ◌%◌, ◌^◌, ◌≡◌, max, Bool, true, false, not, ◌&&◌, ◌||◌, Option, none,
  some, or_else, List, [], ◌∷◌, if◌then◌else◌, ◌==◌, ltb,
}

-- hash_func_p, and whether cmp_func_p returns 0, with what the table relies on: keys that compare
-- equal are interchangeable.
pub record HashKey {ℓ} (K : Type ℓ) : Type ℓ where
  pub hash : K → ℕ
  pub same : K → K → Bool
  pub same_refl : (a : K) → same a a ≡ true
  pub same_hash : (a b : K) → same a b ≡ true → hash a ≡ hash b
  pub same_left : (a b c : K) → same a b ≡ true → same a c ≡ same b c
  pub same_right : (a b c : K) → same a b ≡ true → same c a ≡ same c b

pub data HashError : Type 0 where
  no_error : HashError
  duplicate_key : HashError
  no_such_key : HashError
  out_of_virtual_memory : HashError

pub data WhichBase : Type 0 where
  first : WhichBase
  second : WhichBase

pub record HashEntry {ℓ} (K V : Type ℓ) : Type ℓ where
  pub items : List (K × V)
  pub list_length : ℕ

pub record HashBase {ℓ} (K V : Type ℓ) : Type ℓ where
  pub entries : ℕ → HashEntry K V
  pub size : ℕ
  pub items_count : ℕ
  pub collision_count : ℕ

pub record HashTable {ℓ} (K V : Type ℓ) : Type ℓ where
  pub current_base : WhichBase
  pub base1 : HashBase K V
  pub base2 : HashBase K V
  pub free_list : ℕ
  pub rehash_pos : ℕ
  pub rehash_insert_base : Option WhichBase
  pub is_rehashing : Bool
  pub pause_rehash_count : ℕ
  pub aborted : Bool

-- Which of the locks that a call tries are held by others.
pub record HeldLocks {ℓ} (K : Type ℓ) : Type ℓ where
  pub head : WhichBase → ℕ → Bool
  pub node : K → Bool
  pub update : WhichBase → Bool
  pub rehash : Bool

abbrev pub least_hash_entries : ℕ
least_hash_entries = 1024

abbrev pub free_collision_list_alloc : ℕ
free_collision_list_alloc = 1024

abbrev pub collision_count_threshold : ℕ
collision_count_threshold = 100

abbrev pub rehash_retry : ℕ
rehash_retry = 10

abbrev pub rehash_steps : ℕ
rehash_steps = 100

-- ++ and -- on a count_t.
unfoldable pub count_up : ℕ → ℕ
count_up n = (n + 1) % 2 ^ 64

unfoldable pub count_down : ℕ → ℕ
count_down n = (n + (2 ^ 64 - 1)) % 2 ^ 64

abbrev pub other : WhichBase → WhichBase
other first = second
other second = first

abbrev pub same_base : WhichBase → WhichBase → Bool
same_base first first = true
same_base second second = true
same_base first second = false
same_base second first = false

-- rehash_insert_base, which is followed only once it has been set.
abbrev pub pointed : Option WhichBase → WhichBase
pointed none = first
pointed (some b) = b

abbrev pub pick {ℓ} : {A : Type ℓ} → WhichBase → A → A → A
pick first a b = a
pick second a b = b

module _ {ℓ} {K V : Type ℓ} where
  unfoldable pub init_hash_entry : HashEntry K V
  init_hash_entry = record { items = []; list_length = 0 }

  unfoldable pub base : HashTable K V → WhichBase → HashBase K V
  base t b = pick b t.base1 t.base2

  unfoldable pub set_base : HashTable K V → WhichBase → HashBase K V → HashTable K V
  set_base t b x = record t { base1 = pick b x t.base1; base2 = pick b t.base2 x }

  unfoldable pub set_entry : HashTable K V → WhichBase → ℕ → HashEntry K V → HashTable K V
  set_entry t b i e =
      set_base t b (record (base t b) { entries = λ j. if j == i then e else (base t b).entries j })

  unfoldable pub set_items_count : HashTable K V → WhichBase → ℕ → HashTable K V
  set_items_count t b n = set_base t b (record (base t b) { items_count = n })

  unfoldable pub set_collision_count : HashTable K V → WhichBase → ℕ → HashTable K V
  set_collision_count t b n = set_base t b (record (base t b) { collision_count = n })

  unfoldable pub new_base : ℕ → HashBase K V
  new_base n = record {
    entries = λ _. init_hash_entry;
    size = n;
    items_count = 0;
    collision_count = 0;
  }

  -- Which of the calls of malloc succeed: for the table, its first free nodes and its entries.
  unfoldable pub create_hash_table : ℕ → Bool → Bool → Bool → Option (HashTable K V)
  create_hash_table reserve_entries table_allocated area_allocated entries_allocated =
      if table_allocated && area_allocated && entries_allocated
      then some (record {
        current_base = first;
        base1 = new_base (max reserve_entries least_hash_entries);
        base2 = new_base 0;
        free_list = free_collision_list_alloc;
        rehash_pos = 0;
        rehash_insert_base = none;
        is_rehashing = false;
        pause_rehash_count = 0;
        aborted = false;
      })
      else none

  -- The node comes off the free list, which an empty one gets from a new area; `none` is NULL.
  unfoldable pub alloc_collision_list_node : Bool → HashTable K V → Option (HashTable K V)
  alloc_collision_list_node area_allocated t =
      if ltb 0 t.free_list
      then some (record t { free_list = t.free_list - 1 })
      else (if area_allocated
          then some (record t { free_list = free_collision_list_alloc - 1 })
          else none)

  unfoldable pub free_collision_list_node : HashTable K V → HashTable K V
  free_collision_list_node t = record t { free_list = suc t.free_list }

  unfoldable pub can_rehash : HashTable K V → Bool
  can_rehash t = ltb t.pause_rehash_count 1

  -- base[0] and, during a rehash, base[1]: the first that holds what is looked for.
  unfoldable pub first_found {κ} : {R : Type κ} → HashTable K V → (WhichBase → Option R) → Option R
  first_found t f =
      let again = f (pointed t.rehash_insert_base) in
      or_else (f t.current_base) (if t.is_rehashing then again else none)
