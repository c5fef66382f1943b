-- ===== src/CodeHash.antt =====
-- common.c and common.h: the hash table from source addresses to code cache addresses. Probing
-- does not wrap: CODE_CACHE_HASH_OVERP cells stand behind the last home cell, and the last cell of
-- all is never written. `shift` is HT_SHIFT, which depends on the target.
pub mod Lookup
pub mod Add
mod Tests
use Prim.Native.Nat.{bit_and}
use mambo.Base.{
  ℕ, zero, suc, ◌+◌, ◌-◌, ◌/◌, ◌^◌, Bool, true, false, not, ◌&&◌, ◌||◌, List, ltb, leb, ◌==◌,
  if◌then◌else◌, get_or, set, Outcome, ok, hang, assert, ◌>>=◌, ◌>>◌,
}

pub record HashEntry : Type 0 where
  pub key : ℕ
  pub value : ℕ

pub record HashTable : Type 0 where
  pub size : ℕ
  pub collisions : ℕ
  pub count : ℕ
  pub entries : List HashEntry

abbrev pub empty_entry : HashEntry
empty_entry = record { key = 0; value = 0 }

-- `table->entries[i]`
abbrev pub cell : HashTable → ℕ → HashEntry
cell t i = get_or t.entries i empty_entry

abbrev pub key_at : HashTable → ℕ → ℕ
key_at t i = (cell t i).key

abbrev pub code_cache_hash_overp : ℕ
code_cache_hash_overp = 10

-- `UINT_MAX`
abbrev pub uint_max : ℕ
uint_max = 0xffff_ffff

-- `GET_INDEX(key)` in a table of a size
unfoldable pub get_index : ℕ → ℕ → ℕ → ℕ
get_index shift size key = bit_and (key / 2 ^ shift) (size - code_cache_hash_overp)

-- The `do` loop of `hash_lookup` from a cell on; the fuel bounds its rounds.
unfoldable pub lookup_loop : ℕ → HashTable → ℕ → ℕ → Outcome ℕ
lookup_loop zero t key index = hang
lookup_loop (suc fuel) t key index =
    let c_key = key_at t index in
    let rest = lookup_loop fuel t key (suc index) in
    if c_key == key
    then ok (cell t index).value
    else if ltb (suc index) (t.size - 1) && not (c_key == 0)
    then rest
    else ok uint_max

unfoldable pub hash_lookup : ℕ → HashTable → ℕ → Outcome ℕ
hash_lookup shift t key = lookup_loop t.size t key (get_index shift t.size key)

-- The cell is written, and counted if it was free.
abbrev pub fill : HashTable → ℕ → ℕ → ℕ → HashTable
fill t key value index = record t {
  count = if key_at t index == 0 then suc t.count else t.count;
  entries = set t.entries index (record { key = key; value = value });
}

-- The `do` loop of `hash_add`. At the overprovisioned end the code stops in `while (1)`.
pub add_loop : ℕ → HashTable → ℕ → ℕ → ℕ → Outcome (Bool × HashTable)
add_loop zero t key value index = hang
add_loop (suc fuel) t key value index =
    let rest = add_loop fuel (record t { collisions = suc t.collisions }) key value (suc index) in
    if key_at t index == 0 || key_at t index == key
    then ok (true, fill t key value index)
    else if leb (t.size - 1) (suc index)
    then hang
    else rest

pub hash_add : ℕ → HashTable → ℕ → ℕ → Outcome (Bool × HashTable)
hash_add shift t key value = add_loop t.size t key value (get_index shift t.size key)

-- The `do` loop of `hash_delete`; `first` is the index that it began with.
unfoldable delete_loop : ℕ → HashTable → ℕ → ℕ → ℕ → Outcome HashTable
delete_loop zero t key first index = hang
delete_loop (suc fuel) t key first index =
    let c_key = key_at t index in
    let next = bit_and (index + 1) t.size in
    let rest = delete_loop fuel t key first next in
    if c_key == key
    then ok (record t { entries = set t.entries index (record (cell t index) { key = 0 }) })
    else if not (suc next == first) && not (c_key == 0)
    then rest
    else ok t

-- The function is not to be used: it begins with an `assert` that fails.
unfoldable hash_delete : ℕ → HashTable → ℕ → Outcome HashTable
hash_delete shift t key =
    let index = get_index shift t.size key in assert false >> delete_loop t.size t key index index

-- The loop of `hash_init` over the cells below i, downwards. Only the keys are cleared.
pub clear_keys : ℕ → List HashEntry → List HashEntry
clear_keys zero cells = cells
clear_keys (suc i) cells =
    clear_keys i (set cells i (record (get_or cells i empty_entry) { key = 0 }))

pub hash_init : HashTable → ℕ → HashTable
hash_init t size = record {
  size = size;
  collisions = 0;
  count = 0;
  entries = clear_keys size t.entries;
}
