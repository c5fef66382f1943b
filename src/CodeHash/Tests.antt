-- ===== src/CodeHash/Tests.antt =====
-- The theorems on the hash table of common.c at a table of twelve cells, two of them home cells.
use mambo.Base.{ℕ, ◌≡◌, ◌≢◌, refl, true, replicate, ok, Returns, arith}
use mambo.CodeHash.{HashTable, uint_max, get_index, hash_lookup, hash_add, hash_init, clear_keys}
use mambo.CodeHash.Add.{hash_add_lem}
use mambo.CodeHash.Lookup.{IsValid, hash_init_lem}

abbrev garbage : HashTable
garbage = record {
  size = 0;
  collisions = 3;
  count = 4;
  entries = replicate 13 (record { key = 7; value = 9 });
}

garbage-cleared :
    IsValid 1 (hash_init garbage 13) × (hash_lookup 1 (hash_init garbage 13) 0x400 ≡ ok uint_max)
garbage-cleared = hash_init_lem 1 garbage 13 0x400 refl (omega arith) (omega arith)

abbrev cleared : HashTable
cleared = hash_init garbage 13

hash_add_example : Returns (hash_add 1 cleared 0x402 0x9000) λ r.
    (r.0 ≡ true)
    × IsValid 1 r.1
    × (hash_lookup 1 r.1 0x402 ≡ ok 0x9000)
    × ((k : ℕ) → k ≢ 0 → k ≢ 0x402 → hash_lookup 1 r.1 k ≡ hash_lookup 1 cleared k)
unfolding hash_init get_index clear_keys
hash_add_example =
    hash_add_lem 1 cleared 0x402 0x9000 5 garbage-cleared.0 (omega arith) (omega arith)
      (omega arith) refl
