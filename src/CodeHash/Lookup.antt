-- ===== src/CodeHash/Lookup.antt =====
-- `hash_lookup` and `hash_init` of common.c: the probe ends, and a cleared table holds no key.
use mambo.Base.{
  ℕ, zero, suc, ◌+◌, ◌-◌, ◌/◌, ◌^◌, ◌≤◌, ◌<◌, ◌≡◌, ◌≢◌, refl, ◌∙◌, false, not, ◌&&◌, List, ltb,
  ◌==◌, get_or, get_or-set_self, get_or-set_ne, set, Bool-cases, ◌⊎◌, length, length-set, ok, inl,
  inr, arith, Returns,
}
use mambo.Base.Bits.{bit_and-le_right}
use native.Mathlib.Decide.{ℕ_discrete}
use mambo.CodeHash.{
  HashEntry, HashTable, empty_entry, cell, key_at, uint_max, code_cache_hash_overp, get_index,
  lookup_loop, hash_lookup, clear_keys, hash_init,
}

-- The table has its cells, room behind the home cells, and no free cell between a key and its home.
pub record IsValid (shift : ℕ) (t : HashTable) : Type 0 where
  pub sized : length t.entries ≡ t.size
  pub large : code_cache_hash_overp < t.size
  pub no_gap :
      (i j : ℕ)
      → i < t.size
      → key_at t i ≢ 0
      → get_index shift t.size (key_at t i) ≤ j
      → j < i
      → key_at t j ≢ 0

pub get_index-lt :
    (shift size key : ℕ) → code_cache_hash_overp < size → get_index shift size key < size - 1
unfolding get_index
get_index-lt shift size key h =
    omega (arith, bit_and-le_right (key / 2 ^ shift) (size - code_cache_hash_overp))

-- A key that stands in no cell from the first one probed on is not found.
pub lookup_loop_absent :
    (fuel : ℕ) (t : HashTable) (key index : ℕ)
    → index < t.size - 1
    → t.size ≤ fuel + index
    → ((j : ℕ) → index ≤ j → j < t.size - 1 → key_at t j ≢ key)
    → lookup_loop fuel t key index ≡ ok uint_max
unfolding lookup_loop
lookup_loop_absent zero t key index h enough absent = absurd (omega arith)
lookup_loop_absent (suc fuel) t key index h enough absent =
    let here : (key_at t index == key) ≡ false = ground (arith, absent index) in
    elim (Bool-cases (ltb (suc index) (t.size - 1) && not (key_at t index == 0))) [
      | inr stop ↦ rw (here, stop)
      | inl more ↦
          rw (here, more)
            (lookup_loop_absent fuel t key (suc index) (ground arith) (omega arith)
              (λ j p q. absent j (omega arith) q))
    ]

-- `hash_lookup` returns at every key, whatever the table holds.
lookup_loop_total :
    (fuel : ℕ) (t : HashTable) (key index : ℕ)
    → index < t.size - 1
    → t.size ≤ fuel + index
    → Returns (lookup_loop fuel t key index) λ v. Unit {0}
unfolding lookup_loop
lookup_loop_total zero t key index h enough = absurd (omega arith)
lookup_loop_total (suc fuel) t key index h enough = elim (Bool-cases (key_at t index == key)) [
  | inl hit ↦ ((cell t index).value, rw hit, tt)
  | inr miss ↦ elim (Bool-cases (ltb (suc index) (t.size - 1) && not (key_at t index == 0))) [
    | inr stop ↦ (uint_max, rw (miss, stop), tt)
    | inl more ↦
        let (v, run, _) = lookup_loop_total fuel t key (suc index) (ground arith) (omega arith) in
        (v, rw (miss, more) run, tt)
  ]
]

clear_keys-length : (i : ℕ) (cells : List HashEntry) → length (clear_keys i cells) ≡ length cells
unfolding clear_keys
clear_keys-length zero cells = refl
clear_keys-length (suc i) cells = clear_keys-length i _ ∙ length-set cells i _

-- The keys below i are cleared, and a key that is 0 stays 0.
clear_keys-zero :
    (i j : ℕ) (cells : List HashEntry)
    → i ≤ length cells
    → (j < i) ⊎ ((get_or cells j empty_entry).key ≡ 0)
    → (get_or (clear_keys i cells) j empty_entry).key ≡ 0
unfolding clear_keys
clear_keys-zero zero j cells l h = ground arith
clear_keys-zero (suc i) j cells l h =
    let e : HashEntry = record (get_or cells i empty_entry) { key = 0 } in
    clear_keys-zero i j (set cells i e) (rw length-set (omega arith)) (elim (ℕ_discrete i j) [
      | yes p ↦ inr (rw (← p, get_or-set_self cells i e empty_entry (omega arith)))
      | no p ↦ elim h [
        | inl lt ↦ inl (omega arith)
        | inr zero_key ↦ inr (rw (get_or-set_ne cells i j e empty_entry p) zero_key)
      ]
    ])

-- After `hash_init` the table is valid, and every lookup of a key other than 0 gives UINT_MAX.
pub hash_init_lem :
    (shift : ℕ) (t : HashTable) (size key : ℕ)
    → length t.entries ≡ size
    → code_cache_hash_overp < size
    → key ≢ 0
    → IsValid shift (hash_init t size) × (hash_lookup shift (hash_init t size) key ≡ ok uint_max)
unfolding hash_init hash_lookup
hash_init_lem shift t size key sized large nonzero =
    let t' = hash_init t size in
    let free : (j : ℕ) → j < size → key_at t' j ≡ 0 =
      λ j h. clear_keys-zero size j t.entries (omega arith) (inl h) in
    (
      record {
        sized = clear_keys-length size t.entries ∙ sized;
        large = large;
        no_gap = λ i j h held p q. absurd (held (free i h));
      },
      lookup_loop_absent size t' key (get_index shift size key) (get_index-lt shift size key large)
          (omega arith) (λ j p q e. nonzero (ground (arith, free j))),
    )
