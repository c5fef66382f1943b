-- ===== src/CodeHash/Add.antt =====
-- `hash_add` of common.c, and what `hash_lookup` finds after it.
use mambo.Base.{
  ℕ, zero, suc, ◌+◌, ◌-◌, ◌≤◌, ◌<◌, ◌≡◌, ◌≢◌, refl, ap, sym, ◌∙◌, Bool, true, false, not, ◌&&◌,
  ◌||◌, ltb, leb, ◌==◌, ◌⊎◌, get_or-set_self, get_or-set_ne, Bool-cases, length-set, Outcome, ok,
  hang, inl, inr, arith, Returns,
}
use mathlib.Core.Path.{subst}
use native.Mathlib.Decide.{ℕ_discrete, dec_le}
use mambo.CodeHash.{
  HashTable, empty_entry, cell, key_at, get_index, lookup_loop, hash_lookup, fill, add_loop,
  hash_add,
}
use mambo.CodeHash.Lookup.{IsValid, get_index-lt, lookup_loop_absent}

-- The cells from a first one up to i hold other keys.
abbrev Busy : HashTable → ℕ → ℕ → ℕ → Type 0
Busy t key index i = (j : ℕ) → index ≤ j → j < i → (key_at t j ≢ 0) × (key_at t j ≢ key)

lookup_loop_hit :
    (fuel : ℕ) (t : HashTable) (key index i : ℕ)
    → index ≤ i
    → i < t.size - 1
    → t.size ≤ fuel + index
    → Busy t key index i
    → key_at t i ≡ key
    → lookup_loop fuel t key index ≡ ok (cell t i).value
unfolding lookup_loop
lookup_loop_hit zero t key index i p h enough busy at = absurd (omega arith)
lookup_loop_hit (suc fuel) t key index i p h enough busy at = elim (ℕ_discrete index i) [
  | yes e ↦
      let hit : (key_at t index == key) ≡ true = rw e (ground arith) in
      rw hit (ap (λ n. ok (cell t n).value) e)
  | no e ↦
      let (held, other) = busy index (omega arith) (omega arith) in
      let miss : (key_at t index == key) ≡ false = ground arith in
      let more : (ltb (suc index) (t.size - 1) && not (key_at t index == 0)) ≡ true =
        ground arith in
      rw (miss, more)
        (lookup_loop_hit fuel t key (suc index) i (omega arith) h (omega arith)
          (λ j a b. busy j (omega arith) b) at)
]

-- A probe reads only the cells from its first one on.
lookup_loop_congr :
    (fuel : ℕ) (t t' : HashTable) (key index : ℕ)
    → t'.size ≡ t.size
    → ((j : ℕ) → index ≤ j → cell t' j ≡ cell t j)
    → lookup_loop fuel t' key index ≡ lookup_loop fuel t key index
unfolding lookup_loop
lookup_loop_congr zero t t' key index size same = refl
lookup_loop_congr (suc fuel) t t' key index size same = ground (
  arith,
  same index (omega arith),
  size,
  lookup_loop_congr fuel t t' key (suc index) size (λ j p. same j (omega arith)),
)

-- What `hash_add` does: it writes the first cell that is free or has the key.
abbrev Written : HashTable → ℕ → ℕ → ℕ → Outcome (Bool × HashTable) → Type 0
Written t key value index run =
    (i : ℕ) × (c : ℕ) × (run ≡ ok (true, fill (record t { collisions = c }) key value i))
    × (index ≤ i)
    × (i < t.size - 1)
    × ((key_at t i ≡ 0) ⊎ (key_at t i ≡ key))
    × Busy t key index i

add_loop-Written :
    (fuel : ℕ) (t : HashTable) (key value index f : ℕ)
    → t.size ≤ fuel + index
    → index ≤ f
    → f < t.size - 1
    → key_at t f ≡ 0
    → Written t key value index (add_loop fuel t key value index)
unfolding add_loop
add_loop-Written zero t key value index f enough p h free = absurd (omega arith)
add_loop-Written (suc fuel) t key value index f enough p h free =
    elim (Bool-cases (key_at t index == 0 || key_at t index == key)) [
      | inl here ↦ (
        index,
        t.collisions,
        rw here,
        omega arith,
        omega arith,
        ground arith,
        λ j a b. absurd (omega arith),
      )
      | inr busy ↦
          let other : index ≢ f = λ e. ground (arith, ap (key_at t) e) in
          let go_on : leb (t.size - 1) (suc index) ≡ false = ground arith in
          let (i, c, run, lo, hi, fits, before) =
            add_loop-Written fuel (record t { collisions = suc t.collisions }) key value (suc index)
              f (omega arith) (omega arith) h free in
          (
            i,
            c,
            rw (busy, go_on) run,
            omega arith,
            hi,
            fits,
            λ j a b. elim (ℕ_discrete index j) [
              | yes e ↦ rw (← e) (ground arith)
              | no e ↦ before j (omega arith) b
            ],
          )
    ]

module _ (shift : ℕ) (t : HashTable) (key value : ℕ) (nonzero : key ≢ 0) (v : IsValid shift t) where
  abbrev home : ℕ → ℕ
  home k = get_index shift t.size k

  module _ (i c : ℕ) (lo : home key ≤ i) (hi : i < t.size - 1)
      (busy : Busy t key (home key) i) where
    abbrev t' : HashTable
    t' = fill (record t { collisions = c }) key value i

    here : cell t' i ≡ record { key = key; value = value }
    here = get_or-set_self t.entries i _ empty_entry (omega (arith, v.sized))

    there : (j : ℕ) → i ≢ j → cell t' j ≡ cell t j
    there j ne = get_or-set_ne t.entries i j _ empty_entry ne

    there_key : (j : ℕ) → i ≢ j → key_at t' j ≡ key_at t j
    there_key j ne = ap (λ x. x.key) (there j ne)

    here_key : key_at t' i ≡ key
    here_key = ap (λ x. x.key) here

    fill-IsValid : IsValid shift t'
    fill-IsValid = record {
      sized = length-set t.entries i _ ∙ v.sized;
      large = v.large;
      no_gap = λ k j h held p q z. elim (ℕ_discrete i j) [
        | yes e ↦ nonzero (sym here_key ∙ ap (key_at t') e ∙ z)
        | no e ↦ elim (ℕ_discrete i k) [
          | yes same ↦
              (busy j (subst (λ n. home n ≤ j) (ap (key_at t') (sym same) ∙ here_key) p)
                  (rw same q)).0
                (sym (there_key j e) ∙ z)
          | no other ↦
              v.no_gap k j h (λ zero_key. held (there_key k other ∙ zero_key))
                (subst (λ n. home n ≤ j) (there_key k other) p) q (sym (there_key j e) ∙ z)
        ]
      ];
    }

    lookup-fill_self : hash_lookup shift t' key ≡ ok value
    unfolding hash_lookup
    lookup-fill_self =
        lookup_loop_hit t.size t' key (home key) i lo hi (omega arith)
          (λ j p q. subst (λ n. (n ≢ 0) × (n ≢ key)) (sym (there_key j (omega arith))) (busy j p q))
          here_key
        ∙ ap (λ x. ok x.value) here

    -- A probe for another key at the written cell.
    crossing :
        (fuel k : ℕ)
        → k ≢ 0
        → k ≢ key
        → (key_at t i ≡ 0) ⊎ (key_at t i ≡ key)
        → home k ≤ i
        → t.size ≤ suc fuel + i
        → lookup_loop (suc fuel) t' k i ≡ lookup_loop (suc fuel) t k i
    unfolding lookup_loop
    crossing fuel k k_nonzero ne (inr same) from enough =
        ground (
          arith,
          here_key,
          lookup_loop_congr fuel t t' k (suc i) refl (λ j p. there j (omega arith)),
        )
    crossing fuel k k_nonzero ne (inl free) from enough =
        elim (Bool-cases (ltb (suc i) (t.size - 1))) [
          | inr last ↦ ground (arith, here_key)
          | inl more ↦ ground (
            arith,
            here_key,
            lookup_loop_absent fuel t' k (suc i) (ground arith) (omega arith) λ j p q e.
                let at : key_at t j ≡ k = sym (there_key j (omega arith)) ∙ e in
                v.no_gap j i (omega arith) (λ z. k_nonzero (sym at ∙ z)) (rw at from) p free,
          )
        ]

    -- Other keys: the probe passes the written cell, or finds nothing on either side of it.
    lookup_loop-fill :
        (fuel k index : ℕ)
        → k ≢ 0
        → k ≢ key
        → (key_at t i ≡ 0) ⊎ (key_at t i ≡ key)
        → home k ≤ index
        → index ≤ i
        → t.size ≤ fuel + index
        → lookup_loop fuel t' k index ≡ lookup_loop fuel t k index
    unfolding lookup_loop
    lookup_loop-fill zero k index k_nonzero ne fits from p enough = absurd (omega arith)
    lookup_loop-fill (suc fuel) k index k_nonzero ne fits from p enough =
        elim (ℕ_discrete i index) [
          | no before ↦ ground (
            arith,
            there index before,
            lookup_loop-fill fuel k (suc index) k_nonzero ne fits (omega arith) (omega arith)
                (omega arith),
          )
          | yes at ↦ rw (← at) (crossing fuel k k_nonzero ne fits (omega arith) (omega arith))
        ]

-- If the table is valid, the key is not 0 and a cell between the key's home and the reserved last
-- one is free, `hash_add` returns true, the table stays valid, the key has the new value, and the
-- lookup of every other key than 0 gives what it gave before.
pub hash_add_lem :
    (shift : ℕ) (t : HashTable) (key value f : ℕ)
    → IsValid shift t
    → key ≢ 0
    → get_index shift t.size key ≤ f
    → f < t.size - 1
    → key_at t f ≡ 0
    → Returns (hash_add shift t key value) λ r.
      (r.0 ≡ true)
      × IsValid shift r.1
      × (hash_lookup shift r.1 key ≡ ok value)
      × ((k : ℕ) → k ≢ 0 → k ≢ key → hash_lookup shift r.1 k ≡ hash_lookup shift t k)
unfolding hash_add hash_lookup
hash_add_lem shift t key value f v nonzero from room free =
    let (i, c, run, lo, hi, fits, busy) =
      add_loop-Written t.size t key value (get_index shift t.size key) f (omega arith) from room
        free in
    (
      (true, fill (record t { collisions = c }) key value i),
      run,
      (
        refl,
        fill-IsValid shift t key value nonzero v i c lo hi busy,
        lookup-fill_self shift t key value nonzero v i c lo hi busy,
        λ k k_nonzero ne.
            let start = get_index shift t.size k in
            elim (dec_le start i) [
              | yes below ↦
                  lookup_loop-fill shift t key value nonzero v i c lo hi busy t.size k start
                    k_nonzero ne fits (omega arith) below (omega arith)
              | no above ↦
                  lookup_loop_congr t.size t _ k start refl
                    λ j p. there shift t key value nonzero v i c lo hi busy j (omega arith)
            ],
      ),
    )

add_loop_hangs :
    (fuel : ℕ) (t : HashTable) (key value index : ℕ)
    → index < t.size - 1
    → t.size ≤ fuel + index
    → Busy t key index (t.size - 1)
    → add_loop fuel t key value index ≡ hang
unfolding add_loop
add_loop_hangs zero t key value index h enough busy = refl
add_loop_hangs (suc fuel) t key value index h enough busy =
    let (held, other) = busy index (omega arith) h in
    let stays : (key_at t index == 0 || key_at t index == key) ≡ false = ground arith in
    elim (Bool-cases (leb (t.size - 1) (suc index))) [
      | inl end ↦ rw (stays, end)
      | inr more ↦
          rw (stays, more)
            (add_loop_hangs fuel (record t { collisions = suc t.collisions }) key value (suc index)
              (ground arith) (omega arith) (λ j p q. busy j (omega arith) q))
    ]

-- If no cell from the key's home up to the reserved last one is free or has the key, `hash_add`
-- never returns.
hash_add_hangs :
    (shift : ℕ) (t : HashTable) (key value : ℕ)
    → IsValid shift t
    → ((j : ℕ)
        → get_index shift t.size key ≤ j
        → j < t.size - 1
        → (key_at t j ≢ 0) × (key_at t j ≢ key))
    → hash_add shift t key value ≡ hang
unfolding hash_add
hash_add_hangs shift t key value v busy =
    add_loop_hangs t.size t key value (get_index shift t.size key)
      (get_index-lt shift t.size key v.large) (omega arith) busy
