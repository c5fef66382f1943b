-- ===== src/MamboHt/Probe.antt =====
-- The probes of api/hash_table.c: they end if a cell is free, and a write where a probe has ended
-- leaves the way of the probes of the key.
use Prim.Native.Nat.{bit_and}
use mambo.Base.{
  ℕ, zero, suc, ◌+◌, ◌-◌, ◌%◌, ◌^◌, ◌<◌, ◌≡◌, ◌≢◌, ◌⊎◌, ◌∙◌, refl, sym, ap, true, false, not, ◌&&◌,
  ltb, ◌==◌, length, get_or-set_self, get_or-set_ne, arith, inl, inr, Bool-cases, ok, Returns,
}
use native.Mathlib.Nat.{mod-eq_of_lt, mod-lt, one-le-pow, mod-add-mod, add-mod_right}
use mambo.Base.Bits.{bit_and-mask}
use mambo.MamboHt.{Ht, HtEntry, no_entry, entry_at, key_of, probe, put}

-- The size is a power of two, which every cell lies below.
abbrev pub Shaped : ℕ → Ht → Type 0
Shaped k ht = (ht.size ≡ 2 ^ k) × (length ht.entries ≡ ht.size)

-- Where a probe may end.
abbrev pub Stops : Ht → ℕ → ℕ → Type 0
Stops ht key i = (i < ht.size) × ((key_of ht i ≡ 0) ⊎ (key_of ht i ≡ key))

next_index :
    (k : ℕ) (ht : Ht) (index : ℕ)
    → Shaped k ht
    → bit_and (index + 1) (ht.size - 1) ≡ (index + 1) % 2 ^ k
next_index k ht index h = rw h.0 (bit_and-mask k (index + 1))

add_zero : (n : ℕ) → n + 0 ≡ n
add_zero n = omega arith

turn : (a d p : ℕ) → ((a + 1) % p + d) % p ≡ (a + suc d) % p
turn a d p = mod-add-mod (a + 1) p d ∙ ap (λ (n : ℕ). n % p) (omega arith)

-- A probe that has the way to a free cell as fuel ends.
pub probe-Stops :
    (k : ℕ) (ht : Ht) (key : ℕ)
    → Shaped k ht
    → (fuel d index : ℕ) → d < fuel
    → index < 2 ^ k
    → key_of ht ((index + d) % 2 ^ k) ≡ 0
    → Returns (probe fuel ht key index) (Stops ht key)
unfolding probe
probe-Stops k ht key h zero d index l b free = absurd (omega arith)
probe-Stops k ht key h (suc fuel) zero index l b free =
    let start : (index + 0) % 2 ^ k ≡ index =
      ap (λ (n : ℕ). n % 2 ^ k) (add_zero index) ∙ mod-eq_of_lt b in
    let empty : key_of ht index ≡ 0 = ap (key_of ht) (sym start) ∙ free in
    let here : (key_of ht index == 0) ≡ true = ground arith in
    rw here (index, refl, (omega (arith, h.0), inl empty))
probe-Stops k ht key h (suc fuel) (suc d) index l b free =
    elim (Bool-cases (not (key_of ht index == 0) && not (key_of ht index == key))) [
      | inr here ↦ rw here (index, refl, (omega (arith, h.0), ground arith))
      | inl on ↦
          rw (on, next_index k ht index h)
            (probe-Stops k ht key h fuel d ((index + 1) % 2 ^ k) (omega arith)
              (mod-lt (index + 1) (one-le-pow k 2 (omega arith)))
              (ap (key_of ht) (turn index d (2 ^ k)) ∙ free))
    ]

-- The way from an index to a cell.
pub way_to : (p index j : ℕ) → index < p → j < p → (d : ℕ) × (d < p) × ((index + d) % p ≡ j)
way_to p index j hi hj = elim (Bool-cases (ltb j index)) [
  | inl around ↦
      let e : index + (j + p - index) ≡ j + p = ground arith in
      (j + p - index, ground arith, ap (λ (n : ℕ). n % p) e ∙ add-mod_right j p ∙ mod-eq_of_lt hj)
  | inr ahead ↦
      let e : index + (j - index) ≡ j = ground arith in
      (j - index, ground arith, ap (λ (n : ℕ). n % p) e ∙ mod-eq_of_lt hj)
]

-- The cells after a write.
abbrev pub cell_of : ℕ → ℕ → HtEntry
cell_of key value = record { key = key; value = value }

pub entry-put_self :
    (ht : Ht) (key value i : ℕ)
    → i < length ht.entries
    → entry_at (put ht key value i) i ≡ cell_of key value
entry-put_self ht key value i h = get_or-set_self ht.entries i _ no_entry h

pub key-put_ne : (ht : Ht) (key value i j : ℕ) → i ≢ j → key_of (put ht key value i) j ≡ key_of ht j
key-put_ne ht key value i j h =
    ap (λ (x : HtEntry). x.key) (get_or-set_ne ht.entries i j _ no_entry h)

pub key-put_self :
    (ht : Ht) (key value i : ℕ) → i < length ht.entries → key_of (put ht key value i) i ≡ key
key-put_self ht key value i h = ap (λ (x : HtEntry). x.key) (entry-put_self ht key value i h)

test_found : (a key : ℕ) → a ≡ key → (not (a == 0) && not (a == key)) ≡ false
test_found a key e = ground arith

-- A probe of the key ends where the key has been written.
pub probe-put :
    (ht : Ht) (key value i : ℕ)
    → i < length ht.entries
    → (fuel index : ℕ) → probe fuel ht key index ≡ ok i
    → probe fuel (put ht key value i) key index ≡ ok i
unfolding probe
probe-put ht key value i h zero index e = absurd (cc)
probe-put ht key value i h (suc fuel) index e =
    let new = put ht key value i in
    elim (Bool-cases (i == index)) [
      | inl same ↦
          let here : index ≡ i = ground arith in
          let found : key_of new index ≡ key =
            ap (key_of new) here ∙ key-put_self ht key value i h in
          rw (test_found (key_of new index) key found) (ap ok here)
      | inr other ↦
          let kept : key_of new index ≡ key_of ht index =
            key-put_ne ht key value i index (ground arith) in
          elim (Bool-cases (not (key_of ht index == 0) && not (key_of ht index == key))) [
            | inl on ↦ rw (kept, on) (probe-put ht key value i h fuel _ (rw on at e))
            | inr here ↦ rw (kept, here) (rw here at e)
          ]
    ]
