-- ===== src/MamboHt/Add.antt =====
-- What `mambo_ht_get_nolock` of api/hash_table.c finds after `mambo_ht_add_nolock`.
use native.Mathlib.Nat.{mod-lt, one-le-pow}
use mambo.Base.{
  ℕ, suc, ◌/◌, ◌%◌, ◌^◌, ◌<◌, ◌≡◌, ◌≢◌, ◌∙◌, refl, ap, Bool, true, false, leb, ◌==◌, length,
  length-set, arith, some, pos, ok, Returns,
}
use mambo.Base.Bits.{bit_and-mask}
use mambo.MamboHt.{
  Ht, HtEntry, key_of, entry_at, home, put, probe, mambo_ht_add_nolock, mambo_ht_get_nolock,
}
use mambo.MamboHt.Probe.{
  Shaped, Stops, probe-Stops, way_to, probe-put, key-put_self, entry-put_self, cell_of,
}

home-lt : (k : ℕ) (ht : Ht) (key : ℕ) → Shaped k ht → home ht key < 2 ^ k
home-lt k ht key h =
    let e : home ht key ≡ key / 2 ^ ht.index_shift % 2 ^ k =
      rw h.0 (bit_and-mask k (key / 2 ^ ht.index_shift)) in
    omega (arith, e, mod-lt (key / 2 ^ ht.index_shift) (one-le-pow k 2 (omega arith)))

-- The probe of a key ends, if a cell is free.
probe_lem :
    (k : ℕ) (ht : Ht) (key j : ℕ)
    → Shaped k ht
    → j < ht.size
    → key_of ht j ≡ 0
    → Returns (probe ht.size ht key (home ht key)) (Stops ht key)
probe_lem k ht key j h l free =
    let start = home-lt k ht key h in
    let way = way_to (2 ^ k) (home ht key) j start (omega (arith, h.0)) in
    probe-Stops k ht key h ht.size way.0 (home ht key) (omega (arith, way.1, h.0)) start
      (ap (key_of ht) way.2 ∙ free)

-- In a table whose size is a power of two and that has a free cell and room below its threshold, the
-- addition of a key other than 0 returns 0, the table keeps its size, and the lookup of the key
-- returns 0 with the value.
pub mambo_ht_add_nolock_lem :
    (k fuel : ℕ) (calloc : ℕ → Bool) (ht : Ht) (key value j : ℕ)
    → Shaped k ht
    → key ≢ 0
    → ht.entry_count < ht.resize_threshold
    → j < ht.size
    → key_of ht j ≡ 0
    → Returns
        (mambo_ht_add_nolock (suc fuel) calloc ht key value)
        λ r. (r.0 ≡ pos 0) × Shaped k r.1 × (mambo_ht_get_nolock r.1 key ≡ ok (pos 0, some value))
unfolding mambo_ht_add_nolock mambo_ht_get_nolock
mambo_ht_add_nolock_lem k fuel calloc ht key value j h nonzero room l free =
    let used : (key == 0) ≡ false = ground arith in
    let below : leb ht.resize_threshold ht.entry_count ≡ false = ground arith in
    let (i, found, stops) = probe_lem k ht key j h l free in
    let inside : i < length ht.entries = omega (arith, stops.0, h.1) in
    let here : (key_of (put ht key value i) i == key) ≡ true =
      let e = key-put_self ht key value i inside in ground arith in
    let again = probe-put ht key value i inside ht.size (home ht key) found in
    let stored : (entry_at (put ht key value i) i).value ≡ value =
      ap (λ (x : HtEntry). x.value) (entry-put_self ht key value i inside) in
    rw (used, below, found)
      (
        (pos 0, put ht key value i),
        refl,
        (
          refl,
          (h.0, length-set ht.entries i (cell_of key value) ∙ h.1),
          rw (again, here, stored) refl,
        ),
      )
