-- ===== src/Dbm/Stubs.antt =====
-- Stubs of dbm.c: an address without a translation gets one, which later calls find.
use mambo.Base.{
  ℕ, suc, ◌+◌, ◌-◌, ◌*◌, ◌/◌, ◌<◌, ◌≤◌, ◌≡◌, ◌≢◌, refl, ap, true, false, some, ltb, leb, ◌==◌,
  length, get_or-set_self, ok, Outcome, Returns, arith, ◌>>=◌,
}
use mambo.CodeHash.{get_index, key_at, uint_max}
use mambo.CodeHash.Lookup.{IsValid}
use mambo.CodeHash.Add.{hash_add_lem}
use mambo.Dbm.{BranchType, Meta, Thread, Sizes, null_meta, block_size, traces}
use mambo.Dbm.Cache.{
  meta_at, put_meta, cc_lookup, is_trace, addr_to_bb_id, allocate_bb, add_entry, stub_bb,
  lookup_or_stub, known_block, scan, lookup_or_scan_with_cached,
}

-- The thread with the stub, before its entry is added.
abbrev with_stub : Thread → Thread
with_stub t =
    let taken : Thread = record t { free_block = suc t.free_block } in
    put_meta taken t.free_block
      (record (meta_at t t.free_block) { exit_branch_type = BranchType.stub })

stub_bb_eq :
    (c : Sizes) (shift : ℕ) (t : Thread) (target : ℕ)
    → t.free_block < c.code_cache_size - c.code_cache_overp
    → stub_bb c shift t target ≡ (
        add_entry shift (with_stub t) target (t.blocks + t.free_block * block_size) >>= λ t'.
        ok (t.blocks + t.free_block * block_size, t'))
unfolding stub_bb allocate_bb
stub_bb_eq c shift t target room =
    let low : leb (c.code_cache_size - c.code_cache_overp) t.free_block ≡ false = ground arith in
    rw low refl

-- The block of a stub is neither a trace nor done.
stub_known :
    (c : Sizes) (shift : ℕ) (scan_riscv : Thread → ℕ → ℕ → Outcome (ℕ × Thread)) (t : Thread)
    (bb : ℕ)
    → bb < c.code_cache_size
    → t.blocks + bb * block_size ≢ uint_max
    → (meta_at t bb).exit_branch_type ≡ BranchType.stub
    → known_block c shift scan_riscv t (t.blocks + bb * block_size) ≡ ok (some bb, false)
unfolding known_block is_trace addr_to_bb_id
stub_known c shift scan_riscv t bb room other is_stub =
    let addr = t.blocks + bb * block_size in
    let a : (addr == uint_max) ≡ false = ground (arith, other) in
    let b : leb (traces c t) addr ≡ false = ground arith in
    let d : ltb addr t.blocks ≡ false = ground arith in
    let e : ltb (traces c t) addr ≡ false = ground arith in
    let f : (addr - t.blocks) / block_size ≡ bb = omega arith in rw (a, b, d, e, f, is_stub) refl

-- For an address other than 0 without a translation, in a thread with a valid table that has a free
-- cell between the key's home and the reserved last one, a next free block below the reserve and in
-- the table, and an address of that block other than UINT_MAX: `lookup_or_stub` returns the address
-- of that block, which now is a stub; the table stays valid, and every other address than 0 keeps its
-- translation; a second call returns the same and changes nothing; and `lookup_or_scan_with_cached`
-- scans into that block, as not cached.
pub lookup_or_stub_lem :
    (c : Sizes) (shift : ℕ) (scan_riscv : Thread → ℕ → ℕ → Outcome (ℕ × Thread)) (t : Thread)
    (target f : ℕ)
    → IsValid shift t.entry_address
    → target ≢ 0
    → get_index shift t.entry_address.size target ≤ f
    → f < t.entry_address.size - 1
    → key_at t.entry_address f ≡ 0
    → cc_lookup shift t target ≡ ok uint_max
    → t.free_block < c.code_cache_size - c.code_cache_overp
    → t.free_block < length t.code_cache_meta
    → t.blocks + t.free_block * block_size ≢ uint_max
    → Returns (lookup_or_stub c shift t target) λ (address, t').
      (address ≡ t.blocks + t.free_block * block_size)
      × ((meta_at t' t.free_block).exit_branch_type ≡ BranchType.stub)
      × IsValid shift t'.entry_address
      × ((k : ℕ) → k ≢ 0 → k ≢ target → cc_lookup shift t' k ≡ cc_lookup shift t k)
      × (lookup_or_stub c shift t' target ≡ ok (address, t'))
      × (lookup_or_scan_with_cached c shift scan_riscv t' target ≡ (
          scan c shift scan_riscv t' target (some t.free_block) >>= λ (scanned, t₁).
          ok (scanned, false, t₁)))
unfolding lookup_or_stub add_entry cc_lookup lookup_or_scan_with_cached
lookup_or_stub_lem c shift scan_riscv t target f valid nonzero from room free absent low inside
      other =
    let bb = t.free_block in
    let address = t.blocks + bb * block_size in
    let ((added, table), run, (good, valid', found, kept)) =
      hash_add_lem shift t.entry_address target address f valid nonzero from room free in
    let t' : Thread = record (with_stub t) { entry_address = table } in
    let is_new : (uint_max == uint_max) ≡ true = ground arith in
    let is_old : (address == uint_max) ≡ false = ground (arith, other) in
    let is_stub : (meta_at t' bb).exit_branch_type ≡ BranchType.stub =
      ap (λ (m : Meta). m.exit_branch_type)
        (get_or-set_self t.code_cache_meta bb _ null_meta inside) in
    let known = stub_known c shift scan_riscv t' bb (omega arith) other is_stub in
    rw (absent, is_new, stub_bb_eq c shift t target low, run, good)
      (
        (address, t'),
        refl,
        (refl, is_stub, valid', kept, rw (found, is_old) refl, rw (found, known) refl),
      )
