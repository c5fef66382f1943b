-- ===== src/Dbm/Cache.antt =====
-- dbm.c: flushing the code cache, allocating blocks, finding or scanning the block of an address.
use mambo.Base.{
  ℕ, zero, suc, ◌+◌, ◌-◌, ◌*◌, ◌/◌, Bool, true, false, ◌&&◌, ◌||◌, Option, none, some, List, ltb,
  leb, ◌==◌, if◌then◌else◌, get_or, set, Outcome, ok, abort, hang, assert, ◌>>=◌, ◌>>◌,
}
use mambo.CodeHash.{hash_init, hash_lookup, hash_add, uint_max}
use mambo.LinkedList.{LlEntry, linked_list_init, linked_list_alloc}
use mambo.Dbm.{BranchType, Meta, Thread, Sizes, null_meta, block_size, traces, trace_cache_size}

abbrev pub meta_at : Thread → ℕ → Meta
meta_at t i = get_or t.code_cache_meta i null_meta

abbrev pub put_meta : Thread → ℕ → Meta → Thread
put_meta t i meta = record t { code_cache_meta = set t.code_cache_meta i meta }

abbrev cleared : Meta → Meta
cleared meta = record meta {
  exit_branch_type = BranchType.unknown;
  linked_from = none;
  branch_cache_status = 0;
  actual_id = 0;
  trampoline_addr = 0;
  trampoline_slots_used = 0;
  next_prediction_slot = 0;
  number_of_predictions = 0;
}

-- The rounds of the loop for the indices below i.
unfoldable pub clear_meta : ℕ → List Meta → List Meta
clear_meta zero metas = metas
clear_meta (suc i) metas =
    let before = clear_meta i metas in set before i (cleared (get_or before i null_meta))

unfoldable pub clear_counts : ℕ → List ℕ → List ℕ
clear_counts zero counts = counts
clear_counts (suc i) counts = set (clear_counts i counts) i 0

unfoldable pub flush_code_cache : Sizes → Thread → Outcome Thread
flush_code_cache c t = linked_list_init t.cc_links c.max_cc_links >>= λ links. ok (record t {
  was_flushed = true;
  free_block = c.trampolines_size_bbs;
  entry_address = hash_init t.entry_address c.hash_size;
  trace_cache_next = traces c t;
  trace_id = c.code_cache_size;
  active_trace_id = c.code_cache_size;
  code_cache_meta = clear_meta c.code_cache_size t.code_cache_meta;
  exec_count = clear_counts c.code_cache_size t.exec_count;
  cc_links = links;
})

-- `adjust_cc_entry` changes nothing but on AArch32.
unfoldable pub cc_lookup : ℕ → Thread → ℕ → Outcome ℕ
cc_lookup shift t target = hash_lookup shift t.entry_address target

unfoldable pub is_bb : Sizes → Thread → ℕ → Bool
is_bb c t addr = leb t.blocks addr && ltb addr (traces c t)

unfoldable pub is_trace : Sizes → Thread → ℕ → Bool
is_trace c t addr = leb (traces c t) addr && ltb addr (traces c t + trace_cache_size c)

-- None is -1.
unfoldable pub addr_to_bb_id : Sizes → Thread → ℕ → Option ℕ
addr_to_bb_id c t addr =
    if ltb addr t.blocks || ltb (traces c t) addr
    then none
    else some ((addr - t.blocks) / block_size)

-- `return thread_data->free_block++`
abbrev pub next_block : Thread → ℕ × Thread
next_block t = (t.free_block, record t { free_block = suc t.free_block })

unfoldable pub allocate_bb : Sizes → Thread → Outcome (ℕ × Thread)
allocate_bb c t =
    let flushed = flush_code_cache c t in
    if leb (c.code_cache_size - c.code_cache_overp) t.free_block
    then (flushed >>= λ t₁. ok (next_block t₁))
    else ok (next_block t)

unfoldable pub allocate_bb_overflow : Sizes → Thread → Outcome (ℕ × Thread)
allocate_bb_overflow c t = assert (ltb t.free_block c.code_cache_size) >> ok (next_block t)

-- `while(1)` if the entry cannot be added.
unfoldable pub add_entry : ℕ → Thread → ℕ → ℕ → Outcome Thread
add_entry shift t key value = hash_add shift t.entry_address key value >>= λ (added, table).
    if added then ok (record t { entry_address = table }) else hang

-- RISC-V writes no code into a stub.
unfoldable pub stub_bb : Sizes → ℕ → Thread → ℕ → Outcome (ℕ × Thread)
stub_bb c shift t target = allocate_bb c t >>= λ (bb, t₁).
    let block_address = t₁.blocks + bb * block_size in
    let t₂ = put_meta t₁ bb (record (meta_at t₁ bb) { exit_branch_type = BranchType.stub }) in
    add_entry shift t₂ target block_address >>= λ t₃. ok (block_address, t₃)

unfoldable pub lookup_or_stub : Sizes → ℕ → Thread → ℕ → Outcome (ℕ × Thread)
lookup_or_stub c shift t target = cc_lookup shift t target >>= λ block_address.
    let made = stub_bb c shift t target in
    if block_address == uint_max then made else ok (block_address, t)

module _ (c : Sizes) (shift : ℕ) (scan_riscv : Thread → ℕ → ℕ → Outcome (ℕ × Thread)) where
  -- `basic_block` is the block of a stub, or none for ALLOCATE_BB.
  unfoldable pub scan : Thread → ℕ → Option ℕ → Outcome (ℕ × Thread)
  scan t address basic_block =
      let is_new : Bool = elim basic_block [ none ↦ true | some bb ↦ false ] in
      let chosen : Outcome (ℕ × Thread) = elim basic_block [
        | none ↦ allocate_bb c t
        | some bb ↦ ok (bb, t)
      ] in
      chosen >>= λ (bb, t₁).
      let block_address = t₁.blocks + bb * block_size in
      let t₂ =
        put_meta t₁ bb (record (meta_at t₁ bb) { source_addr = address; tpc = block_address }) in
      let added = add_entry shift t₂ address block_address in
      (if is_new then added else ok t₂) >>= λ t₃.
      scan_riscv t₃ address bb >>= λ (size, t₄). ok (block_address, t₄)

  -- The result of `addr_to_bb_id` is an index; -1 would read outside of the table.
  unfoldable pub known_block : Thread → ℕ → Outcome (Option ℕ × Bool)
  known_block t block_address =
      if block_address == uint_max
      then ok (none, false)
      else if is_trace c t block_address
      then ok (none, true)
      else elim (addr_to_bb_id c t block_address) [
        | none ↦ abort
        | some bb ↦ ok (
          some bb,
          elim (meta_at t bb).exit_branch_type [
            | BranchType.stub ↦ false
            | BranchType.unknown ↦ true
            | BranchType.other n ↦ true
          ],
        )
      ]

  -- The address, `*cached`, and the thread.
  unfoldable pub lookup_or_scan_with_cached : Thread → ℕ → Outcome (ℕ × Bool × Thread)
  lookup_or_scan_with_cached t target = cc_lookup shift t target >>= λ block_address.
      known_block t block_address >>= λ (basic_block, cached).
      let scanned = scan t target basic_block >>= λ (address, t₁). ok (address, false, t₁) in
      if cached then ok (block_address, true, t) else scanned

  unfoldable pub lookup_or_scan : Thread → ℕ → Outcome (ℕ × Thread)
  lookup_or_scan t target =
      lookup_or_scan_with_cached t target >>= λ (address, cached, t₁). ok (address, t₁)

-- Links to addresses that are not in the block cache are not recorded.
unfoldable pub record_cc_link : Sizes → Thread → ℕ → ℕ → Outcome Thread
record_cc_link c t linked_from linked_to_addr = elim (addr_to_bb_id c t linked_to_addr) [
  | none ↦ ok t
  | some linked_to ↦
      let (entry, links) = linked_list_alloc t.cc_links in
      elim entry [
        | none ↦ abort
        | some e ↦
            let head = (meta_at t linked_to).linked_from in
            let link : LlEntry = record { next = head; content = linked_from } in
            let t₁ : Thread = record t {
              cc_links = record links { pool = set links.pool e link };
            } in
            ok (put_meta t₁ linked_to (record (meta_at t₁ linked_to) { linked_from = some e }))
      ]
]
