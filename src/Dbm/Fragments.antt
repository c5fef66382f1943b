-- ===== src/Dbm/Fragments.antt =====
-- `addr_to_fragment_id` of dbm.c: the fragment that holds an address.
use mambo.Base.{
  ℕ, zero, suc, ◌+◌, ◌-◌, ◌/◌, not, ◌&&◌, Option, none, some, ltb, leb, ◌==◌, if◌then◌else◌,
  Outcome, ok, hang, assert, ◌>>◌,
}
use mambo.Dbm.{Thread, Sizes, traces, trace_cache_size}
use mambo.Dbm.Cache.{meta_at, addr_to_bb_id}

abbrev pub tpc_at : Thread → ℕ → ℕ
tpc_at t i = (meta_at t i).tpc

-- The loop over the fragments from `first` to `last`; the fuel bounds its rounds.
unfoldable pub fragment_loop : ℕ → Thread → ℕ → ℕ → ℕ → Outcome (Option ℕ)
fragment_loop zero t addr first last = hang
fragment_loop (suc fuel) t addr first last =
    let pivot = (first + last) / 2 in
    let lower = fragment_loop fuel t addr first (pivot - 1) in
    let upper = fragment_loop fuel t addr (suc pivot) last in
    if leb first last
    then (if ltb addr (tpc_at t pivot)
        then lower
        else if leb (tpc_at t (suc pivot)) addr
        then upper
        else ok (some pivot))
    else ok none

-- The fragments of the traces.
unfoldable pub trace_fragment : Sizes → Thread → ℕ → Outcome (Option ℕ)
trace_fragment c t addr =
    let first = c.code_cache_size in
    let last = t.active_trace_id - 1 in
    let in_cache = assert (ltb addr (traces c t + trace_cache_size c)) in
    let found = fragment_loop (suc t.active_trace_id - first) t addr first last in
    if leb (tpc_at t last) addr then in_cache >> ok (some last) else found

unfoldable pub addr_to_fragment_id : Sizes → Thread → ℕ → Outcome (Option ℕ)
addr_to_fragment_id c t addr =
    assert (leb t.blocks addr && ltb addr (t.blocks + c.max_branch_range))
    >> elim (addr_to_bb_id c t addr) [
      | none ↦ trace_fragment c t addr
      | some id ↦
          let actual_id = (meta_at t id).actual_id in
          ok (some (if not (actual_id == 0) then actual_id else id))
    ]
