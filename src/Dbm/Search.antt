-- ===== src/Dbm/Search.antt =====
-- The binary search of dbm.c over the fragments of the traces.
use mambo.Base.{
  ℕ, zero, suc, ◌+◌, ◌-◌, ◌*◌, ◌/◌, ◌≤◌, ◌<◌, ◌≡◌, refl, true, false, Option, none, some, ltb, leb,
  arith, Bool-cases, inl, inr, Returns,
}
use mambo.Dbm.{Thread, Sizes, traces, trace_cache_size, block_size}
use mambo.Dbm.Cache.{addr_to_bb_id}
use mambo.Dbm.Fragments.{tpc_at, fragment_loop, trace_fragment, addr_to_fragment_id}

-- The fragments from one index to another are in the order of their addresses.
abbrev pub Ordered : Thread → ℕ → ℕ → Type 0
Ordered t first last = (i j : ℕ) → first ≤ i → i ≤ j → j ≤ last → tpc_at t i ≤ tpc_at t j

-- The fragment holds the address: it begins at or before it, and the next one, if any, behind it.
abbrev pub Holds : Thread → ℕ → ℕ → Option ℕ → Type 0
Holds t last addr none = ⊥
Holds t last addr (some id) =
    (id ≤ last) × (tpc_at t id ≤ addr) × (id < last → addr < tpc_at t (suc id))

-- A fragment at or before the address comes before one behind it.
before :
    (t : Thread) (addr bottom top i high : ℕ)
    → Ordered t bottom top
    → bottom ≤ high
    → i ≤ top
    → tpc_at t i ≤ addr
    → addr < tpc_at t high
    → i < high
before t addr bottom top i high ordered b l below above = elim (Bool-cases (ltb i high)) [
  | inl less ↦ ground arith
  | inr more ↦ let sorted = ordered high i b (ground arith) l in absurd (omega (arith, sorted))
]

-- `high` is a fragment behind the address, at most one above the range searched.
fragment_loop_lem :
    (fuel : ℕ) (t : Thread) (addr bottom first last high top : ℕ)
    → Ordered t bottom top
    → 0 < bottom
    → bottom ≤ first
    → first < high
    → high ≤ suc last
    → high ≤ top
    → last ≤ top
    → suc last ≤ fuel + first
    → tpc_at t first ≤ addr
    → addr < tpc_at t high
    → Returns (fragment_loop fuel t addr first last) (Holds t top addr)
unfolding fragment_loop
fragment_loop_lem zero t addr bottom first last high top ordered pos b f h ht lt enough below
      above =
    absurd (omega arith)
fragment_loop_lem (suc fuel) t addr bottom first last high top ordered pos b f h ht lt enough below
      above =
    let pivot = (first + last) / 2 in
    let more : leb first last ≡ true = ground arith in
    elim (Bool-cases (ltb addr (tpc_at t pivot))) [
      | inl lower ↦
          let behind : addr < tpc_at t pivot = ground arith in
          let less =
            before t addr bottom top first pivot ordered (omega arith) (omega arith) below behind in
          rw (more, lower)
            (fragment_loop_lem fuel t addr bottom first (pivot - 1) pivot top ordered pos b less
              (omega arith) (omega arith) (omega arith) (omega (arith, less)) below behind)
      | inr other ↦
          let at : tpc_at t pivot ≤ addr = ground arith in
          let less =
            before t addr bottom top pivot high ordered (omega arith) (omega arith) at above in
          elim (Bool-cases (leb (tpc_at t (suc pivot)) addr)) [
            | inl upper ↦
                let next : tpc_at t (suc pivot) ≤ addr = ground arith in
                let less_next =
                  before t addr bottom top (suc pivot) high ordered (omega arith)
                    (omega (arith, less)) next above in
                rw (more, other, upper)
                  (fragment_loop_lem fuel t addr bottom (suc pivot) last high top ordered pos
                    (omega arith) less_next h ht lt (omega arith) next above)
            | inr found ↦
                rw (more, other, found)
                  (some pivot, refl, (omega (arith, less), at, λ _. ground (arith, found)))
          ]
    ]

-- For an address behind the start of the traces and below the end of the code cache: if the trace
-- fragments, of which there is one at least, are in the order of their addresses and the first
-- begins at or before the address, `addr_to_fragment_id` returns the fragment that holds the address.
pub addr_to_fragment_id_lem :
    (c : Sizes) (t : Thread) (addr : ℕ)
    → 0 < c.code_cache_size
    → c.code_cache_size < t.active_trace_id
    → c.code_cache_size * block_size ≤ c.max_branch_range
    → traces c t < addr
    → addr < t.blocks + c.max_branch_range
    → Ordered t c.code_cache_size (t.active_trace_id - 1)
    → tpc_at t c.code_cache_size ≤ addr
    → Returns (addr_to_fragment_id c t addr) (Holds t (t.active_trace_id - 1) addr)
unfolding addr_to_fragment_id trace_fragment addr_to_bb_id
addr_to_fragment_id_lem c t addr pos some_trace fits behind inside ordered below =
    let last = t.active_trace_id - 1 in
    let a : leb t.blocks addr ≡ true = ground arith in
    let b : ltb addr (t.blocks + c.max_branch_range) ≡ true = ground arith in
    let d : ltb (traces c t) addr ≡ true = ground arith in
    let low : ltb addr t.blocks ≡ false = ground arith in
    elim (Bool-cases (leb (tpc_at t last) addr)) [
      | inl end ↦
          let e : ltb addr (traces c t + trace_cache_size c) ≡ true = ground arith in
          rw (a, b, d, low, end, e)
            (some last, refl, (omega arith, ground arith, λ l. absurd (omega (arith, l))))
      | inr inner ↦
          let above : addr < tpc_at t last = ground arith in
          let less =
            before t addr c.code_cache_size last c.code_cache_size last ordered (omega arith)
              (omega arith) below above in
          rw (a, b, d, low, inner)
            (fragment_loop_lem (suc t.active_trace_id - c.code_cache_size) t addr c.code_cache_size
              c.code_cache_size last last last ordered pos (omega arith) less (omega arith)
              (omega arith) (omega arith) (omega arith) below above)
    ]
