-- ===== src/Dispatch/Trampolines.antt =====
-- arch/riscv/dispatcher_riscv.c: jumps through slots that other blocks have left free.
use mambo.Base.{
  ℕ, zero, suc, ◌+◌, ◌-◌, ◌*◌, ◌%◌, Bool, true, not, ◌&&◌, Option, none, some, List, [], ◌∷◌, ltb,
  leb, ◌==◌, if◌then◌else◌, Outcome, ok, abort, ◌>>=◌,
}
use mambo.Riscv.{word64, to_signed, masked, outside}
use mambo.Riscv.Emit.{Instr, riscv_jal_helper}
use mambo.Dbm.{Meta, Thread, Sizes}
use mambo.Dbm.Cache.{meta_at, put_meta}

abbrev pub riscv_jal_range : ℕ
riscv_jal_range = 1024 * 1024

abbrev riscv_trampoline_max_hops : ℕ
riscv_trampoline_max_hops = 8

abbrev riscv_trampoline_slots : ℕ
riscv_trampoline_slots = 6

abbrev riscv_trampoline_max_distance : ℕ
riscv_trampoline_max_distance = 3 * 1024 * 1024

abbrev pub offset_from : ℕ → ℕ → ℕ
offset_from from target = (target + (word64 - from)) % word64

unfoldable pub riscv_jal_can_reach : ℕ → ℕ → Bool
riscv_jal_can_reach from target =
    let offset = offset_from from target in
    not (masked offset 1) && not (outside riscv_jal_range (to_signed offset))

unfoldable pub riscv_address_distance : ℕ → ℕ → ℕ
riscv_address_distance a b = if leb b a then a - b else b - a

-- The address of the next free slot of a block; a slot has two halfwords.
abbrev pub candidate : Meta → ℕ
candidate meta = meta.trampoline_addr + 4 * meta.trampoline_slots_used

-- Whether the loop's body gets past its two `continue`.
unfoldable pub usable : Meta → ℕ → ℕ → Bool
usable meta source target =
    let at = candidate meta in
    let between =
      if ltb source target
      then ltb source at && ltb at target
      else ltb at source && ltb target at in
    not (meta.trampoline_addr == 0)
    && ltb meta.trampoline_slots_used riscv_trampoline_slots
    && between
    && riscv_jal_can_reach at target

-- `best` is the index and the address of the best slot so far.
unfoldable pub slot_round : Thread → ℕ → ℕ → ℕ → Option (ℕ × ℕ) → Option (ℕ × ℕ)
slot_round t source target i best =
    let at = candidate (meta_at t i) in
    let better : Bool = elim best [
      | none ↦ true
      | some (j, best_addr) ↦ if ltb source target then ltb at best_addr else ltb best_addr at
    ] in
    if usable (meta_at t i) source target && better then some (i, at) else best

unfoldable pub slot_rounds : ℕ → Thread → ℕ → ℕ → ℕ → Option (ℕ × ℕ) → Option (ℕ × ℕ)
slot_rounds zero t source target i best = best
slot_rounds (suc left) t source target i best =
    slot_rounds left t source target (suc i) (slot_round t source target i best)

unfoldable pub riscv_find_trampoline_slot : Sizes → Thread → ℕ → ℕ → Option (ℕ × ℕ)
riscv_find_trampoline_slot c t source target =
    slot_rounds (t.free_block - c.trampolines_size_bbs) t source target c.trampolines_size_bbs none

-- The slots that the first loop finds, the last one first; `left` slots may still be taken.
unfoldable pub find_slots : Sizes → ℕ → Thread → ℕ → ℕ → List (ℕ × ℕ) → Option (List (ℕ × ℕ))
find_slots c zero t source next_target slots =
    if riscv_jal_can_reach source next_target then some slots else none
find_slots c (suc left) t source next_target slots =
    let next : Option (List (ℕ × ℕ)) = elim (riscv_find_trampoline_slot c t source next_target) [
      | none ↦ none
      | some (i, at) ↦ find_slots c left t source at ((i, at) ∷ slots)
    ] in
    if riscv_jal_can_reach source next_target then some slots else next

abbrev pub next_target : ℕ → List (ℕ × ℕ) → ℕ
next_target target [] = target
next_target target ((i, at) ∷ slots) = at

-- `assert(riscv_jal_helper(&write_p, target, zero) == 0)` with `write_p` at an address.
unfoldable pub put_jal : List (ℕ × Instr) → ℕ → ℕ → Outcome (List (ℕ × Instr))
put_jal code at target = elim (riscv_jal_helper (record { write_p = at; code = code }) target 0) [
  | none ↦ abort
  | some w ↦ ok w.code
]

abbrev pub used_once_more : Meta → Meta
used_once_more meta = record meta { trampoline_slots_used = (meta.trampoline_slots_used + 1) % 256 }

-- The second loop, from the first slot on, which is the last of the list.
unfoldable pub fill_slots :
    ℕ → List (ℕ × ℕ) → Thread → List (ℕ × Instr) → Outcome (Thread × List (ℕ × Instr))
fill_slots target [] t code = ok (t, code)
fill_slots target ((i, at) ∷ slots) t code = fill_slots target slots t code >>= λ (t₁, code₁).
    put_jal code₁ at (next_target target slots) >>= λ code₂.
    ok (put_meta t₁ i (used_once_more (meta_at t₁ i)), code₂)

-- None is -1.
unfoldable pub riscv_try_jump_trampolines :
    Sizes → Thread → List (ℕ × Instr) → ℕ → ℕ → Outcome (Option (Thread × List (ℕ × Instr)))
riscv_try_jump_trampolines c t code source target =
    let found : Outcome (Option (Thread × List (ℕ × Instr))) =
      elim (find_slots c riscv_trampoline_max_hops t source target []) [
        | none ↦ ok none
        | some slots ↦ fill_slots target slots t code >>= λ (t₁, code₁).
            put_jal code₁ source (next_target target slots) >>= λ code₂. ok (some (t₁, code₂))
      ] in
    if leb riscv_trampoline_max_distance (riscv_address_distance source target)
    then ok none
    else found
