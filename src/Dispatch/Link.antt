-- ===== src/Dispatch/Link.antt =====
-- arch/riscv/dispatcher_riscv.c: linking blocks; dispatcher.c: the dispatcher.
use mambo.Base.{
  ℕ, ◌+◌, ◌-◌, ◌^◌, Bool, true, false, not, ◌&&◌, ◌||◌, Option, none, some, List, leb, ◌==◌,
  if◌then◌else◌, Outcome, ok, abort, assert, ◌>>=◌, ◌>>◌,
}
use mambo.CodeHash.{uint_max}
use Prim.Native.Nat.{bit_xor}
use mambo.Riscv.Emit.{
  Instr, Writer, emit, advance, riscv_jal_helper, riscv_jalr_helper, riscv_branch_helper,
}
use mambo.Riscv.Emit.Push.{riscv_push}
use mambo.Dbm.{BranchType, Meta, Thread, Sizes}
use mambo.Dbm.Cache.{meta_at, cc_lookup, lookup_or_scan, record_cc_link}
use mambo.Dispatch.Trampolines.{riscv_try_jump_trampolines}

abbrev a0 : ℕ
a0 = 10

abbrev a1 : ℕ
a1 = 11

abbrev nop : Instr
nop = Instr.addi 0 0 0

-- Four rounds.
unfoldable pub riscv_pad_direct_link : Writer → Writer
riscv_pad_direct_link w =
    let w₁ = advance (emit w nop) 2 in
    let w₂ = advance (emit w₁ nop) 2 in let w₃ = advance (emit w₂ nop) 2 in advance (emit w₃ nop) 2

-- The jump through a register, for which the block's first instructions restore what is pushed.
unfoldable pub far_jump : Writer → ℕ → Outcome (Bool × Writer)
far_jump w target = riscv_push w (2 ^ a0 + 2 ^ a1) >>= λ w₁.
    elim (riscv_jalr_helper w₁ target 0 a0) [ none ↦ ok (false, w₁) | some w₂ ↦ ok (true, w₂) ]

-- Through trampolines if they serve, else through a register.
unfoldable pub link_beyond : Sizes → Thread → Writer → ℕ → Outcome (Bool × Thread × Writer)
link_beyond c t w target = riscv_try_jump_trampolines c t w.code w.write_p (target + 6) >>= λ tried.
    elim tried [
      | some (t₁, code) ↦
          ok (true, t₁, riscv_pad_direct_link (advance (record w { code = code }) 2))
      | none ↦ far_jump w target >>= λ (made, w₁). ok (made, t, w₁)
    ]

-- The result is true for 0.
unfoldable pub riscv_link_to : Sizes → Thread → Writer → ℕ → Outcome (Bool × Thread × Writer)
riscv_link_to c t w target =
    let linked : Outcome (Bool × Thread × Writer) = elim (riscv_jal_helper w (target + 6) 0) [
      | some w₁ ↦ ok (true, t, riscv_pad_direct_link w₁)
      | none ↦ link_beyond c t w target
    ] in
    linked >>= λ (made, t₁, w₁). record_cc_link c t₁ w.write_p target >>= λ t₂. ok (made, t₂, w₁)

-- `int ret = riscv_link_to(...); assert(ret == 0);`
abbrev link_or_abort : Sizes → Thread → Writer → ℕ → Outcome (Thread × Writer)
link_or_abort c t w target =
    riscv_link_to c t w target >>= λ (made, t₁, w₁). assert made >> ok (t₁, w₁)

abbrev link_if : Bool → Sizes → Thread → Writer → ℕ → Outcome (Thread × Writer)
link_if b c t w target = let linked = link_or_abort c t w target in if b then linked else ok (t, w)

unfoldable pub invert_cond : ℕ → ℕ
invert_cond cond = bit_xor cond 1

-- Neither way is in the range of a branch.
unfoldable pub link_around :
    Sizes → Thread → Writer → Meta → ℕ → ℕ → Bool → Bool → Outcome (Thread × Writer)
link_around c t w meta target_tpc fallthrough_tpc target_in_cc fallthrough_in_cc =
    let inverted = invert_cond meta.branch_condition in
    let cond = if target_in_cc then inverted else invert_cond inverted in
    let first = if target_in_cc then target_tpc else fallthrough_tpc in
    link_or_abort c t (advance w 2) first >>= λ (t₁, w₁).
    elim (riscv_branch_helper (record w₁ { write_p = w.write_p }) w₁.write_p meta.rs1 meta.rs2
      cond) [
        | none ↦ abort
        | some w₂ ↦
            let w₃ = record w₂ { write_p = w₁.write_p } in
            link_if (target_in_cc && fallthrough_in_cc) c t₁ w₃ fallthrough_tpc
      ]

-- A branch with the condition `cond` is tried, and recorded; then the other way, if it is there.
unfoldable pub link_near :
    Sizes → Thread → Writer → Meta → ℕ → ℕ → Bool → ℕ → Option (Outcome (Thread × Writer))
link_near c t w meta cond target_tpc other_in_cc other =
    elim (riscv_branch_helper w (target_tpc + 6) meta.rs1 meta.rs2 cond) [
      | none ↦ none
      | some w₁ ↦ some (
          record_cc_link c t (w₁.write_p - 4) (target_tpc + 6) >>= λ t₁.
          link_if other_in_cc c t₁ w₁ other)
    ]

abbrev or_else {ℓ} : {A : Type ℓ} → Option A → A → A
or_else none b = b
or_else (some a) b = a

unfoldable pub riscv_link_branch :
    Sizes → ℕ → Thread → List (ℕ × Instr) → ℕ → Outcome (Thread × Writer)
riscv_link_branch c shift t code bb_id =
    let meta = meta_at t bb_id in
    let w : Writer = record { write_p = meta.exit_branch_addr; code = code } in
    cc_lookup shift t meta.branch_taken_addr >>= λ target_tpc.
    cc_lookup shift t meta.branch_skipped_addr >>= λ fallthrough_tpc.
    let target_in_cc = not (target_tpc == uint_max) in
    let fallthrough_in_cc = not (fallthrough_tpc == uint_max) in
    let around = link_around c t w meta target_tpc fallthrough_tpc target_in_cc fallthrough_in_cc in
    let inverted =
      link_near c t w meta (invert_cond meta.branch_condition) target_tpc target_in_cc target_tpc in
    let straight =
      link_near c t w meta meta.branch_condition target_tpc fallthrough_in_cc fallthrough_tpc in
    assert (target_in_cc || fallthrough_in_cc)
    >> or_else (if target_in_cc then straight else none)
        (or_else (if fallthrough_in_cc then inverted else none) around)

-- The thread and the code afterwards.
unfoldable pub dispatcher_riscv :
    Sizes → ℕ → Thread → List (ℕ × Instr) → ℕ → BranchType → ℕ → Outcome (Thread × List (ℕ × Instr))
dispatcher_riscv c shift t code source_index exit_type block_address =
    let by_branch = riscv_link_branch c shift t code source_index >>= λ (t₁, w). ok (t₁, w.code) in
    let from_here : Writer = record {
      write_p = (meta_at t source_index).exit_branch_addr;
      code = code;
    } in
    let by_jump = link_or_abort c t from_here block_address >>= λ (t₁, w). ok (t₁, w.code) in
    elim exit_type [
      | BranchType.unknown ↦ ok (t, code)
      | BranchType.stub ↦ ok (t, code)
      | BranchType.other n ↦ if n == 5 then by_branch else if n == 3 then by_jump else ok (t, code)
    ]

-- `*next_addr`, the thread and the code. The scanner writes code too; so does `trace_dispatcher`,
-- which is a parameter.
module _ (c : Sizes) (shift : ℕ) (scan_riscv : Thread → ℕ → ℕ → Outcome (ℕ × Thread))
    (trace_dispatcher : ℕ
      → ℕ
      → Thread
      → List (ℕ × Instr)
      → Outcome (ℕ × Thread × List (ℕ × Instr))) where
  unfoldable pub dispatcher :
      ℕ → ℕ → Thread → List (ℕ × Instr) → Outcome (ℕ × Thread × List (ℕ × Instr))
  dispatcher target source_index t code =
      let source_branch_type = (meta_at t source_index).exit_branch_type in
      let t₁ : Thread = record t { was_flushed = false } in
      let found = lookup_or_scan c shift scan_riscv t₁ target >>= λ (next_addr, t₂).
      let linked =
        dispatcher_riscv c shift t₂ code source_index source_branch_type next_addr
        >>= λ (t₃, code₁). ok (next_addr, t₃, code₁) in
      if (source_index == 0) || t₂.was_flushed then ok (next_addr, t₂, code) else linked in
      if leb c.code_cache_size source_index
      then trace_dispatcher target source_index t code
      else found
