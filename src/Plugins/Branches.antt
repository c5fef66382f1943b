-- ===== src/Plugins/Branches.antt =====
-- api/helpers.c: branches that plugins emit, in a RISC-V build.
use mambo.Base.{
  ℕ, ◌+◌, Bool, true, false, not, ◌&&◌, ◌||◌, Option, none, some, ◌==◌, if◌then◌else◌, ℤ, pos,
  negsuc, minus_one, Outcome, ok, assert, ◌>>=◌, ◌>>◌,
}
use mambo.Base.Int.{ltb_ℤ}
use mambo.Riscv.{to_signed}
use mambo.Riscv.Emit.{Writer, offset_to, riscv_jal_helper, riscv_branch_helper}
use mambo.Plugins.{Context}
use mambo.Plugins.Scratch.{with_code}

abbrev pub al : ℕ
al = 0

abbrev pub ra : ℕ
ra = 1

-- `mambo_branch`
pub record MamboBranch : Type 0 where
  pub loc : ℕ

-- `__emit_branch_cond`; the writer is at `write`. None is -1. What riscv_jal_helper returns is not
-- looked at.
unfoldable pub emit_branch_at : Writer → ℕ → ℕ → Bool → Option Writer
emit_branch_at w target cond link =
    let diff = to_signed (offset_to w target) in
    let jumped : Writer = elim (riscv_jal_helper w target ra) [ none ↦ w | some w₁ ↦ w₁ ] in
    if not (cond == al) && link
    then none
    else if cond == al
    then (if ltb_ℤ diff (negsuc 1048575) || ltb_ℤ (pos 1048574) diff then none else some jumped)
    else none

abbrev pub with_writer : Context → Writer → Context
with_writer ctx w = with_code ctx (record ctx.code { writer = w })

-- `mambo_set_cc_addr`
unfoldable pub mambo_set_cc_addr : Context → ℕ → Outcome Context
mambo_set_cc_addr ctx addr =
    assert (not (ctx.code.writer.write_p == 0))
    >> ok (with_writer ctx (record ctx.code.writer { write_p = addr }))

-- The context, whose code is changed and whose write pointer is not.
abbrev pub keep_write_p : Context → Writer → Context
keep_write_p ctx w = with_writer ctx (record w { write_p = ctx.code.writer.write_p })

unfoldable pub emit_branch_cond : Context → ℕ → ℕ → Outcome (ℤ × Context)
emit_branch_cond ctx target cond = elim (emit_branch_at ctx.code.writer target cond false) [
  | none ↦ ok (minus_one, ctx)
  | some w ↦ mambo_set_cc_addr (keep_write_p ctx w) (ctx.code.writer.write_p + 4) >>= λ ctx₁.
      ok (pos 0, ctx₁)
]

unfoldable pub emit_branch : Context → ℕ → Outcome (ℤ × Context)
emit_branch ctx target = emit_branch_cond ctx target al

unfoldable pub emit_riscv_cond_branch : Context → ℕ → ℕ → ℕ → ℕ → ℤ × Context
emit_riscv_cond_branch ctx target rs1 rs2 branch_condition =
    elim (riscv_branch_helper ctx.code.writer target rs1 rs2 branch_condition) [
      | none ↦ (minus_one, ctx)
      | some w ↦ (pos 0, with_writer ctx w)
    ]

-- `__mambo_reserve`; the branch is left as it is for -1.
unfoldable pub mambo_reserve : Context → MamboBranch → ℕ → ℤ × MamboBranch × Context
mambo_reserve ctx br incr =
    let w = ctx.code.writer in
    if not (w.write_p == 0)
    then (
      pos 0,
      record { loc = w.write_p },
      with_writer ctx (record w { write_p = w.write_p + incr }),
    )
    else (minus_one, br, ctx)

unfoldable pub mambo_reserve_branch : Context → MamboBranch → ℤ × MamboBranch × Context
mambo_reserve_branch ctx br = mambo_reserve ctx br 4

unfoldable pub mambo_reserve_branch_cbz : Context → MamboBranch → ℤ × MamboBranch × Context
mambo_reserve_branch_cbz ctx br = mambo_reserve ctx br 2

-- `__emit_local_branch`
unfoldable pub emit_local : Context → MamboBranch → ℕ → Bool → ℤ × Context
emit_local ctx br cond link =
    let w = ctx.code.writer in
    elim (emit_branch_at (record w { write_p = br.loc }) w.write_p cond link) [
      | none ↦ (minus_one, ctx)
      | some w₁ ↦ (pos 0, keep_write_p ctx w₁)
    ]

unfoldable pub emit_local_branch_cond : Context → MamboBranch → ℕ → ℤ × Context
emit_local_branch_cond ctx br cond = emit_local ctx br cond false

unfoldable pub emit_local_branch : Context → MamboBranch → ℤ × Context
emit_local_branch ctx br = emit_local ctx br al false

unfoldable pub emit_local_fcall : Context → MamboBranch → ℤ × Context
emit_local_fcall ctx br = emit_local ctx br al true
