-- ===== src/Plugins/Reserved.antt =====
-- A branch that is reserved and filled in later: where it goes, and what it does to x1.
use mambo.Base.{
  ℕ, ◌+◌, ◌%◌, ◌^◌, ◌<◌, ◌≡◌, ◌≢◌, refl, ap, Bool, true, false, ◌||◌, Option, none, some, List, ◌∷◌,
  ◌==◌, arith, ℤ, pos, negsuc, minus_one,
}
use mambo.Base.Int.{ltb_ℤ}
use mambo.Riscv.{word64, to_signed}
use mambo.Riscv.Immediates.{Fits}
use mambo.Riscv.Emit.{Instr, Writer, offset_to, emit, advance}
use mambo.Riscv.Emit.Machine.{Cpu, execute}
use mambo.Riscv.Emit.Jumps.{riscv_jal_helper_lem}
use mambo.Dispatch.Trampolines.{riscv_jal_can_reach, offset_from}
use mambo.Dispatch.Machine.{
  Apart, fetch, steps, fetch-Apart, fetch-here, jal_made, jal_lands, j_field,
}
use mambo.Plugins.{Context}
use mambo.Plugins.Branches.{
  MamboBranch, emit_branch_at, emit_local, emit_local_branch, emit_local_fcall, keep_write_p,
}

in_test_range :
    (diff : ℤ)
    → Fits (2 ^ 20) diff
    → (ltb_ℤ diff (negsuc 1048575) || ltb_ℤ (pos 1048574) diff) ≡ false
in_test_range (pos k) h = ground arith
in_test_range (negsuc k) h = ground arith

abbrev jump_to : ℕ → ℕ → Instr
jump_to at target = Instr.jal 1 (j_field (offset_from at target))

idle : Cpu
idle = record { pc = 0; regs = λ r. 0; mem = λ a. 0 }

-- The distances that JAL takes are in the range of the test.
emit_branch_at_lem :
    (w : Writer) (target : ℕ) (link : Bool)
    → w.write_p < word64
    → target < word64
    → riscv_jal_can_reach w.write_p target ≡ true
    → emit_branch_at w target 0 link
      ≡ some (advance (emit w (Instr.jal 1 (j_field (offset_to w target)))) 2)
unfolding emit_branch_at
emit_branch_at_lem w target link h l reach =
    let made = jal_made w target 1 reach in
    let jump = rw made at (riscv_jal_helper_lem (λ c i. false) idle w target h l 1) in
    let fits : Fits (2 ^ 20) (to_signed (offset_to w target)) = jump.0 in
    rw (in_test_range (to_signed (offset_to w target)) fits, made) refl

one_step :
    (taken : Cpu → Instr → Bool) (code : List (ℕ × Instr)) (cpu : Cpu) (at : ℕ) (instr : Instr)
    → cpu.pc ≡ at
    → steps taken 1 ((at, instr) ∷ code) cpu ≡ some (execute taken cpu.pc instr cpu)
unfolding steps
one_step taken code cpu at instr here =
    let there : fetch ((at, instr) ∷ code) cpu.pc ≡ some instr =
      rw here (fetch-here code at instr) in
    rw (steps, there) refl

made_local :
    (ctx : Context) (br : MamboBranch) (link : Bool)
    → br.loc < word64
    → ctx.code.writer.write_p < word64
    → riscv_jal_can_reach br.loc ctx.code.writer.write_p ≡ true
    → emit_local ctx br 0 link ≡ (
      pos 0,
      keep_write_p ctx (record {
        write_p = br.loc + 4;
        code = (br.loc, jump_to br.loc ctx.code.writer.write_p) ∷ ctx.code.writer.code;
      }),
    )
unfolding emit_local
made_local ctx br link h l reach =
    ap
      (λ (made : Option Writer). elim made [
        | none ↦ (minus_one, ctx)
        | some w₁ ↦ (pos 0, keep_write_p ctx w₁)
      ])
      (emit_branch_at_lem (record ctx.code.writer { write_p = br.loc }) ctx.code.writer.write_p link
        h l reach)

-- At a reserved place and a write pointer below 2 ^ 64 that JAL reaches from there: emit_local_branch
-- returns 0, a processor at the place comes to the write pointer in one instruction and loses x1,
-- which has the address behind the place then, and no instruction apart from the place is changed;
-- emit_local_fcall does the same.
pub emit_local_branch_lem :
    (ctx : Context) (br : MamboBranch)
    → br.loc < word64
    → ctx.code.writer.write_p < word64
    → riscv_jal_can_reach br.loc ctx.code.writer.write_p ≡ true
    → ((emit_local_branch ctx br).0 ≡ pos 0)
      × (emit_local_fcall ctx br ≡ emit_local_branch ctx br)
      × ((emit_local_branch ctx br).1.code.writer.write_p ≡ ctx.code.writer.write_p)
      × ((taken : Cpu → Instr → Bool) (cpu : Cpu)
          → cpu.pc ≡ br.loc
          → (cpu' : Cpu) × (steps taken 1 (emit_local_branch ctx br).1.code.writer.code cpu
              ≡ some cpu')
            × (cpu'.pc ≡ ctx.code.writer.write_p)
            × (cpu'.regs 1 ≡ (br.loc + 4) % word64)
            × ((r : ℕ) → r ≢ 1 → cpu'.regs r ≡ cpu.regs r))
      × ((pc : ℕ)
          → Apart br.loc pc
          → fetch (emit_local_branch ctx br).1.code.writer.code pc ≡ fetch ctx.code.writer.code pc)
unfolding emit_local_branch emit_local_fcall steps execute
emit_local_branch_lem ctx br h l reach =
    let target = ctx.code.writer.write_p in
    let instr = jump_to br.loc target in
    rw
      (
        emit_local_branch,
        emit_local_fcall,
        made_local ctx br false h l reach,
        made_local ctx br true h l reach,
      )
      (
        refl,
        refl,
        refl,
        λ taken cpu here. (
          execute taken cpu.pc instr cpu,
          one_step taken ctx.code.writer.code cpu br.loc instr here,
          rw here (jal_lands br.loc target 1 h l reach taken cpu),
          rw here refl,
          λ r ne. let other : (r == 1) ≡ false = ground arith in rw other refl,
        ),
        λ pc apart. fetch-Apart ctx.code.writer.code br.loc pc instr apart,
      )
