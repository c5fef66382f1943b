-- ===== src/Plugins/Scratch.antt =====
-- api/plugin_support.c and api/helpers.c: scratch registers, and the RISC-V emit_push and emit_pop.
use mambo.Base.{
  ℕ, zero, suc, ◌+◌, ◌-◌, ◌%◌, ◌^◌, List, [], ◌∷◌, ◌++◌, leb, ◌==◌, if◌then◌else◌, not, ℤ, pos,
  minus_one, Outcome, ok, hang, assert, ◌>>=◌, ◌>>◌,
}
use mambo.RegList.{reg_invalid, next_reg_in_list, count_bits}
use mambo.Riscv.Emit.Push.{riscv_push, riscv_pop, without_reg}
use mambo.Plugins.{Context, CodeCtx}
use Prim.Native.Nat.{bit_and, bit_or}

abbrev pub with_code : Context → CodeCtx → Context
with_code ctx code = record ctx { code = code }

-- `emit_riscv_push`; 33 rounds count the bits of any list.
unfoldable pub emit_push : Context → ℕ → Outcome Context
emit_push ctx regs = count_bits 33 regs >>= λ reg_no. riscv_push ctx.code.writer regs >>= λ writer.
    ok (
      with_code ctx (record ctx.code {
        plugin_pushed_reg_count = ctx.code.plugin_pushed_reg_count + reg_no;
        writer = writer;
      }))

-- `emit_riscv_pop`; the assert refuses a negative count.
unfoldable pub emit_pop : Context → ℕ → Outcome Context
emit_pop ctx regs = count_bits 33 regs >>= λ reg_no.
    assert (leb reg_no ctx.code.plugin_pushed_reg_count)
    >> (riscv_pop ctx.code.writer regs >>= λ writer. ok (
        with_code ctx (record ctx.code {
          plugin_pushed_reg_count = ctx.code.plugin_pushed_reg_count - reg_no;
          writer = writer;
        })))

-- What the loop has: the registers given so far, those to push, those available, and the lowest
-- register pushed.
pub record Allocation : Type 0 where
  pub given : List ℕ
  pub to_push : ℕ
  pub available_regs : ℕ
  pub min_pushed_reg : ℕ

unfoldable pub scratch_rounds : ℕ → Allocation → Allocation
scratch_rounds zero a = a
scratch_rounds (suc left) a =
    let reg = next_reg_in_list a.available_regs 0 in
    let lower = a.min_pushed_reg - 1 in
    let from_available = scratch_rounds left (record a {
      given = a.given ++ (reg ∷ []);
      available_regs = without_reg a.available_regs reg;
    }) in
    let from_push = scratch_rounds left (record a {
      given = a.given ++ (lower ∷ []);
      to_push = bit_or a.to_push (2 ^ lower);
      min_pushed_reg = lower;
    }) in
    if not (reg == reg_invalid)
    then from_available
    else if a.min_pushed_reg == 0
    then a
    else from_push

-- The registers given, and the context.
unfoldable pub mambo_get_scratch_regs : Context → ℕ → Outcome (List ℕ × Context)
mambo_get_scratch_regs ctx count =
    let pushed_regs = ctx.code.pushed_regs in
    let start = if not (pushed_regs == 0) then next_reg_in_list pushed_regs 0 else 8 in
    let a = scratch_rounds count (record {
      given = [];
      to_push = 0;
      available_regs = ctx.code.available_regs;
      min_pushed_reg = start;
    }) in
    let ctx₁ = with_code ctx (record ctx.code {
      available_regs = a.available_regs;
      pushed_regs = bit_or pushed_regs a.to_push;
    }) in
    let pushed = emit_push ctx₁ a.to_push >>= λ ctx₂. ok (a.given, ctx₂) in
    if not (a.to_push == 0) then pushed else ok (a.given, ctx₁)

unfoldable pub mambo_free_scratch_regs : Context → ℕ → ℤ × Context
mambo_free_scratch_regs ctx regs =
    let freed = record ctx.code { available_regs = bit_or ctx.code.available_regs regs } in
    if not (bit_and regs ctx.code.pushed_regs == regs)
    then (minus_one, ctx)
    else (pos 0, with_code ctx freed)

-- It calls itself, and not `mambo_free_scratch_regs`: whatever the depth, it does not return.
unfoldable pub mambo_free_scratch_reg : ℕ → Context → ℕ → Outcome (ℤ × Context)
mambo_free_scratch_reg zero ctx reg = hang
mambo_free_scratch_reg (suc depth) ctx reg = mambo_free_scratch_reg depth ctx (2 ^ reg % 2 ^ 32)
