-- ===== src/LoadStore/Emit.antt =====
-- `emit_add_sub_i` of api/helpers.c, and `_generate_addr`, `_riscv_calc_ld_st_addr` and
-- `mambo_calc_rvv_ld_st_size` of api/load_store.c, as RISC-V builds have them. The immediate of an
-- encoder is a C integer, here as a 64-bit word.
use mambo.Base.{
  ℕ, zero, suc, ◌+◌, ◌-◌, ◌*◌, ◌/◌, ◌%◌, ◌^◌, Bool, not, ◌&&◌, ◌||◌, List, ◌∷◌, none, some, ltb,
  ◌==◌, if◌then◌else◌, ℤ, pos, negsuc, minus_one, is_zero,
}
use mambo.Base.Int.{ltb_ℤ}
use mambo.Riscv.{to_word}
use mambo.LoadStore.Inst.{RiscvInst}
use mambo.LoadStore.Sizes.{mambo_is_rvv_mem}
use mambo.LoadStore.Access.{Fields, sp, access}

-- The calls of encoders; the last argument of `addi` is the immediate.
pub data Emitted : Type 0 where
  addi : ℕ → ℕ → ℕ → Emitted
  andi : ℕ → ℕ → ℕ → Emitted
  slli : ℕ → ℕ → ℕ → Emitted
  srli : ℕ → ℕ → ℕ → Emitted
  sll : ℕ → ℕ → ℕ → Emitted
  sub : ℕ → ℕ → ℕ → Emitted
  csrrs : ℕ → ℕ → ℕ → Emitted

-- The parts of `mambo_context` in use; `word` is what stands at the read address.
pub record Context : Type 0 where
  pub inst : RiscvInst
  pub word : ℕ
  pub plugin_pushed_reg_count : ℕ
  pub emitted : List Emitted

abbrev pub emit : Context → Emitted → Context
emit ctx e = record ctx { emitted = e ∷ ctx.emitted }

-- The sum of an int and a count.
unfoldable pub add_count : ℤ → ℕ → ℤ
add_count (pos n) k = pos (n + k)
add_count (negsuc n) k = if ltb n k then pos (k - suc n) else negsuc (n - k)

unfoldable pub emit_mov : Context → ℕ → ℕ → Context
emit_mov ctx rd rn = emit ctx (Emitted.addi rd rn 0)

unfoldable pub emit_add_sub_i : Context → ℕ → ℕ → ℤ → ℤ × Context
emit_add_sub_i ctx rd rn offset =
    if is_zero offset
    then (pos 0, if not (rd == rn) then emit_mov ctx rd rn else ctx)
    else if ltb_ℤ (pos 0x7FF) offset || ltb_ℤ offset (negsuc 0xFFE)
    then (minus_one, ctx)
    else (pos 0, emit ctx (Emitted.addi rd rn (to_word offset)))

-- With `rm` given as `reg_invalid`, as all the RISC-V calls do. The result of `emit_add_sub_i` is
-- not looked at.
unfoldable pub generate_addr : Context → ℕ → ℕ → ℤ → Context
generate_addr ctx reg rn offset =
    let apply_offset = if rn == sp then ctx.plugin_pushed_reg_count * 8 else 0 in
    (emit_add_sub_i ctx reg rn (add_count offset apply_offset)).1

-- `decode_fields` is the generated field decoder of the instruction.
unfoldable pub riscv_calc_ld_st_addr : (Context → Fields) → Context → ℕ → ℤ × Context
riscv_calc_ld_st_addr decode_fields ctx reg = elim (access (decode_fields ctx) ctx.inst) [
  | none ↦ (minus_one, ctx)
  | some (rn, offset) ↦ (pos 0, generate_addr ctx reg rn offset)
]

-- The loop ends by 32 rounds.
unfoldable pub log2_loop : ℕ → ℕ → ℕ → ℕ
log2_loop zero v log = log
log2_loop (suc fuel) v log =
    let rest = log2_loop fuel (v / 2) (suc log) in if ltb 1 v then rest else log

unfoldable pub riscv_log2_pow2 : ℕ → ℕ
riscv_log2_pow2 v = log2_loop 32 v 0

abbrev pub csr_vstart : ℕ
csr_vstart = 0x008

abbrev pub csr_vl : ℕ
csr_vl = 0xC20

abbrev pub csr_vtype : ℕ
csr_vtype = 0xC21

abbrev pub csr_vlenb : ℕ
csr_vlenb = 0xC22

-- The fields of the instruction word; a shift and a mask are a division and a remainder.
abbrev pub width : ℕ → ℕ
width w = w / 2 ^ 12 % 8

abbrev pub lumop : ℕ → ℕ
lumop w = w / 2 ^ 20 % 32

abbrev pub mop : ℕ → ℕ
mop w = w / 2 ^ 26 % 4

abbrev pub nf : ℕ → ℕ
nf w = w / 2 ^ 29 % 8

abbrev pub eew_bytes : ℕ → ℕ
eew_bytes w = if width w == 5 then 2 else if width w == 6 then 4 else if width w == 7 then 8 else 1

abbrev pub is_amo : ℕ → Bool
is_amo w = w % 128 == 0x2f

abbrev pub is_whole_reg : ℕ → Bool
is_whole_reg w = not (is_amo w) && (mop w == 0) && (lumop w == 0x08)

abbrev pub is_mask : ℕ → Bool
is_mask w = not (is_amo w) && (mop w == 0) && (lumop w == 0x0b)

abbrev pub is_indexed : ℕ → Bool
is_indexed w = not (is_amo w) && ((mop w == 1) || (mop w == 3))

abbrev pub nf_count : ℕ → ℕ
nf_count w = if is_amo w then 1 else nf w + 1

-- A shift by zero is not emitted.
unfoldable pub emit_shift : Context → ℕ → ℕ → Context
emit_shift ctx reg shift = if not (shift == 0) then emit ctx (Emitted.slli reg reg shift) else ctx

unfoldable pub emit_whole_reg : Context → ℕ → Context
emit_whole_reg ctx size_reg =
    emit_shift (emit ctx (Emitted.csrrs size_reg csr_vlenb 0)) size_reg
      (riscv_log2_pow2 (nf_count ctx.word))

unfoldable pub emit_mask : Context → ℕ → Context
emit_mask ctx size_reg =
    let read_vl = emit ctx (Emitted.csrrs size_reg csr_vl 0) in
    emit (emit read_vl (Emitted.addi size_reg size_reg 7)) (Emitted.srli size_reg size_reg 3)

unfoldable pub emit_active : Context → ℕ → ℕ → Context
emit_active ctx size_reg scratch_reg =
    let read_vl = emit ctx (Emitted.csrrs size_reg csr_vl 0) in
    let read_vstart = emit read_vl (Emitted.csrrs scratch_reg csr_vstart 0) in
    emit read_vstart (Emitted.sub size_reg size_reg scratch_reg)

unfoldable pub emit_indexed : Context → ℕ → ℕ → Context
emit_indexed ctx size_reg scratch_reg =
    let log2_nf = riscv_log2_pow2 (nf_count ctx.word) in
    let read_vtype = emit ctx (Emitted.csrrs scratch_reg csr_vtype 0) in
    let field = emit read_vtype (Emitted.srli scratch_reg scratch_reg 3) in
    let vsew = emit field (Emitted.andi scratch_reg scratch_reg 7) in
    let scale =
      if not (log2_nf == 0)
      then emit vsew (Emitted.addi scratch_reg scratch_reg log2_nf)
      else vsew in
    emit scale (Emitted.sll size_reg size_reg scratch_reg)

unfoldable pub mambo_calc_rvv_ld_st_size : Context → ℕ → ℕ → ℤ × Context
mambo_calc_rvv_ld_st_size ctx size_reg scratch_reg =
    let active = emit_active ctx size_reg scratch_reg in
    let shift = riscv_log2_pow2 (eew_bytes ctx.word) + riscv_log2_pow2 (nf_count ctx.word) in
    if not (mambo_is_rvv_mem ctx.inst)
    then (minus_one, ctx)
    else if is_whole_reg ctx.word
    then (pos 0, emit_whole_reg ctx size_reg)
    else if is_mask ctx.word
    then (pos 0, emit_mask ctx size_reg)
    else if is_indexed ctx.word
    then (pos 0, emit_indexed active size_reg scratch_reg)
    else (pos 0, emit_shift active size_reg shift)
