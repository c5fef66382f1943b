-- ===== src/Riscv/Emit/Push.antt =====
-- riscv_push and riscv_pop of arch/riscv/scanner_riscv.c, for 64-bit words and with compressed
-- instructions.
use mambo.Base.{
  ℕ, zero, suc, ◌+◌, ◌-◌, ◌*◌, ◌/◌, ◌^◌, [], ◌∷◌, leb, ◌==◌, if◌then◌else◌, get_or, Outcome, ok,
  hang, abort, assert, ◌>>=◌, ◌>>◌, none, some, pos,
}
use mambo.RegList.{count_bits, get_lowest_n_regs}
use mambo.Riscv.{word64, riscv_create_cldsp_imm_pair, riscv_create_c_addi16sp_pair}
use mambo.Riscv.Emit.{Instr, Writer, emit, advance}
use Prim.Native.Nat.{bit_and}

abbrev sp : ℕ
sp = 2

abbrev wordsz : ℕ
wordsz = 8

-- `regs &= ~(1 << reg)`
abbrev pub without_reg : ℕ → ℕ → ℕ
without_reg regs reg = bit_and regs (2 ^ 32 - 1 - 2 ^ reg)

-- A round takes a register off: 33 rounds are enough for a word of 32 bits.
unfoldable pub push_loop : ℕ → ℕ → ℕ → Writer → Outcome Writer
push_loop zero regs o w = hang
push_loop (suc fuel) regs o w =
    let reg = get_or (get_lowest_n_regs regs (0 ∷ []) 1).1 0 0 in
    let w₁ = advance (emit w (Instr.sd reg sp (o / 32) o)) 2 in
    let rest = push_loop fuel (without_reg regs reg) (o + wordsz) w₁ in
    if regs == 0 then ok w else rest

unfoldable pub riscv_push_offset : Writer → ℕ → ℕ → Outcome Writer
riscv_push_offset w regs off = count_bits 33 regs >>= λ count.
    let offset = (count + off) * wordsz in
    assert (leb offset 0x7FF)
    >> push_loop 33 regs 0 (advance (emit w (Instr.addi sp sp (word64 - offset))) 2)

unfoldable pub riscv_push : Writer → ℕ → Outcome Writer
riscv_push w regs = riscv_push_offset w regs 0

-- The write pointer with the last offset.
unfoldable pub pop_loop : ℕ → ℕ → ℕ → Writer → Outcome (ℕ × Writer)
pop_loop zero regs o w = hang
pop_loop (suc fuel) regs o w =
    let reg = get_or (get_lowest_n_regs regs (0 ∷ []) 1).1 0 0 in
    let rest : Outcome (ℕ × Writer) = elim (riscv_create_cldsp_imm_pair o) [
      | none ↦ abort
      | some imm ↦
          pop_loop fuel (without_reg regs reg) (o + wordsz)
            (advance (emit w (Instr.c_ldsp reg imm.immhi imm.immlo)) 1)
    ] in
    if regs == 0 then ok (o, w) else rest

unfoldable pub riscv_pop : Writer → ℕ → Outcome Writer
riscv_pop w regs = pop_loop 33 regs 0 w >>= λ (o, w₁). elim (riscv_create_c_addi16sp_pair (pos o)) [
  | some imm ↦ ok (advance (emit w₁ (Instr.c_addi16sp imm.immhi imm.immlo)) 1)
  | none ↦ assert (leb o 0x7FF) >> ok (advance (emit w₁ (Instr.addi sp sp o)) 2)
]
