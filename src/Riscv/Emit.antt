-- ===== src/Riscv/Emit.antt =====
-- The emitters of arch/riscv/scanner_riscv.c. The encoders of pie are generated by the build: a call
-- of one is recorded with its arguments and the address that it writes to, the newest call first. An
-- encoder does not move the write pointer. Addresses are in bytes.
pub mod Machine
pub mod Constants
pub mod Jumps
pub mod Push
use mambo.Base.{
  ℕ, zero, suc, ◌+◌, ◌-◌, ◌*◌, ◌/◌, ◌%◌, ◌^◌, Bool, true, false, not, ◌&&◌, ◌||◌, List, ◌∷◌, Option,
  none, some, ltb, leb, ◌==◌, if◌then◌else◌, ℤ, pos, negsuc, Outcome, ok, hang, ◌>>=◌,
}
use mambo.Base.Int.{ltb_ℤ}
use mambo.Riscv.{
  word64, to_word, to_signed, to_int, extr, sign_extend, masked, outside, ImmPair,
  riscv_create_cb_imm_pair, riscv_create_b_imm_pair,
}

pub data Instr : Type 0 where
  lui : ℕ → ℕ → Instr
  auipc : ℕ → ℕ → Instr
  addi : ℕ → ℕ → ℕ → Instr
  addiw : ℕ → ℕ → ℕ → Instr
  c_slli : ℕ → ℕ → ℕ → Instr
  c_beqz : ℕ → ℕ → ℕ → Instr
  c_bnez : ℕ → ℕ → ℕ → Instr
  branch : ℕ → ℕ → ℕ → ℕ → ℕ → Instr
  jal : ℕ → ℕ → Instr
  jalr : ℕ → ℕ → ℕ → Instr
  sd : ℕ → ℕ → ℕ → ℕ → Instr
  c_ldsp : ℕ → ℕ → ℕ → Instr
  c_addi16sp : ℕ → ℕ → Instr

pub record Writer : Type 0 where
  pub write_p : ℕ
  pub code : List (ℕ × Instr)

-- A call of an encoder, and `*o_write_p += n`.
abbrev pub emit : Writer → Instr → Writer
emit w instr = record w { code = (w.write_p, instr) ∷ w.code }

abbrev pub advance : Writer → ℕ → Writer
advance w halfwords = record w { write_p = (w.write_p + 2 * halfwords) % word64 }

-- The signed distance from the write pointer.
abbrev pub offset_to : Writer → ℕ → ℕ
offset_to w target = (target + (word64 - w.write_p)) % word64

pub riscv_copy_to_reg_32bits : Writer → ℕ → ℕ → Writer
riscv_copy_to_reg_32bits w reg value =
    let low12 = sign_extend 12 (value % 4096) in
    let hi20 = (value + 0x800) % 2 ^ 32 / 4096 in
    let w1 = if not (hi20 == 0) then advance (emit w (Instr.lui reg hi20)) 2 else w in
    if not (low12 == 0) || (hi20 == 0)
    then advance (emit w1 (Instr.addiw reg (if not (hi20 == 0) then reg else 0) low12)) 2
    else w1

-- `INT_MIN <= value && value <= INT_MAX`
abbrev pub fits_int : ℕ → Bool
fits_int value = ltb value (2 ^ 31) || leb (word64 - 2 ^ 31) value

-- `ffsll` is `__builtin_ffsll`; the fuel bounds the depth of the recursion.
pub riscv_copy_to_reg_64bits : (ℕ → ℕ) → ℕ → Writer → ℕ → ℕ → Outcome Writer
riscv_copy_to_reg_64bits ffsll zero w reg value = hang
riscv_copy_to_reg_64bits ffsll (suc fuel) w reg value =
    let lo12 = sign_extend 12 (value % 4096) in
    let hi52 = (value + 0x800) % word64 / 4096 in
    let shift = 12 + ffsll hi52 - 1 in
    let rest = riscv_copy_to_reg_64bits ffsll fuel w reg (hi52 / 2 ^ (shift - 12)) >>= λ w1.
    let w2 = advance (emit w1 (Instr.c_slli reg (shift / 32) (shift % 32))) 1 in
    ok (if not (lo12 == 0) then advance (emit w2 (Instr.addi reg reg lo12)) 2 else w2) in
    if fits_int value then ok (riscv_copy_to_reg_32bits w reg (value % 2 ^ 32)) else rest

-- 64-bit words need at most four levels.
pub riscv_copy_to_reg : (ℕ → ℕ) → Writer → ℕ → ℕ → Outcome Writer
riscv_copy_to_reg ffsll w reg value = riscv_copy_to_reg_64bits ffsll 4 w reg value

-- The functions that return an `int` give none for -1. `*o_write_p++` moves the local pointer only.
unfoldable riscv_c_bcond_helper : Writer → ℕ → ℕ → Bool → Option Writer
riscv_c_bcond_helper w target rs1 eq =
    elim (riscv_create_cb_imm_pair (to_int (offset_to w target))) [
      | none ↦ none
      | some imm_pair ↦ some (
          emit w (
            if eq
            then Instr.c_beqz rs1 imm_pair.immhi imm_pair.immlo
            else Instr.c_bnez rs1 imm_pair.immhi imm_pair.immlo))
    ]

unfoldable riscv_c_beqz_helper : Writer → ℕ → ℕ → Option Writer
riscv_c_beqz_helper w target rs1 = riscv_c_bcond_helper w target rs1 true

unfoldable riscv_c_bnez_helper : Writer → ℕ → ℕ → Option Writer
riscv_c_bnez_helper w target rs1 = riscv_c_bcond_helper w target rs1 false

pub riscv_branch_helper : Writer → ℕ → ℕ → ℕ → ℕ → Option Writer
riscv_branch_helper w target rs1 rs2 condition =
    elim (riscv_create_b_imm_pair (to_int (offset_to w target))) [
      | none ↦ none
      | some imm_pair ↦
          some (advance (emit w (Instr.branch condition rs1 rs2 imm_pair.immhi imm_pair.immlo)) 2)
    ]

-- The shift of the signed sum is arithmetic; the encoder takes its low 20 bits.
unfoldable pub riscv_jalr_helper : Writer → ℕ → ℕ → ℕ → Option Writer
riscv_jalr_helper w target rd rs1 =
    let offset = offset_to w target in
    if not (fits_int offset)
    then none
    else let w1 =
        advance (emit w (Instr.auipc rs1 ((offset + 0x800) % word64 / 4096 % 2 ^ 20))) 2 in
      some (advance (emit w1 (Instr.jalr rd rs1 (offset % 4096))) 2)

unfoldable pub riscv_jal_helper : Writer → ℕ → ℕ → Option Writer
riscv_jal_helper w target rd =
    let offset = offset_to w target in
    if masked offset 1 || outside (1024 * 1024) (to_signed offset)
    then none
    else let imm =
        extr 10 1 offset * 2 ^ 9
        + extr 1 11 offset * 2 ^ 8
        + extr 8 12 offset
        + extr 1 20 offset * 2 ^ 19 in
      some (advance (emit w (Instr.jal rd imm)) 2)
