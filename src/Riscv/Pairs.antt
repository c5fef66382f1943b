-- ===== src/Riscv/Pairs.antt =====
-- Both immediates of branches, of 32 and of 16 bits.
use mambo.Base.{ℤ}
use mambo.Riscv.{riscv_decode_b_imm, riscv_create_b_imm_pair, riscv_create_cb_imm_pair}
use mambo.Riscv.Immediates.{Encodes, riscv_create_b_imm_pair-decode}
use mambo.Riscv.Compressed.{Decodes, riscv_create_cb_imm_pair-decode}

-- For every offset of a 32-bit branch, a pair is made exactly if the offset is even and lies in
-- [-4096, 4096), and then riscv_decode_b_imm gives the offset back, from fields of 7 and 5 bits. For
-- C.BEQZ and C.BNEZ none is made exactly if the offset is odd or out of [-256, 256), and a pair that
-- is made is read back as the offset exactly if bits 7:6 of the offset are clear.
riscv_branch_pairs :
    ((offset : ℤ) → Encodes 4096 128 32 riscv_decode_b_imm offset (riscv_create_b_imm_pair offset))
    × ((offset : ℤ) → Decodes offset (riscv_create_cb_imm_pair offset))
riscv_branch_pairs = (riscv_create_b_imm_pair-decode, riscv_create_cb_imm_pair-decode)
