-- ===== src/LoadStore/Inst.antt =====
-- The RISC-V instructions that api/load_store.c names.
use mambo.Base.{ℕ}

-- The numbers of the decoder that the build generates; `other` stands for all that the file does not
-- name, -1 among them.
pub data RiscvInst : Type 0 where
  c_sd : RiscvInst
  c_fsdsp : RiscvInst
  c_fsd : RiscvInst
  c_sw : RiscvInst
  c_swsp : RiscvInst
  c_sdsp : RiscvInst
  sb : RiscvInst
  sh : RiscvInst
  sw : RiscvInst
  sd : RiscvInst
  sc_w : RiscvInst
  sc_d : RiscvInst
  fsw : RiscvInst
  fsd : RiscvInst
  v_store_b : RiscvInst
  v_store_h : RiscvInst
  v_store_w : RiscvInst
  v_store_d : RiscvInst
  c_fld : RiscvInst
  c_lw : RiscvInst
  c_ld : RiscvInst
  c_fldsp : RiscvInst
  c_flwsp : RiscvInst
  c_lwsp : RiscvInst
  c_ldsp : RiscvInst
  lb : RiscvInst
  lh : RiscvInst
  lw : RiscvInst
  ld : RiscvInst
  lr_w : RiscvInst
  lr_d : RiscvInst
  flw : RiscvInst
  fld : RiscvInst
  lbu : RiscvInst
  lhu : RiscvInst
  lwu : RiscvInst
  v_load_b : RiscvInst
  v_load_h : RiscvInst
  v_load_w : RiscvInst
  v_load_d : RiscvInst
  amoswap_w : RiscvInst
  amoadd_w : RiscvInst
  amoxor_w : RiscvInst
  amoand_w : RiscvInst
  amoor_w : RiscvInst
  amomin_w : RiscvInst
  amomax_w : RiscvInst
  amominu_w : RiscvInst
  amomaxu_w : RiscvInst
  amoswap_d : RiscvInst
  amoadd_d : RiscvInst
  amoxor_d : RiscvInst
  amoand_d : RiscvInst
  amoor_d : RiscvInst
  amomin_d : RiscvInst
  amomax_d : RiscvInst
  amominu_d : RiscvInst
  amomaxu_d : RiscvInst
  v_amo_b : RiscvInst
  v_amo_h : RiscvInst
  v_amo_w : RiscvInst
  v_amo_d : RiscvInst
  other : ℕ → RiscvInst
