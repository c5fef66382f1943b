-- ===== src/LoadStore/Kinds.antt =====
-- `_riscv_is_load_or_store` of api/load_store.c.
use mambo.Base.{Bool, true, false}
use mambo.LoadStore.Inst.{RiscvInst}

-- What the function leaves in `*is_load` and `*is_store`.
unfoldable pub riscv_is_load_or_store : RiscvInst → Bool × Bool
riscv_is_load_or_store RiscvInst.c_fsd = (false, true)
riscv_is_load_or_store RiscvInst.c_sw = (false, true)
riscv_is_load_or_store RiscvInst.c_sd = (false, true)
riscv_is_load_or_store RiscvInst.c_fsdsp = (false, true)
riscv_is_load_or_store RiscvInst.c_swsp = (false, true)
riscv_is_load_or_store RiscvInst.c_sdsp = (false, true)
riscv_is_load_or_store RiscvInst.sb = (false, true)
riscv_is_load_or_store RiscvInst.sh = (false, true)
riscv_is_load_or_store RiscvInst.sw = (false, true)
riscv_is_load_or_store RiscvInst.sd = (false, true)
riscv_is_load_or_store RiscvInst.sc_w = (false, true)
riscv_is_load_or_store RiscvInst.sc_d = (false, true)
riscv_is_load_or_store RiscvInst.fsw = (false, true)
riscv_is_load_or_store RiscvInst.fsd = (false, true)
riscv_is_load_or_store RiscvInst.v_store_b = (false, true)
riscv_is_load_or_store RiscvInst.v_store_h = (false, true)
riscv_is_load_or_store RiscvInst.v_store_w = (false, true)
riscv_is_load_or_store RiscvInst.v_store_d = (false, true)
riscv_is_load_or_store RiscvInst.c_fld = (true, false)
riscv_is_load_or_store RiscvInst.c_lw = (true, false)
riscv_is_load_or_store RiscvInst.c_ld = (true, false)
riscv_is_load_or_store RiscvInst.c_fldsp = (true, false)
riscv_is_load_or_store RiscvInst.c_flwsp = (true, false)
riscv_is_load_or_store RiscvInst.c_lwsp = (true, false)
riscv_is_load_or_store RiscvInst.c_ldsp = (true, false)
riscv_is_load_or_store RiscvInst.lb = (true, false)
riscv_is_load_or_store RiscvInst.lh = (true, false)
riscv_is_load_or_store RiscvInst.lw = (true, false)
riscv_is_load_or_store RiscvInst.ld = (true, false)
riscv_is_load_or_store RiscvInst.lr_w = (true, false)
riscv_is_load_or_store RiscvInst.lr_d = (true, false)
riscv_is_load_or_store RiscvInst.flw = (true, false)
riscv_is_load_or_store RiscvInst.fld = (true, false)
riscv_is_load_or_store RiscvInst.lbu = (true, false)
riscv_is_load_or_store RiscvInst.lhu = (true, false)
riscv_is_load_or_store RiscvInst.lwu = (true, false)
riscv_is_load_or_store RiscvInst.v_load_b = (true, false)
riscv_is_load_or_store RiscvInst.v_load_h = (true, false)
riscv_is_load_or_store RiscvInst.v_load_w = (true, false)
riscv_is_load_or_store RiscvInst.v_load_d = (true, false)
riscv_is_load_or_store RiscvInst.amoswap_w = (true, true)
riscv_is_load_or_store RiscvInst.amoadd_w = (true, true)
riscv_is_load_or_store RiscvInst.amoxor_w = (true, true)
riscv_is_load_or_store RiscvInst.amoand_w = (true, true)
riscv_is_load_or_store RiscvInst.amoor_w = (true, true)
riscv_is_load_or_store RiscvInst.amomin_w = (true, true)
riscv_is_load_or_store RiscvInst.amomax_w = (true, true)
riscv_is_load_or_store RiscvInst.amominu_w = (true, true)
riscv_is_load_or_store RiscvInst.amomaxu_w = (true, true)
riscv_is_load_or_store RiscvInst.amoswap_d = (true, true)
riscv_is_load_or_store RiscvInst.amoadd_d = (true, true)
riscv_is_load_or_store RiscvInst.amoxor_d = (true, true)
riscv_is_load_or_store RiscvInst.amoand_d = (true, true)
riscv_is_load_or_store RiscvInst.amoor_d = (true, true)
riscv_is_load_or_store RiscvInst.amomin_d = (true, true)
riscv_is_load_or_store RiscvInst.amomax_d = (true, true)
riscv_is_load_or_store RiscvInst.amominu_d = (true, true)
riscv_is_load_or_store RiscvInst.amomaxu_d = (true, true)
riscv_is_load_or_store RiscvInst.v_amo_b = (true, true)
riscv_is_load_or_store RiscvInst.v_amo_h = (true, true)
riscv_is_load_or_store RiscvInst.v_amo_w = (true, true)
riscv_is_load_or_store RiscvInst.v_amo_d = (true, true)
riscv_is_load_or_store _ = (false, false)
