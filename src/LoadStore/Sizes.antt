-- ===== src/LoadStore/Sizes.antt =====
-- `_riscv_get_ld_st_size` and `mambo_is_rvv_mem` of api/load_store.c.
use mambo.Base.{Bool, true, false, ℤ, pos, minus_one}
use mambo.LoadStore.Inst.{RiscvInst}

unfoldable pub riscv_get_ld_st_size : RiscvInst → ℤ
riscv_get_ld_st_size RiscvInst.sb = pos 1
riscv_get_ld_st_size RiscvInst.lb = pos 1
riscv_get_ld_st_size RiscvInst.lbu = pos 1
riscv_get_ld_st_size RiscvInst.sh = pos 2
riscv_get_ld_st_size RiscvInst.lh = pos 2
riscv_get_ld_st_size RiscvInst.lhu = pos 2
riscv_get_ld_st_size RiscvInst.amoswap_w = pos 4
riscv_get_ld_st_size RiscvInst.amoadd_w = pos 4
riscv_get_ld_st_size RiscvInst.amoxor_w = pos 4
riscv_get_ld_st_size RiscvInst.amoand_w = pos 4
riscv_get_ld_st_size RiscvInst.amoor_w = pos 4
riscv_get_ld_st_size RiscvInst.amomin_w = pos 4
riscv_get_ld_st_size RiscvInst.amomax_w = pos 4
riscv_get_ld_st_size RiscvInst.amominu_w = pos 4
riscv_get_ld_st_size RiscvInst.amomaxu_w = pos 4
riscv_get_ld_st_size RiscvInst.lwu = pos 4
riscv_get_ld_st_size RiscvInst.flw = pos 4
riscv_get_ld_st_size RiscvInst.lr_w = pos 4
riscv_get_ld_st_size RiscvInst.lw = pos 4
riscv_get_ld_st_size RiscvInst.fsw = pos 4
riscv_get_ld_st_size RiscvInst.sc_w = pos 4
riscv_get_ld_st_size RiscvInst.c_flwsp = pos 4
riscv_get_ld_st_size RiscvInst.c_lwsp = pos 4
riscv_get_ld_st_size RiscvInst.c_lw = pos 4
riscv_get_ld_st_size RiscvInst.sw = pos 4
riscv_get_ld_st_size RiscvInst.c_swsp = pos 4
riscv_get_ld_st_size RiscvInst.c_sw = pos 4
riscv_get_ld_st_size RiscvInst.amoswap_d = pos 8
riscv_get_ld_st_size RiscvInst.amoadd_d = pos 8
riscv_get_ld_st_size RiscvInst.amoxor_d = pos 8
riscv_get_ld_st_size RiscvInst.amoand_d = pos 8
riscv_get_ld_st_size RiscvInst.amoor_d = pos 8
riscv_get_ld_st_size RiscvInst.amomin_d = pos 8
riscv_get_ld_st_size RiscvInst.amomax_d = pos 8
riscv_get_ld_st_size RiscvInst.amominu_d = pos 8
riscv_get_ld_st_size RiscvInst.amomaxu_d = pos 8
riscv_get_ld_st_size RiscvInst.ld = pos 8
riscv_get_ld_st_size RiscvInst.lr_d = pos 8
riscv_get_ld_st_size RiscvInst.fld = pos 8
riscv_get_ld_st_size RiscvInst.sd = pos 8
riscv_get_ld_st_size RiscvInst.sc_d = pos 8
riscv_get_ld_st_size RiscvInst.fsd = pos 8
riscv_get_ld_st_size RiscvInst.c_fld = pos 8
riscv_get_ld_st_size RiscvInst.c_ld = pos 8
riscv_get_ld_st_size RiscvInst.c_fldsp = pos 8
riscv_get_ld_st_size RiscvInst.c_ldsp = pos 8
riscv_get_ld_st_size RiscvInst.c_fsd = pos 8
riscv_get_ld_st_size RiscvInst.c_sd = pos 8
riscv_get_ld_st_size RiscvInst.c_fsdsp = pos 8
riscv_get_ld_st_size RiscvInst.c_sdsp = pos 8
riscv_get_ld_st_size _ = minus_one

unfoldable pub mambo_is_rvv_mem : RiscvInst → Bool
mambo_is_rvv_mem RiscvInst.v_load_b = true
mambo_is_rvv_mem RiscvInst.v_load_h = true
mambo_is_rvv_mem RiscvInst.v_load_w = true
mambo_is_rvv_mem RiscvInst.v_load_d = true
mambo_is_rvv_mem RiscvInst.v_store_b = true
mambo_is_rvv_mem RiscvInst.v_store_h = true
mambo_is_rvv_mem RiscvInst.v_store_w = true
mambo_is_rvv_mem RiscvInst.v_store_d = true
mambo_is_rvv_mem RiscvInst.v_amo_b = true
mambo_is_rvv_mem RiscvInst.v_amo_h = true
mambo_is_rvv_mem RiscvInst.v_amo_w = true
mambo_is_rvv_mem RiscvInst.v_amo_d = true
mambo_is_rvv_mem _ = false
