-- ===== src/LoadStore/Access.antt =====
-- `_riscv_calc_ld_st_addr` of api/load_store.c: the base register and the offset of an access.
use mambo.Base.{ℕ, ◌+◌, Option, none, some, ℤ, pos}
use mambo.Riscv.{to_int}
use mambo.LoadStore.Inst.{RiscvInst}
use mambo.LoadStore.Offsets.{
  c_word_offset, c_doubleword_offset, c_spword_load_offset, c_spdoubleword_load_offset,
  c_spword_store_offset, c_spdoubleword_store_offset, store_offset, load_offset,
}

-- What the generated field decoders give for the instruction at hand.
pub record Fields : Type 0 where
  pub rs1 : ℕ
  pub uimmhi : ℕ
  pub uimmlo : ℕ
  pub uimm : ℕ
  pub imm : ℕ

abbrev pub sp : ℕ
sp = 2

abbrev pub s0 : ℕ
s0 = 8

-- The compressed instructions; the 3-bit register fields stand for x8 to x15.
unfoldable pub compressed_access : Fields → RiscvInst → Option (ℕ × ℤ)
compressed_access f RiscvInst.c_sw = some (f.rs1 + s0, pos (c_word_offset f.uimmhi f.uimmlo))
compressed_access f RiscvInst.c_lw = some (f.rs1 + s0, pos (c_word_offset f.uimmhi f.uimmlo))
compressed_access f RiscvInst.c_fsd = some (f.rs1 + s0, pos (c_doubleword_offset f.uimmhi f.uimmlo))
compressed_access f RiscvInst.c_fld = some (f.rs1 + s0, pos (c_doubleword_offset f.uimmhi f.uimmlo))
compressed_access f RiscvInst.c_sd = some (f.rs1 + s0, pos (c_doubleword_offset f.uimmhi f.uimmlo))
compressed_access f RiscvInst.c_ld = some (f.rs1 + s0, pos (c_doubleword_offset f.uimmhi f.uimmlo))
compressed_access f RiscvInst.c_lwsp = some (sp, pos (c_spword_load_offset f.uimmhi f.uimmlo))
compressed_access f RiscvInst.c_flwsp = some (sp, pos (c_spword_load_offset f.uimmhi f.uimmlo))
compressed_access f RiscvInst.c_swsp = some (sp, pos (c_spword_store_offset f.uimm))
compressed_access f RiscvInst.c_ldsp = some (sp, pos (c_spdoubleword_load_offset f.uimmhi f.uimmlo))
compressed_access f RiscvInst.c_fldsp =
    some (sp, pos (c_spdoubleword_load_offset f.uimmhi f.uimmlo))
compressed_access f RiscvInst.c_sdsp = some (sp, pos (c_spdoubleword_store_offset f.uimm))
compressed_access f RiscvInst.c_fsdsp = some (sp, pos (c_spdoubleword_store_offset f.uimm))
compressed_access f _ = none

-- The stores.
unfoldable pub store_access : Fields → RiscvInst → Option (ℕ × ℤ)
store_access f RiscvInst.sb = some (f.rs1, to_int (store_offset f.uimmhi f.uimmlo))
store_access f RiscvInst.sh = some (f.rs1, to_int (store_offset f.uimmhi f.uimmlo))
store_access f RiscvInst.sw = some (f.rs1, to_int (store_offset f.uimmhi f.uimmlo))
store_access f RiscvInst.sd = some (f.rs1, to_int (store_offset f.uimmhi f.uimmlo))
store_access f RiscvInst.sc_w = some (f.rs1, pos 0)
store_access f RiscvInst.sc_d = some (f.rs1, pos 0)
store_access f RiscvInst.fsw = some (f.rs1, to_int (store_offset f.uimmhi f.uimmlo))
store_access f RiscvInst.fsd = some (f.rs1, to_int (store_offset f.uimmhi f.uimmlo))
store_access f _ = none

-- The vector instructions.
unfoldable pub vector_access : Fields → RiscvInst → Option (ℕ × ℤ)
vector_access f RiscvInst.v_load_b = some (f.rs1, pos 0)
vector_access f RiscvInst.v_load_h = some (f.rs1, pos 0)
vector_access f RiscvInst.v_load_w = some (f.rs1, pos 0)
vector_access f RiscvInst.v_load_d = some (f.rs1, pos 0)
vector_access f RiscvInst.v_store_b = some (f.rs1, pos 0)
vector_access f RiscvInst.v_store_h = some (f.rs1, pos 0)
vector_access f RiscvInst.v_store_w = some (f.rs1, pos 0)
vector_access f RiscvInst.v_store_d = some (f.rs1, pos 0)
vector_access f RiscvInst.v_amo_b = some (f.rs1, pos 0)
vector_access f RiscvInst.v_amo_h = some (f.rs1, pos 0)
vector_access f RiscvInst.v_amo_w = some (f.rs1, pos 0)
vector_access f RiscvInst.v_amo_d = some (f.rs1, pos 0)
vector_access f _ = none

-- The loads.
unfoldable pub load_access : Fields → RiscvInst → Option (ℕ × ℤ)
load_access f RiscvInst.lb = some (f.rs1, to_int (load_offset f.imm))
load_access f RiscvInst.lh = some (f.rs1, to_int (load_offset f.imm))
load_access f RiscvInst.lw = some (f.rs1, to_int (load_offset f.imm))
load_access f RiscvInst.ld = some (f.rs1, to_int (load_offset f.imm))
load_access f RiscvInst.lr_w = some (f.rs1, pos 0)
load_access f RiscvInst.lr_d = some (f.rs1, pos 0)
load_access f RiscvInst.flw = some (f.rs1, to_int (load_offset f.imm))
load_access f RiscvInst.fld = some (f.rs1, to_int (load_offset f.imm))
load_access f RiscvInst.lbu = some (f.rs1, to_int (load_offset f.imm))
load_access f RiscvInst.lhu = some (f.rs1, to_int (load_offset f.imm))
load_access f RiscvInst.lwu = some (f.rs1, to_int (load_offset f.imm))
load_access f _ = none

-- The atomic memory operations.
unfoldable pub amo_access : Fields → RiscvInst → Option (ℕ × ℤ)
amo_access f RiscvInst.amoswap_w = some (f.rs1, pos 0)
amo_access f RiscvInst.amoadd_w = some (f.rs1, pos 0)
amo_access f RiscvInst.amoxor_w = some (f.rs1, pos 0)
amo_access f RiscvInst.amoand_w = some (f.rs1, pos 0)
amo_access f RiscvInst.amoor_w = some (f.rs1, pos 0)
amo_access f RiscvInst.amomin_w = some (f.rs1, pos 0)
amo_access f RiscvInst.amomax_w = some (f.rs1, pos 0)
amo_access f RiscvInst.amominu_w = some (f.rs1, pos 0)
amo_access f RiscvInst.amomaxu_w = some (f.rs1, pos 0)
amo_access f RiscvInst.amoswap_d = some (f.rs1, pos 0)
amo_access f RiscvInst.amoadd_d = some (f.rs1, pos 0)
amo_access f RiscvInst.amoxor_d = some (f.rs1, pos 0)
amo_access f RiscvInst.amoand_d = some (f.rs1, pos 0)
amo_access f RiscvInst.amoor_d = some (f.rs1, pos 0)
amo_access f RiscvInst.amomin_d = some (f.rs1, pos 0)
amo_access f RiscvInst.amomax_d = some (f.rs1, pos 0)
amo_access f RiscvInst.amominu_d = some (f.rs1, pos 0)
amo_access f RiscvInst.amomaxu_d = some (f.rs1, pos 0)
amo_access f _ = none

-- The whole switch; the groups have no instruction in common, and `default` is the rest.
unfoldable pub access : Fields → RiscvInst → Option (ℕ × ℤ)
access f inst = elim (compressed_access f inst) [
  | some a ↦ some a
  | none ↦ elim (store_access f inst) [
    | some a ↦ some a
    | none ↦ elim (vector_access f inst) [
      | some a ↦ some a
      | none ↦ elim (load_access f inst) [ some a ↦ some a | none ↦ amo_access f inst ]
    ]
  ]
]
