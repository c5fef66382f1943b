-- ===== src/LoadStore/Encodings.antt =====
-- How the manual encodes the accesses of memory, and what the encoding says of them.
use mambo.Base.{
  ℕ, ◌%◌, ◌/◌, ◌^◌, Bool, true, false, ◌&&◌, ◌||◌, ◌==◌, leb, if◌then◌else◌, ℤ, pos, minus_one,
}
use mambo.LoadStore.Inst.{RiscvInst}

-- Of 32 bits: the opcode, funct3 and funct5, which counts for atomic accesses only. Of 16 bits: funct3,
-- and whether it has the meaning of a 64-bit architecture.
pub data Encoding : Type 0 where
  full : ℕ → ℕ → ℕ → Encoding
  short : ℕ → Bool → Encoding
  unlisted : Encoding

-- The tables of the manual; the vector accesses stand for the first of their group.
abbrev pub encoding : RiscvInst → Encoding
encoding RiscvInst.c_fsd = Encoding.short 5 true
encoding RiscvInst.c_sw = Encoding.short 6 true
encoding RiscvInst.c_sd = Encoding.short 7 true
encoding RiscvInst.c_fsdsp = Encoding.short 5 true
encoding RiscvInst.c_swsp = Encoding.short 6 true
encoding RiscvInst.c_sdsp = Encoding.short 7 true
encoding RiscvInst.sb = Encoding.full 0x23 0 0
encoding RiscvInst.sh = Encoding.full 0x23 1 0
encoding RiscvInst.sw = Encoding.full 0x23 2 0
encoding RiscvInst.sd = Encoding.full 0x23 3 0
encoding RiscvInst.sc_w = Encoding.full 0x2f 2 3
encoding RiscvInst.sc_d = Encoding.full 0x2f 3 3
encoding RiscvInst.fsw = Encoding.full 0x27 2 0
encoding RiscvInst.fsd = Encoding.full 0x27 3 0
encoding RiscvInst.v_store_b = Encoding.full 0x27 0 0
encoding RiscvInst.v_store_h = Encoding.full 0x27 5 0
encoding RiscvInst.v_store_w = Encoding.full 0x27 6 0
encoding RiscvInst.v_store_d = Encoding.full 0x27 7 0
encoding RiscvInst.c_fld = Encoding.short 1 true
encoding RiscvInst.c_lw = Encoding.short 2 true
encoding RiscvInst.c_ld = Encoding.short 3 true
encoding RiscvInst.c_fldsp = Encoding.short 1 true
encoding RiscvInst.c_flwsp = Encoding.short 3 false
encoding RiscvInst.c_lwsp = Encoding.short 2 true
encoding RiscvInst.c_ldsp = Encoding.short 3 true
encoding RiscvInst.lb = Encoding.full 0x03 0 0
encoding RiscvInst.lh = Encoding.full 0x03 1 0
encoding RiscvInst.lw = Encoding.full 0x03 2 0
encoding RiscvInst.ld = Encoding.full 0x03 3 0
encoding RiscvInst.lr_w = Encoding.full 0x2f 2 2
encoding RiscvInst.lr_d = Encoding.full 0x2f 3 2
encoding RiscvInst.flw = Encoding.full 0x07 2 0
encoding RiscvInst.fld = Encoding.full 0x07 3 0
encoding RiscvInst.lbu = Encoding.full 0x03 4 0
encoding RiscvInst.lhu = Encoding.full 0x03 5 0
encoding RiscvInst.lwu = Encoding.full 0x03 6 0
encoding RiscvInst.v_load_b = Encoding.full 0x07 0 0
encoding RiscvInst.v_load_h = Encoding.full 0x07 5 0
encoding RiscvInst.v_load_w = Encoding.full 0x07 6 0
encoding RiscvInst.v_load_d = Encoding.full 0x07 7 0
encoding RiscvInst.amoswap_w = Encoding.full 0x2f 2 1
encoding RiscvInst.amoadd_w = Encoding.full 0x2f 2 0
encoding RiscvInst.amoxor_w = Encoding.full 0x2f 2 4
encoding RiscvInst.amoand_w = Encoding.full 0x2f 2 12
encoding RiscvInst.amoor_w = Encoding.full 0x2f 2 8
encoding RiscvInst.amomin_w = Encoding.full 0x2f 2 16
encoding RiscvInst.amomax_w = Encoding.full 0x2f 2 20
encoding RiscvInst.amominu_w = Encoding.full 0x2f 2 24
encoding RiscvInst.amomaxu_w = Encoding.full 0x2f 2 28
encoding RiscvInst.amoswap_d = Encoding.full 0x2f 3 1
encoding RiscvInst.amoadd_d = Encoding.full 0x2f 3 0
encoding RiscvInst.amoxor_d = Encoding.full 0x2f 3 4
encoding RiscvInst.amoand_d = Encoding.full 0x2f 3 12
encoding RiscvInst.amoor_d = Encoding.full 0x2f 3 8
encoding RiscvInst.amomin_d = Encoding.full 0x2f 3 16
encoding RiscvInst.amomax_d = Encoding.full 0x2f 3 20
encoding RiscvInst.amominu_d = Encoding.full 0x2f 3 24
encoding RiscvInst.amomaxu_d = Encoding.full 0x2f 3 28
encoding RiscvInst.v_amo_b = Encoding.full 0x2f 0 0
encoding RiscvInst.v_amo_h = Encoding.full 0x2f 5 0
encoding RiscvInst.v_amo_w = Encoding.full 0x2f 6 0
encoding RiscvInst.v_amo_d = Encoding.full 0x2f 7 0
encoding _ = Encoding.unlisted

abbrev is_atomic : ℕ → Bool
is_atomic opcode = opcode == 0x2f

-- Bit 5 of the opcode, and bit 2 of a short funct3, tell a store from a load; of the atomic accesses,
-- LR is funct5 2 and SC is 3, and the others do both.
abbrev pub encoded_kind : Encoding → Bool × Bool
encoded_kind (Encoding.full opcode funct3 funct5) =
    if is_atomic opcode
    then (if funct5 == 2
        then (true, false)
        else if funct5 == 3
        then (false, true)
        else (true, true))
    else if opcode / 32 % 2 == 1
    then (false, true)
    else (true, false)
encoded_kind (Encoding.short funct3 wide) = if leb 4 funct3 then (false, true) else (true, false)
encoded_kind Encoding.unlisted = (false, false)

-- Under the opcodes of floating-point and atomic accesses, the widths 0, 5, 6 and 7 are vectors.
abbrev pub encoded_vector : Encoding → Bool
encoded_vector (Encoding.full opcode funct3 funct5) =
    (is_atomic opcode || (opcode % 32 == 7)) && ((funct3 == 0) || leb 5 funct3)
encoded_vector _ = false

-- The low bits of a funct3 of 32 bits are the logarithm of the size. A short access has eight bytes,
-- but for funct3 2 and 6, and for funct3 3 where that is C.FLWSP.
abbrev pub encoded_size : Encoding → ℤ
encoded_size (Encoding.full opcode funct3 funct5) =
    if encoded_vector (Encoding.full opcode funct3 funct5)
    then minus_one
    else pos (2 ^ (funct3 % 4))
encoded_size (Encoding.short funct3 wide) =
    if funct3 % 4 == 2 then pos 4 else if wide then pos 8 else pos 4
encoded_size Encoding.unlisted = minus_one
