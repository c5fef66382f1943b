-- ===== src/LoadStore/Tests.antt =====
-- A word load and a vector load.
use mambo.Base.{◌+◌, ◌%◌, ◌≡◌, refl, Bool, true, false, [], ◌==◌, if◌then◌else◌, pos, arith}
use mambo.Base.Int.{ltb_ℤ}
use mambo.Riscv.{word64, to_word}
use mambo.LoadStore.Inst.{RiscvInst}
use mambo.LoadStore.Sizes.{riscv_get_ld_st_size, mambo_is_rvv_mem}
use mambo.LoadStore.Offsets.{c_word_offset}
use mambo.LoadStore.Access.{Fields, access, compressed_access}
use mambo.LoadStore.Kinds.{riscv_is_load_or_store}
use mambo.LoadStore.Encodings.{encoding, encoded_kind, encoded_vector, encoded_size}
use mambo.LoadStore.Agree.{is_some, load_store_tables}
use mambo.LoadStore.A64.{A64Inst, A64Fields, a64_is_load_or_store}
use mambo.LoadStore.A64Kinds.{stores_128_bits, ldr_str_kinds}
use mambo.LoadStore.Emit.{Context, add_count, riscv_calc_ld_st_addr}
use mambo.LoadStore.Run.{Hart, read, run}
use mambo.LoadStore.Addresses.{Reach, pushed, riscv_calc_ld_st_addr_lem}

-- Offset 8 from x10, in a compressed encoding.
abbrev word_fields : Fields
word_fields = record { rs1 = 2; uimmhi = 1; uimmlo = 0; uimm = 0; imm = 0 }

abbrev word_load : Context
word_load = record { inst = RiscvInst.c_lw; word = 0; plugin_pushed_reg_count = 2; emitted = [] }

abbrev vector_load : Context
vector_load = record {
  inst = RiscvInst.v_load_w;
  word = 0x0200_6007;
  plugin_pushed_reg_count = 0;
  emitted = [];
}

-- Four elements, and vector registers of sixteen bytes.
abbrev hart : Hart
hart = record {
  regs = λ r. 100;
  csr = λ number. if number == 0xC20 then 4 else if number == 0xC22 then 16 else 0;
}

load_store_tables_example :
    (riscv_is_load_or_store RiscvInst.c_lw ≡ encoded_kind (encoding RiscvInst.c_lw))
    × (riscv_get_ld_st_size RiscvInst.c_lw ≡ encoded_size (encoding RiscvInst.c_lw))
    × (mambo_is_rvv_mem RiscvInst.c_lw ≡ encoded_vector (encoding RiscvInst.c_lw))
    × (is_some (access word_fields RiscvInst.c_lw) ≡ true)
load_store_tables_example = load_store_tables word_fields RiscvInst.c_lw

riscv_calc_ld_st_addr_lem_example :
    let (result, after) = riscv_calc_ld_st_addr (λ _. word_fields) word_load 5 in
    let sum = add_count (pos 8) (pushed word_load 10) in
    (result ≡ pos 0)
    × (Reach sum
        → read (run after.emitted hart) 5
          ≡ (read (run word_load.emitted hart) 10 + to_word sum) % word64)
    × (ltb_ℤ (pos 0x7FF) sum ≡ true → after ≡ word_load)
unfolding access compressed_access c_word_offset run
riscv_calc_ld_st_addr_lem_example =
    riscv_calc_ld_st_addr_lem (λ _. word_fields) word_load hart 5 10 (pos 8) refl
      (λ e. omega (arith, e)) (omega arith)

-- `str q0, [x0]`.
abbrev q_store : A64Fields
q_store = record { word = 0x3D80_0000; sz = 0; v = 1; opc = 2; o1 = 0; q = 0; r = 0; op = 0 }

-- Loads nothing, and stores.
abbrev only_stores : Bool × Bool
only_stores = (false, true)

ldr_str_kinds_example :
    (stores_128_bits q_store ≡ false
      → a64_is_load_or_store A64Inst.ldr_str_unsigned_immed q_store ≡ only_stores)
    × (stores_128_bits q_store ≡ true
        → (a64_is_load_or_store A64Inst.ldr_str_unsigned_immed q_store ≡ (true, false))
          × (only_stores ≡ (false, true)))
ldr_str_kinds_example =
    ldr_str_kinds A64Inst.ldr_str_unsigned_immed q_store only_stores refl
      (record { opc_bits = refl; v_bit = omega arith; sz_bits = omega arith }) refl
