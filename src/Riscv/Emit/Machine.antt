-- ===== src/Riscv/Emit/Machine.antt =====
-- What the instructions that arch/riscv/scanner_riscv.c emits do, as the RISC-V manual says for
-- RV64: the description that the emitters are held against. The fields of the branches and of JAL
-- are read by the scanner's own decoders. Memory is in doublewords.
use mambo.Base.{ℕ, ◌+◌, ◌-◌, ◌*◌, ◌/◌, ◌%◌, ◌^◌, Bool, List, [], ◌∷◌, ltb, ◌==◌, if◌then◌else◌}
use mambo.Riscv.{word64, riscv_decode_b_imm, riscv_decode_cb_offset, riscv_decode_j_imm}
use mambo.Riscv.Emit.{Instr}

pub record Cpu : Type 0 where
  pub pc : ℕ
  pub regs : ℕ → ℕ
  pub mem : ℕ → ℕ

-- x0 reads as zero.
abbrev pub read : Cpu → ℕ → ℕ
read cpu r = if r == 0 then 0 else cpu.regs r

-- A field of 12 or 32 bits as a 64-bit word.
abbrev pub sx12 : ℕ → ℕ
sx12 v = let f = v % 4096 in if ltb f 2048 then f else word64 - 4096 + f

abbrev pub sx32 : ℕ → ℕ
sx32 v = let f = v % 2 ^ 32 in if ltb f (2 ^ 31) then f else word64 - 2 ^ 32 + f

-- The offsets in the fields of C.LDSP (5, and 4:3|8:6) and C.ADDI16SP (9, and 4|6|8:7|5).
abbrev ldsp_offset : ℕ → ℕ → ℕ
ldsp_offset hi lo = hi % 2 * 32 + lo / 8 % 4 * 8 + lo % 8 * 64

abbrev addi16sp_offset : ℕ → ℕ → ℕ
addi16sp_offset hi lo =
    hi % 2 * 512 + lo / 16 % 2 * 16 + lo / 8 % 2 * 64 + lo / 2 % 4 * 128 + lo % 2 * 32

abbrev sx10 : ℕ → ℕ
sx10 v = let f = v % 1024 in if ltb f 512 then f else word64 - 1024 + f

abbrev pub write : Cpu → ℕ → ℕ → ℕ → Cpu
write cpu pc r v = record cpu { pc = pc % word64; regs = λ x. if x == r then v else cpu.regs x }

-- Whether a conditional branch is taken is left open: `taken` tells.
unfoldable pub execute : (Cpu → Instr → Bool) → ℕ → Instr → Cpu → Cpu
execute taken at (Instr.lui rd imm) cpu = write cpu (at + 4) rd (sx32 (imm % 2 ^ 20 * 4096))
execute taken at (Instr.auipc rd imm) cpu =
    write cpu (at + 4) rd ((at + sx32 (imm % 2 ^ 20 * 4096)) % word64)
execute taken at (Instr.addi rd rs imm) cpu =
    write cpu (at + 4) rd ((read cpu rs + sx12 imm) % word64)
execute taken at (Instr.addiw rd rs imm) cpu =
    write cpu (at + 4) rd (sx32 ((read cpu rs + sx12 imm) % 2 ^ 32))
execute taken at (Instr.c_slli rd hi lo) cpu =
    write cpu (at + 2) rd (read cpu rd * 2 ^ (hi % 2 * 32 + lo % 32) % word64)
execute taken at (Instr.c_beqz rs hi lo) cpu =
    let away = if taken cpu (Instr.c_beqz rs hi lo) then riscv_decode_cb_offset hi lo else 2 in
    record cpu { pc = (at + away) % word64 }
execute taken at (Instr.c_bnez rs hi lo) cpu =
    let away = if taken cpu (Instr.c_bnez rs hi lo) then riscv_decode_cb_offset hi lo else 2 in
    record cpu { pc = (at + away) % word64 }
execute taken at (Instr.branch c rs1 rs2 hi lo) cpu =
    let away = if taken cpu (Instr.branch c rs1 rs2 hi lo) then riscv_decode_b_imm hi lo else 4 in
    record cpu { pc = (at + away) % word64 }
execute taken at (Instr.jal rd imm) cpu =
    write cpu (at + riscv_decode_j_imm imm) rd ((at + 4) % word64)
execute taken at (Instr.jalr rd rs imm) cpu =
    let t = (read cpu rs + sx12 imm) % word64 in write cpu (t - t % 2) rd ((at + 4) % word64)
execute taken at (Instr.sd rs2 rs1 immhi immlo) cpu =
    let to = (read cpu rs1 + sx12 (immhi * 32 + immlo % 32)) % word64 in
    record cpu { pc = (at + 4) % word64; mem = λ a. if a == to then read cpu rs2 else cpu.mem a }
execute taken at (Instr.c_ldsp rd immhi immlo) cpu =
    let from = (read cpu 2 + ldsp_offset immhi immlo) % word64 in
    write cpu (at + 2) rd (cpu.mem from)
execute taken at (Instr.c_addi16sp immhi immlo) cpu =
    write cpu (at + 2) 2 ((read cpu 2 + sx10 (addi16sp_offset immhi immlo)) % word64)

-- The instructions run one after the other; the newest stands first.
unfoldable pub run : (Cpu → Instr → Bool) → List (ℕ × Instr) → Cpu → Cpu
run taken [] cpu = cpu
run taken ((at, instr) ∷ code) cpu = execute taken at instr (run taken code cpu)
