-- ===== src/LoadStore/Run.antt =====
-- What the instructions that api/load_store.c emits do, as the RISC-V manual says for RV64.
use mambo.Base.{ℕ, ◌+◌, ◌-◌, ◌*◌, ◌/◌, ◌%◌, ◌^◌, List, [], ◌∷◌, ◌==◌, if◌then◌else◌}
use Prim.Native.Nat.{bit_and, bit_or}
use mambo.Riscv.{word64}
use mambo.Riscv.Emit.Machine.{sx12}
use mambo.LoadStore.Emit.{Emitted}

pub record Hart : Type 0 where
  pub regs : ℕ → ℕ
  pub csr : ℕ → ℕ

-- x0 reads as zero.
abbrev pub read : Hart → ℕ → ℕ
read h r = if r == 0 then 0 else h.regs r

abbrev pub write : Hart → ℕ → ℕ → Hart
write h r v = record h { regs = λ x. if x == r then v % word64 else h.regs x }

unfoldable pub execute : Emitted → Hart → Hart
execute (Emitted.addi rd rs imm) h = write h rd (read h rs + sx12 imm)
execute (Emitted.andi rd rs imm) h = write h rd (bit_and (read h rs) (sx12 imm))
execute (Emitted.slli rd rs shift) h = write h rd (read h rs * 2 ^ (shift % 64))
execute (Emitted.srli rd rs shift) h = write h rd (read h rs / 2 ^ (shift % 64))
execute (Emitted.sll rd rs1 rs2) h = write h rd (read h rs1 * 2 ^ (read h rs2 % 64))
execute (Emitted.sub rd rs1 rs2) h = write h rd (read h rs1 + word64 - read h rs2)
execute (Emitted.csrrs rd number rs) h =
    let set = bit_or (h.csr number) (read h rs) in
    let updated : Hart =
      if rs == 0 then h else record h { csr = λ x. if x == number then set else h.csr x } in
    write updated rd (h.csr number)

-- The newest instruction stands first.
unfoldable pub run : List Emitted → Hart → Hart
run [] h = h
run (e ∷ es) h = execute e (run es h)
