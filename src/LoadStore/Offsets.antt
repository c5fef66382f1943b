-- ===== src/LoadStore/Offsets.antt =====
-- The offsets of RISC-V loads and stores in api/load_store.c.
use mambo.Base.{ℕ, ◌*◌, ◌%◌, ◌^◌}
use Prim.Native.Nat.{bit_and, bit_or}
use mambo.Riscv.{sign_extend}

unfoldable pub c_word_offset : ℕ → ℕ → ℕ
c_word_offset uimmhi uimmlo =
    bit_or (bit_or (uimmhi * 2 ^ 3) (bit_and uimmlo 1 * 2 ^ 6)) (bit_and uimmlo 2 * 2 ^ 1)

unfoldable pub c_doubleword_offset : ℕ → ℕ → ℕ
c_doubleword_offset uimmhi uimmlo = bit_or (uimmhi * 2 ^ 3) (uimmlo * 2 ^ 6)

unfoldable pub c_spword_load_offset : ℕ → ℕ → ℕ
c_spword_load_offset uimmhi uimmlo =
    bit_or (bit_or (uimmhi * 2 ^ 5) (bit_and uimmlo 3 * 2 ^ 6)) (bit_and uimmlo 0x1C)

unfoldable pub c_spdoubleword_load_offset : ℕ → ℕ → ℕ
c_spdoubleword_load_offset uimmhi uimmlo =
    bit_or (bit_or (uimmhi * 2 ^ 5) (bit_and uimmlo 7 * 2 ^ 6)) (bit_and uimmlo 0x18)

unfoldable pub c_spword_store_offset : ℕ → ℕ
c_spword_store_offset uimm = bit_or (bit_and uimm 3 * 2 ^ 6) (bit_and uimm 0x1C)

unfoldable pub c_spdoubleword_store_offset : ℕ → ℕ
c_spdoubleword_store_offset uimm = bit_or (bit_and uimm 7 * 2 ^ 6) (bit_and uimm 0x18)

-- The result of `sign_extend64` is cut to an `unsigned int`.
unfoldable pub store_offset : ℕ → ℕ → ℕ
store_offset immhi immlo = sign_extend 12 (bit_or (immhi * 2 ^ 5) immlo) % 2 ^ 32

unfoldable pub load_offset : ℕ → ℕ
load_offset imm = sign_extend 12 imm % 2 ^ 32
