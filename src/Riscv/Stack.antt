-- ===== src/Riscv/Stack.antt =====
-- The immediates of C.LWSP, C.LDSP and C.ADDI16SP in arch/riscv/scanner_riscv.c, against the layouts
-- that the comments of the encoders give for the fields.
use mambo.Base.{
  ℕ, ◌+◌, ◌*◌, ◌/◌, ◌%◌, ◌<◌, ◌≡◌, ◌||◌, arith, ltb, inl, inr, Bool-cases, Option, none, some, ℤ,
  pos, negsuc,
}
use mambo.Base.Bits.{bit_and-mask}
use mambo.Riscv.{
  to_word, masked, outside, ImmPair, riscv_create_clwsp_imm_pair, riscv_create_cldsp_imm_pair,
  riscv_create_c_addi16sp_pair,
}
use mambo.Riscv.Words.{extr_lem}

-- A pair stands for an offset in [0, limit) that is a multiple of n; its lower field holds the bits
-- [unit:n | limit:64] and its upper field bit 5.
abbrev pub StackSlot : ℕ → ℕ → ℕ → Option ImmPair → Type 0
StackSlot n limit offset none = ¬ ((offset % n ≡ 0) × (offset < limit))
StackSlot n limit offset (some pair) =
    let top = limit / 64 in
    (offset % n ≡ 0)
    × (offset < limit)
    × (pair.immhi < 2)
    × (pair.immlo < 32)
    × (pair.immlo / top * n + pair.immhi * 32 + pair.immlo % top * 64 ≡ offset)

-- What the lower field of C.ADDI16SP holds: 4 | 6 | 8:7 | 5.
abbrev stack_sum : ImmPair → ℕ
stack_sum pair =
    pair.immlo % 2 * 32 + pair.immlo / 2 % 4 * 128 + pair.immlo / 8 % 2 * 64 + pair.immlo / 16 * 16

-- The upper field is the sign, of weight 512.
abbrev pub Adjusts : ℤ → Option ImmPair → Type 0
Adjusts (pos k) none = ¬ ((k % 16 ≡ 0) × (k < 512))
Adjusts (negsuc k) none = ¬ ((k % 16 ≡ 15) × (k < 512))
Adjusts (pos k) (some pair) = (pair.immhi ≡ 0) × (pair.immlo < 32) × (stack_sum pair ≡ k)
Adjusts (negsuc k) (some pair) =
    (pair.immhi ≡ 1) × (pair.immlo < 32) × (stack_sum pair + k + 1 ≡ 512)

-- Every offset of C.LWSP: a pair is made exactly for the multiples of 4 below 256, its fields have
-- 1 and 5 bits, and they hold the bits 5 and 4:2|7:6 of the offset.
riscv_create_clwsp_imm_pair_lem :
    (offset : ℕ) → StackSlot 4 256 offset (riscv_create_clwsp_imm_pair offset)
unfolding riscv_create_clwsp_imm_pair
riscv_create_clwsp_imm_pair_lem offset = elim (Bool-cases (masked offset 3 || ltb 0xff offset)) [
  | inl bad ↦ rw bad (ground (arith, bit_and-mask 2 offset))
  | inr good ↦ rw good (simp extr_lem (ground (arith, bit_and-mask 2 offset)))
]

-- Every offset of C.LDSP: a pair is made exactly for the multiples of 8 below 512, its fields have
-- 1 and 5 bits, and they hold the bits 5 and 4:3|8:6 of the offset.
riscv_create_cldsp_imm_pair_lem :
    (offset : ℕ) → StackSlot 8 512 offset (riscv_create_cldsp_imm_pair offset)
unfolding riscv_create_cldsp_imm_pair
riscv_create_cldsp_imm_pair_lem offset = elim (Bool-cases (masked offset 7 || ltb 0x1ff offset)) [
  | inl bad ↦ rw bad (ground (arith, bit_and-mask 3 offset))
  | inr good ↦ rw good (simp extr_lem (ground (arith, bit_and-mask 3 offset)))
]

-- Every offset of C.ADDI16SP: a pair is made exactly for the multiples of 16 in [-512, 512), the
-- upper field is the sign, and the 5 bits of the lower field hold the offset's other bits.
riscv_create_c_addi16sp_pair_lem :
    (offset : ℤ) → Adjusts offset (riscv_create_c_addi16sp_pair offset)
unfolding riscv_create_c_addi16sp_pair
riscv_create_c_addi16sp_pair_lem (pos k) =
    let w = to_word (pos k) in
    elim (Bool-cases (masked w 0xf || outside 512 (pos k))) [
      | inl bad ↦ rw bad (ground (arith, bit_and-mask 4 w))
      | inr good ↦ rw good (simp extr_lem (ground (arith, bit_and-mask 4 w)))
    ]
riscv_create_c_addi16sp_pair_lem (negsuc k) =
    let w = to_word (negsuc k) in
    elim (Bool-cases (masked w 0xf || outside 512 (negsuc k))) [
      | inl bad ↦ rw bad (ground (arith, bit_and-mask 4 w))
      | inr good ↦ rw good (simp extr_lem (ground (arith, bit_and-mask 4 w)))
    ]

-- For every offset, a pair of C.LWSP is made exactly for the multiples of 4 below 256 and a pair of
-- C.LDSP exactly for the multiples of 8 below 512; their fields have 1 and 5 bits and hold the bits
-- 5 and 4:2|7:6, or 5 and 4:3|8:6, of the offset. A pair of C.ADDI16SP is made exactly for the
-- multiples of 16 in [-512, 512); its upper field is the sign, and the 5 bits of its lower field hold
-- the offset's other bits.
pub riscv_stack_pairs :
    ((offset : ℕ) → StackSlot 4 256 offset (riscv_create_clwsp_imm_pair offset))
    × ((offset : ℕ) → StackSlot 8 512 offset (riscv_create_cldsp_imm_pair offset))
    × ((offset : ℤ) → Adjusts offset (riscv_create_c_addi16sp_pair offset))
riscv_stack_pairs = (
  riscv_create_clwsp_imm_pair_lem, riscv_create_cldsp_imm_pair_lem,
  riscv_create_c_addi16sp_pair_lem,
)
