-- ===== src/LoadStore/Slots.antt =====
-- The stack accesses that arch/riscv/scanner_riscv.c encodes, read by the decoders of
-- api/load_store.c.
use mambo.Base.{ℕ, ◌*◌, ◌/◌, ◌%◌, ◌≡◌, ◌∙◌, arith, Option, none, some, ℤ}
use mambo.Riscv.{
  ImmPair, riscv_create_clwsp_imm_pair, riscv_create_cldsp_imm_pair, riscv_create_c_addi16sp_pair,
}
use mambo.Riscv.Stack.{StackSlot, Adjusts, riscv_stack_pairs}
use mambo.LoadStore.Offsets.{c_spword_load_offset, c_spdoubleword_load_offset}
use mambo.LoadStore.Layout.{spword_lo, spdoubleword_lo, riscv_offsets}

-- The decoder gives the offset back from the pair, if there is one.
abbrev pub ReadsBack : (ℕ → ℕ → ℕ) → ℕ → Option ImmPair → Type 0
ReadsBack decode offset none = Unit {0}
ReadsBack decode offset (some pair) = decode pair.immhi pair.immlo ≡ offset

word-ReadsBack :
    (offset : ℕ) (pair : Option ImmPair)
    → StackSlot 4 256 offset pair
    → ReadsBack c_spword_load_offset offset pair
word-ReadsBack offset none h = tt
word-ReadsBack offset (some pair) (whole, small, hi, lo, sum) =
    let i = offset / 4 in
    let same : 4 * i ≡ offset = omega (arith, whole) in
    let immhi : pair.immhi ≡ 4 * i / 32 % 2 = omega (arith, hi, lo, sum, same) in
    let immlo : pair.immlo ≡ spword_lo (4 * i) = omega (arith, hi, lo, sum, same) in
    rw (immhi, immlo) ((riscv_offsets.1 i (omega (arith, small))).0 ∙ same)

doubleword-ReadsBack :
    (offset : ℕ) (pair : Option ImmPair)
    → StackSlot 8 512 offset pair
    → ReadsBack c_spdoubleword_load_offset offset pair
doubleword-ReadsBack offset none h = tt
doubleword-ReadsBack offset (some pair) (whole, small, hi, lo, sum) =
    let i = offset / 8 in
    let same : 8 * i ≡ offset = omega (arith, whole) in
    let immhi : pair.immhi ≡ 8 * i / 32 % 2 = omega (arith, hi, lo, sum, same) in
    let immlo : pair.immlo ≡ spdoubleword_lo (8 * i) = omega (arith, hi, lo, sum, same) in
    rw (immhi, immlo) ((riscv_offsets.1 i (omega (arith, small))).1 ∙ same)

-- For every offset, a pair of C.LWSP is made exactly for the multiples of 4 below 256 and a pair of
-- C.LDSP exactly for the multiples of 8 below 512; their fields have 1 and 5 bits and hold the bits
-- of the offset, and the decoders of load_store.c give the offset back from them. A pair of
-- C.ADDI16SP is made exactly for the multiples of 16 in [-512, 512); its upper field is the sign, and
-- the 5 bits of its lower field hold the offset's other bits.
riscv_stack_roundtrip :
    ((offset : ℕ)
      → let pair = riscv_create_clwsp_imm_pair offset in
        StackSlot 4 256 offset pair × ReadsBack c_spword_load_offset offset pair)
    × ((offset : ℕ)
        → let pair = riscv_create_cldsp_imm_pair offset in
          StackSlot 8 512 offset pair × ReadsBack c_spdoubleword_load_offset offset pair)
    × ((offset : ℤ) → Adjusts offset (riscv_create_c_addi16sp_pair offset))
riscv_stack_roundtrip =
    let (words, doublewords, adjusts) = riscv_stack_pairs in
    (
      λ offset.
          (words offset, word-ReadsBack offset (riscv_create_clwsp_imm_pair offset) (words offset)),
      λ offset. (
        doublewords offset,
        doubleword-ReadsBack offset (riscv_create_cldsp_imm_pair offset) (doublewords offset),
      ),
      adjusts,
    )
