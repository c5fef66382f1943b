-- ===== src/Riscv/Compressed.antt =====
-- The immediates of the compressed instructions of arch/riscv/scanner_riscv.c. The encoder of C.BEQZ
-- and C.BNEZ shifts bits 7:6 of the offset one place too far.
use mambo.Base.{
  ℕ, ◌+◌, ◌-◌, ◌*◌, ◌/◌, ◌%◌, ◌^◌, ◌≡◌, ◌↔◌, ◌∙◌, refl, ◌||◌, arith, inl, inr, Bool-cases, Option,
  none, some, ℤ, pos, negsuc,
}
use mambo.Riscv.{
  to_word, extr, sign_extend, masked, outside, ImmPair, riscv_decode_cb_offset,
  riscv_create_cb_imm_pair,
}
use mambo.Riscv.Immediates.{Fits, guard_lem}
use mambo.Riscv.Words.{extr_lem, sign_extend_lem}

-- Bits 7:6 of an offset.
abbrev bits_7_6 : ℤ → ℕ
bits_7_6 offset = to_word offset / 64 % 4

-- A pair stands for the offset if bits 7:6 are clear, and only then; none means that it does not
-- fit.
abbrev pub Decodes : ℤ → Option ImmPair → Type 0
Decodes offset none = ¬ (Fits 256 offset)
Decodes offset (some pair) =
    Fits 256 offset
    × ((riscv_decode_cb_offset pair.immhi pair.immlo ≡ to_word offset) ↔ (bits_7_6 offset ≡ 0))

-- What the fields give when they are put together again.
cb_fields :
    (w : ℕ)
    → let lo = extr 2 6 w * 2 ^ 4 + extr 2 1 w * 2 ^ 1 + extr 1 5 w in
      let hi = extr 1 8 w * 2 ^ 2 + extr 2 3 w in
      extr 2 1 lo * 2 ^ 1
        + extr 2 0 hi * 2 ^ 3
        + extr 1 0 lo * 2 ^ 5
        + extr 2 3 lo * 2 ^ 6
        + extr 1 2 hi * 2 ^ 8
      ≡ w % 512 - w % 2 + 64 * (w / 64 % 2 * 2) - 64 * (w / 64 % 4)
cb_fields w = simp extr_lem (omega arith)

-- For an offset that fits, the pair is read back as the offset exactly if bits 7:6 are clear.
cb_decode :
    (offset : ℤ)
    → Fits 256 offset
    → let w = to_word offset in
      (sign_extend 9 (w % 512 - w % 2 + 64 * (w / 64 % 2 * 2) - 64 * (w / 64 % 4)) ≡ w)
      ↔ (bits_7_6 offset ≡ 0)
cb_decode (pos k) fits =
    let e = sign_extend_lem 8 (2 ^ 56 - 1) _ refl (omega arith) (omega arith) in
    (λ h. let f = h in ground (arith, e), λ h. e ∙ ground arith)
cb_decode (negsuc k) fits =
    let e = sign_extend_lem 8 (2 ^ 56 - 1) _ refl (omega arith) (omega arith) in
    (λ h. let f = h in ground (arith, e), λ h. e ∙ ground arith)

-- The pair of C.BEQZ and C.BNEZ: none is made exactly if the offset is odd or out of [-256, 256),
-- and a pair that is made is read back as the offset exactly if bits 7:6 of the offset are clear.
pub riscv_create_cb_imm_pair-decode :
    (offset : ℤ) → Decodes offset (riscv_create_cb_imm_pair offset)
unfolding riscv_create_cb_imm_pair riscv_decode_cb_offset
riscv_create_cb_imm_pair-decode offset =
    let w = to_word offset in
    let guard = guard_lem 256 offset (omega arith) (omega arith) in
    elim (Bool-cases (masked w 1 || outside 256 offset)) [
      | inl bad ↦ rw bad (guard.1 bad)
      | inr good ↦ rw good (guard.0 good, rw (cb_fields w) (cb_decode offset (guard.0 good)))
    ]
