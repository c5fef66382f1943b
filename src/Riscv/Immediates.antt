-- ===== src/Riscv/Immediates.antt =====
-- The immediates of arch/riscv/scanner_riscv.c: what is encoded is what is decoded.
use mambo.Base.{
  ℕ, ◌+◌, ◌-◌, ◌*◌, ◌%◌, ◌^◌, ◌≤◌, ◌<◌, ◌≡◌, ◌∙◌, refl, true, false, ◌||◌, arith, inl, inr,
  Bool-cases, Option, none, some, ℤ, pos, negsuc,
}
use mambo.Base.Bits.{bit_and-mask}
use mambo.Riscv.{
  to_word, extr, sign_extend, masked, outside, ImmPair, riscv_decode_b_imm, riscv_create_b_imm_pair,
}
use mambo.Riscv.Words.{extr_lem, sign_extend_lem}

-- The offset is even and lies in [-n, n).
abbrev pub Fits : ℕ → ℤ → Type 0
Fits n (pos k) = (k < n) × (k % 2 ≡ 0)
Fits n (negsuc k) = (k < n) × (k % 2 ≡ 1)

-- A pair stands for the offset, with fields of the given sizes; none means that it does not fit.
abbrev pub Encodes : ℕ → ℕ → ℕ → (ℕ → ℕ → ℕ) → ℤ → Option ImmPair → Type 0
Encodes n high low decode offset none = ¬ (Fits n offset)
Encodes n high low decode offset (some pair) =
    Fits n offset
    × (decode pair.immhi pair.immlo ≡ to_word offset)
    × (pair.immhi < high)
    × (pair.immlo < low)

-- The guard of the functions passes exactly the offsets that fit.
pub guard_lem :
    (n : ℕ) (offset : ℤ)
    → 0 < n
    → n ≤ 2 ^ 20
    → ((masked (to_word offset) 1 || outside n offset) ≡ false → Fits n offset)
      × ((masked (to_word offset) 1 || outside n offset) ≡ true → ¬ (Fits n offset))
guard_lem n (pos k) h l = (
  λ e. ground (arith, bit_and-mask 1 (to_word (pos k))),
  λ e. ground (arith, bit_and-mask 1 (to_word (pos k))),
)
guard_lem n (negsuc k) h l = (
  λ e. ground (arith, bit_and-mask 1 (to_word (negsuc k))),
  λ e. ground (arith, bit_and-mask 1 (to_word (negsuc k))),
)

-- The fields of a 13-bit branch offset put together again.
b_fields :
    (w : ℕ)
    → let lo = extr 1 11 w + extr 4 1 w * 2 ^ 1 in
      let hi = extr 6 5 w + extr 1 12 w * 2 ^ 6 in
      extr 4 1 lo * 2 ^ 1 + extr 6 0 hi * 2 ^ 5 + extr 1 0 lo * 2 ^ 11 + extr 1 6 hi * 2 ^ 12
      ≡ w % 8192 - w % 2
b_fields w = simp extr_lem (omega arith)

signed_13 :
    (offset : ℤ)
    → Fits 4096 offset
    → let w = to_word offset in sign_extend 13 (w % 8192 - w % 2) ≡ w
signed_13 (pos k) fits =
    sign_extend_lem 12 (2 ^ 52 - 1) _ refl (omega arith) (omega arith) ∙ ground arith
signed_13 (negsuc k) fits =
    sign_extend_lem 12 (2 ^ 52 - 1) _ refl (omega arith) (omega arith) ∙ ground arith

-- Every offset of a 32-bit branch: a pair is made exactly if the offset is even and lies in
-- [-4096, 4096), and then `riscv_decode_b_imm` gives the offset back, from fields of 7 and 5 bits.
pub riscv_create_b_imm_pair-decode :
    (offset : ℤ) → Encodes 4096 128 32 riscv_decode_b_imm offset (riscv_create_b_imm_pair offset)
unfolding riscv_create_b_imm_pair riscv_decode_b_imm
riscv_create_b_imm_pair-decode offset =
    let w = to_word offset in
    let guard = guard_lem 4096 offset (omega arith) (omega arith) in
    elim (Bool-cases (masked w 1 || outside 4096 offset)) [
      | inl bad ↦ rw bad (guard.1 bad)
      | inr good ↦ rw good (
        guard.0 good,
        rw (b_fields w) (signed_13 offset (guard.0 good)),
        simp extr_lem (omega arith),
        simp extr_lem (omega arith),
      )
    ]
