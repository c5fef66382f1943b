-- ===== src/Riscv/Tests.antt =====
-- The RISC-V encoders and emitters on concrete offsets, targets and values.
use native.Mathlib.Nat.{mul-div_left, mod-eq-sub-div-mul, one-le-pow}
use native.Mathlib.Omega.{pow_step}
use mambo.Base.{
  ℕ, zero, suc, ◌+◌, ◌-◌, ◌*◌, ◌/◌, ◌%◌, ◌^◌, ◌<◌, ◌≡◌, ◌≢◌, ◌∙◌, ap, false, arith, [],
  if◌then◌else◌, ◌==◌, inl, inr, Bool-cases, Returns,
}
use mambo.Riscv.{to_signed}
use mambo.Riscv.Immediates.{Fits}
use mambo.Riscv.Emit.{
  Writer, offset_to, riscv_copy_to_reg, riscv_jal_helper, riscv_jalr_helper, riscv_branch_helper,
}
use mambo.Riscv.Emit.Machine.{Cpu}
use mambo.Riscv.Emit.Constants.{Leaves, FindsFirstSet, riscv_copy_to_reg_lem}
use mambo.Riscv.Emit.Jumps.{
  Jumps, JumpsNear, JumpsNarrow, riscv_jal_helper_lem, riscv_jalr_helper_lem,
  riscv_branch_helper_lem,
}

-- The number of trailing zeros, among at most `fuel`.
unfoldable trailing : ℕ → ℕ → ℕ
trailing zero n = 0
trailing (suc fuel) n = let rest = trailing fuel (n / 2) in if n % 2 == 0 then suc rest else 0

doubled : (n q p r : ℕ) → n % 2 ≡ 0 → n / 2 ≡ (2 * q + 1) * p → r ≡ 2 * p → n ≡ (2 * q + 1) * r
doubled n q p r even half e = rw e (omega (arith, even, half))

odd_part : (fuel n : ℕ) → n ≢ 0 → n < 2 ^ fuel → (q : ℕ) × (n ≡ (2 * q + 1) * 2 ^ trailing fuel n)
unfolding trailing
odd_part zero n h l = absurd (omega arith)
odd_part (suc fuel) n h l = elim (Bool-cases (n % 2 == 0)) [
  | inl even ↦
      let half = odd_part fuel (n / 2) (ground arith) (omega (arith, pow_step 2 fuel)) in
      rw even
        (half.0, doubled n half.0 _ _ (ground arith) half.1 (pow_step 2 (trailing fuel (n / 2))))
  | inr odd ↦ rw odd (n / 2, ground arith)
]

abbrev ffsll : ℕ → ℕ
ffsll n = suc (trailing 64 n)

ffsll-FindsFirstSet : FindsFirstSet ffsll
ffsll-FindsFirstSet n h l =
    let s = trailing 64 n in
    let odd = odd_part 64 n h l in
    let index : suc s - 1 ≡ s = omega arith in
    let some_bit : 0 < 2 ^ s = one-le-pow s 2 (omega arith) in
    let quotient : n / 2 ^ s ≡ 2 * odd.0 + 1 =
      ap (λ (m : ℕ). m / 2 ^ s) odd.1 ∙ mul-div_left (2 * odd.0 + 1) some_bit in
    let remainder : n % 2 ^ s ≡ 0 =
      mod-eq-sub-div-mul n (2 ^ s) ∙ omega (arith, odd.1, ap (λ (m : ℕ). m * 2 ^ s) quotient) in
    rw index (omega arith, remainder, omega (arith, quotient))

abbrev writer : Writer
writer = record { write_p = 0x1_0000; code = [] }

abbrev idle : Cpu
idle = record { pc = 0; regs = λ r. 0; mem = λ a. 0 }

riscv_copy_to_reg_example :
    Returns
      (riscv_copy_to_reg ffsll writer 5 0x1234_5678_9abc_def0)
      (Leaves (λ c i. false) idle 5 0x1234_5678_9abc_def0)
riscv_copy_to_reg_example =
    riscv_copy_to_reg_lem (λ c i. false) idle 5 (omega arith) ffsll ffsll-FindsFirstSet writer
      0x1234_5678_9abc_def0 (omega arith)

riscv_jal_helper_example :
    Jumps
      (Fits (2 ^ 20) (to_signed (offset_to writer 0xff00)))
      (λ c i. false)
      idle
      0xff00
      (riscv_jal_helper writer 0xff00 1)
riscv_jal_helper_example =
    riscv_jal_helper_lem (λ c i. false) idle writer 0xff00 (omega arith) (omega arith) 1

riscv_jalr_helper_example :
    JumpsNear
      (λ c i. false)
      idle
      0x8000_fff0
      (offset_to writer 0x8000_fff0)
      (riscv_jalr_helper writer 0x8000_fff0 1 5)
riscv_jalr_helper_example =
    riscv_jalr_helper_lem (λ c i. false) idle writer 0x8000_fff0 (omega arith) (omega arith) 1 5
      (omega arith) (omega arith)

-- The target is 2 ^ 32 + 16 bytes away.
riscv_branch_helper_example :
    JumpsNarrow idle 0x1_0001_0010
      (offset_to writer 0x1_0001_0010)
      (riscv_branch_helper writer 0x1_0001_0010 5 6 0)
riscv_branch_helper_example =
    riscv_branch_helper_lem (λ c i. false) idle writer 0x1_0001_0010 (omega arith) (omega arith) 5 6
      0
