-- ===== src/Riscv/Emit/Jumps.antt =====
-- The jumps that arch/riscv/scanner_riscv.c emits: where they go, and which are refused.
use mambo.Base.{
  ℕ, ◌+◌, ◌-◌, ◌*◌, ◌/◌, ◌%◌, ◌^◌, ◌≤◌, ◌<◌, ◌≡◌, ◌≢◌, ◌⊎◌, ◌↔◌, ◌∙◌, refl, Bool, true, false, ◌||◌,
  arith, ◌==◌, inl, inr, Bool-cases, Option-cases, Option, none, some,
}
use mambo.Riscv.{
  word64, to_word, to_signed, to_int, extr, sign_extend, masked, outside, riscv_create_b_imm_pair,
  riscv_decode_j_imm,
}
use mambo.Riscv.Words.{extr_lem, sign_extend_lem}
use mambo.Riscv.Immediates.{Fits, guard_lem, riscv_create_b_imm_pair-decode}
use mambo.Riscv.Emit.{
  Instr, Writer, fits_int, offset_to, riscv_jal_helper, riscv_jalr_helper, riscv_branch_helper,
}
use mambo.Riscv.Emit.Machine.{Cpu, sx12, sx32, execute, run}

-- The jump is made if the condition holds, and only then; it lands on the target.
abbrev pub Jumps : Type 0 → (Cpu → Instr → Bool) → Cpu → ℕ → Option Writer → Type 0
Jumps Reach taken cpu target none = ¬ Reach
Jumps Reach taken cpu target (some w) = Reach × ((run taken w.code cpu).pc ≡ target)

-- The fields of J-type put together again.
j_fields :
    (w : ℕ)
    → let imm = extr 10 1 w * 2 ^ 9 + extr 1 11 w * 2 ^ 8 + extr 8 12 w + extr 1 20 w * 2 ^ 19 in
      extr 10 9 imm * 2 ^ 1 + extr 1 8 imm * 2 ^ 11 + extr 8 0 imm * 2 ^ 12 + extr 1 19 imm * 2 ^ 20
      ≡ w % 2 ^ 21 - w % 2
j_fields w = simp extr_lem (omega arith)

to_word-to_signed : (w : ℕ) → w < word64 → to_word (to_signed w) ≡ w
to_word-to_signed w h = ground arith

signed_21 :
    (w : ℕ) → w < word64 → Fits (2 ^ 20) (to_signed w) → sign_extend 21 (w % 2 ^ 21 - w % 2) ≡ w
signed_21 w h fits =
    sign_extend_lem 20 (2 ^ 44 - 1) _ refl (omega arith) (omega arith) ∙ ground arith

landing :
    (at target : ℕ)
    → at < word64
    → target < word64
    → (at + (target + (word64 - at)) % word64) % word64 ≡ target
landing at target h l = omega arith

-- The same, but the distances in the last 2048 bytes of the range of an int miss the target.
abbrev pub JumpsNear : (Cpu → Instr → Bool) → Cpu → ℕ → ℕ → Option Writer → Type 0
JumpsNear taken cpu target offset none = ¬ (fits_int offset ≡ true)
JumpsNear taken cpu target offset (some w) =
    (fits_int offset ≡ true)
    × (((run taken w.code cpu).pc ≡ target)
        ↔ ((offset < 2 ^ 31 - 2048) ⊎ (word64 - 2 ^ 31 ≤ offset)))

-- The same for a branch that is taken.
abbrev pub JumpsNarrow : Cpu → ℕ → ℕ → Option Writer → Type 0
JumpsNarrow cpu target offset none = ¬ (Fits 4096 (to_int offset))
JumpsNarrow cpu target offset (some w) =
    Fits 4096 (to_int offset)
    × (((run (λ c i. true) w.code cpu).pc ≡ target) ↔ (to_word (to_int offset) ≡ offset))

narrow_reach :
    (at target : ℕ)
    → at < word64
    → target < word64
    → let offset = (target + (word64 - at)) % word64 in
      ((at + to_word (to_int offset)) % word64 ≡ target) ↔ (to_word (to_int offset) ≡ offset)
narrow_reach at target h l = (λ e. ground arith, λ e. rw e (landing at target h l))

pair_reach :
    (at target : ℕ)
    → at < word64
    → target < word64
    → let offset = (target + (word64 - at)) % word64 in
      let far = (at + sx32 ((offset + 2048) % word64 / 4096 % 2 ^ 20 % 2 ^ 20 * 4096)) % word64 in
      let sum = (far + sx12 (offset % 4096)) % word64 in
      fits_int offset ≡ true
      → target % 2 ≡ 0
      → ((sum - sum % 2) % word64 ≡ target)
        ↔ ((offset < 2 ^ 31 - 2048) ⊎ (word64 - 2 ^ 31 ≤ offset))
pair_reach at target h l fits even = (λ e. ground arith, λ e. ground arith)

same : (r : ℕ) → (r == r) ≡ true
same r = ground arith

different : (r : ℕ) → r ≢ 0 → (r == 0) ≡ false
different r h = ground arith

module _ (taken : Cpu → Instr → Bool) (cpu : Cpu) (w : Writer) (target : ℕ)
    (placed : w.write_p < word64) (small : target < word64) where
  -- For a write pointer and a target below 2 ^ 64: JAL is emitted exactly if the distance is even
  -- and lies in [-2 ^ 20, 2 ^ 20), and then the processor stands at the target after it.
  pub riscv_jal_helper_lem :
      (rd : ℕ)
      → Jumps
          (Fits (2 ^ 20) (to_signed (offset_to w target)))
          taken
          cpu
          target
          (riscv_jal_helper w target rd)
  unfolding riscv_jal_helper run execute riscv_decode_j_imm
  riscv_jal_helper_lem rd =
      let offset = offset_to w target in
      let e = to_word-to_signed offset (omega arith) in
      let guard = rw e at (guard_lem (2 ^ 20) (to_signed offset) (omega arith) (omega arith)) in
      elim (Bool-cases (masked offset 1 || outside (1024 * 1024) (to_signed offset))) [
        | inl bad ↦ rw bad (guard.1 bad)
        | inr good ↦
            let fits = guard.0 good in
            rw good (
              fits,
              rw (j_fields offset, signed_21 offset (omega arith) fits)
                  (landing w.write_p target placed small),
            )
      ]

  -- For a write pointer and a target below 2 ^ 64: AUIPC and JALR through a register other than x0,
  -- for an even target: they are emitted exactly if the distance fits an int, and then the
  -- processor stands at the target after them, except for the distances from 2 ^ 31 - 2048 to 2 ^
  -- 31 - 1, for which it does not.
  pub riscv_jalr_helper_lem :
      (rd rs1 : ℕ)
      → rs1 ≢ 0
      → target % 2 ≡ 0
      → JumpsNear taken cpu target (offset_to w target) (riscv_jalr_helper w target rd rs1)
  unfolding riscv_jalr_helper run execute
  riscv_jalr_helper_lem rd rs1 h even =
      let offset = offset_to w target in
      elim (Bool-cases (fits_int offset)) [
        | inl fits ↦
            rw (fits, different rs1 h, same rs1)
              (fits, pair_reach w.write_p target placed small fits even)
        | inr far ↦ rw far (λ e. ground arith)
      ]

  -- For a write pointer and a target below 2 ^ 64, a 32-bit branch that is taken: it is emitted
  -- exactly if the distance, narrowed to an int, is even and lies in [-4096, 4096), and then the
  -- processor stands at the target exactly if the narrowing has kept the distance.
  pub riscv_branch_helper_lem :
      (rs1 rs2 condition : ℕ)
      → JumpsNarrow cpu target (offset_to w target) (riscv_branch_helper w target rs1 rs2 condition)
  unfolding riscv_branch_helper run execute
  riscv_branch_helper_lem rs1 rs2 condition =
      let narrow = to_int (offset_to w target) in
      let encoded = riscv_create_b_imm_pair-decode narrow in
      elim (Option-cases (riscv_create_b_imm_pair narrow)) [
        | inl refused ↦ rw (JumpsNarrow, refused) (rw refused at encoded)
        | inr (pair, made) ↦
            let facts = rw made at encoded in
            rw (JumpsNarrow, made)
              (facts.0, rw facts.1 (narrow_reach w.write_p target placed small))
      ]
