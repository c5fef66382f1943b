-- ===== src/Riscv/Emit/Constants.antt =====
-- Constants put into a register by arch/riscv/scanner_riscv.c.
use mambo.Base.{
  ℕ, zero, suc, ◌+◌, ◌-◌, ◌*◌, ◌/◌, ◌%◌, ◌^◌, ◌≤◌, ◌<◌, ◌≡◌, ◌≢◌, ◌∙◌, sym, refl, Bool, true, false,
  arith, ltb, ◌==◌, inl, inr, Bool-cases, Returns,
}
use native.Mathlib.Omega.{pow_step}
use native.Mathlib.Nat.{pow-le-pow_right, mod-eq_of_lt, div-add-mod', div-le_self}
use mambo.Riscv.{word64, sign_extend}
use mambo.Riscv.Words.{sign_extend_lem}
use mambo.Riscv.Emit.{
  Instr, Writer, fits_int, riscv_copy_to_reg_32bits, riscv_copy_to_reg_64bits, riscv_copy_to_reg,
}
use mambo.Riscv.Emit.Machine.{Cpu, sx12, sx32, execute, run}

-- The code leaves the value in the register.
abbrev pub Leaves : (Cpu → Instr → Bool) → Cpu → ℕ → ℕ → Writer → Type 0
Leaves taken cpu reg value w = (run taken w.code cpu).regs reg ≡ value

sign_extend_12 : (v : ℕ) → sign_extend 12 (v % 4096) ≡ sx12 v
sign_extend_12 v = sign_extend_lem 11 (2 ^ 53 - 1) (v % 4096) refl (omega arith) (omega arith)

-- The registers and the parts of a 32-bit value.
same : (r : ℕ) → (r == r) ≡ true
same r = ground arith

different : (r : ℕ) → r ≢ 0 → (r == 0) ≡ false
different r h = ground arith

no_high_part :
    (v : ℕ)
    → v < 2 ^ 32
    → ((v + 0x800) % 2 ^ 32 / 4096 == 0) ≡ true
    → sx32 ((0 + sx12 (sx12 v)) % 2 ^ 32) ≡ sx32 v
no_high_part v h e = ground arith

no_low_part :
    (v : ℕ) → v < 2 ^ 32 → sx12 v ≡ 0 → sx32 ((v + 0x800) % 2 ^ 32 / 4096 % 2 ^ 20 * 4096) ≡ sx32 v
no_low_part v h e = ground arith

both_parts :
    (v : ℕ)
    → v < 2 ^ 32
    → sx32 ((sx32 ((v + 0x800) % 2 ^ 32 / 4096 % 2 ^ 20 * 4096) + sx12 (sx12 v)) % 2 ^ 32) ≡ sx32 v
both_parts v h = ground arith

-- `__builtin_ffsll`: one plus the index of the lowest bit that is set.
abbrev pub FindsFirstSet : (ℕ → ℕ) → Type 0
FindsFirstSet ffsll =
    (n : ℕ)
    → n ≢ 0
    → n < word64
    → (0 < ffsll n) × (n % 2 ^ (ffsll n - 1) ≡ 0) × (n / 2 ^ (ffsll n - 1) % 2 ≡ 1)

power_12 : (s : ℕ) → 2 ^ (12 + s) ≡ 4096 * 2 ^ s
power_12 zero = omega arith
power_12 (suc s) =
    let e : 12 + suc s ≡ suc (12 + s) = omega arith in
    rw e (pow_step 2 (12 + s) ∙ omega (arith, power_12 s, pow_step 2 s))

-- The lowest set bit of a number below 2 ^ 52 stands below bit 52.
bit_lt : (n s : ℕ) → n % 2 ^ s ≡ 0 → n ≢ 0 → n < 2 ^ 52 → s < 52
bit_lt n s e h l = elim (Bool-cases (ltb s 52)) [
  | inl below ↦ ground arith
  | inr above ↦
      let big : 2 ^ 52 ≤ 2 ^ s = pow-le-pow_right (omega arith) {i = 52} (ground arith) in
      let small : n < 2 ^ s = omega (arith, big) in absurd (h (sym (mod-eq_of_lt small) ∙ e))
]

-- The shift by the two fields of C.SLLI gives back the number that the trailing zeros were cut from.
shifted :
    (high s : ℕ)
    → s < 52
    → high % 2 ^ s ≡ 0
    → high / 2 ^ s * 2 ^ ((12 + s) / 32 % 2 * 32 + (12 + s) % 32 % 32) ≡ high * 4096
shifted high s h m =
    let e : (12 + s) / 32 % 2 * 32 + (12 + s) % 32 % 32 ≡ 12 + s = omega arith in
    let whole : high / 2 ^ s * 2 ^ s ≡ high = omega (arith, m, div-add-mod' high (2 ^ s)) in
    rw (e, power_12 s) (omega (arith, whole))

high_only : (v : ℕ) → v < word64 → sx12 v ≡ 0 → (v + 0x800) % word64 / 4096 * 4096 % word64 ≡ v
high_only v h e = ground arith

high_and_low :
    (v : ℕ)
    → v < word64
    → ((v + 0x800) % word64 / 4096 * 4096 % word64 + sx12 (sx12 v)) % word64 ≡ v
high_and_low v h = ground arith

module _ (taken : Cpu → Instr → Bool) (cpu : Cpu) (reg : ℕ) (nonzero : reg ≢ 0) where
  copy_32 :
      (w : Writer) (value : ℕ)
      → value < 2 ^ 32
      → Leaves taken cpu reg (sx32 value) (riscv_copy_to_reg_32bits w reg value)
  unfolding riscv_copy_to_reg_32bits run execute
  copy_32 w value h =
      let e = sign_extend_12 value in
      elim (Bool-cases (((value + 0x800) % 2 ^ 32 / 4096) == 0)) [
        | inl none_high ↦ elim (Bool-cases (sx12 value == 0)) [
          | inl low ↦ rw (e, none_high, low, same reg) (no_high_part value h none_high)
          | inr low ↦ rw (e, none_high, low, same reg) (no_high_part value h none_high)
        ]
        | inr high ↦ elim (Bool-cases (sx12 value == 0)) [
          | inl low ↦ rw (e, high, low, same reg) (no_low_part value h (ground arith))
          | inr low ↦ rw (e, high, low, same reg, different reg nonzero) (both_parts value h)
        ]
      ]

  module _ (ffsll : ℕ → ℕ) (first : FindsFirstSet ffsll) (w : Writer) where
    abbrev Copies : ℕ → ℕ → Type 0
    Copies fuel v = Returns (riscv_copy_to_reg_64bits ffsll fuel w reg v) (Leaves taken cpu reg v)

    Copies-int : (fuel v : ℕ) → fits_int v ≡ true → v < word64 → Copies (suc fuel) v
    unfolding riscv_copy_to_reg_64bits
    Copies-int fuel v small h =
        rw small (_, refl, copy_32 w (v % 2 ^ 32) (omega arith) ∙ ground arith)

    -- A level of the recursion.
    Copies-level :
        (fuel bound v : ℕ)
        → ((h : ℕ) → h < bound → Copies fuel h)
        → v < word64
        → (v + 0x800) % word64 / 4096 < bound
        → Copies (suc fuel) v
    unfolding riscv_copy_to_reg_64bits run execute
    Copies-level fuel bound v below h hb = elim (Bool-cases (fits_int v)) [
      | inl small ↦ Copies-int fuel v small h
      | inr large ↦
          let high = (v + 0x800) % word64 / 4096 in
          let s = ffsll high - 1 in
          let nonempty : high ≢ 0 = ground arith in
          let found = first high nonempty (omega arith) in
          let shift : 12 + ffsll high - 1 ≡ 12 + s = omega (arith, found.0) in
          let cut : 12 + s - 12 ≡ s = omega arith in
          let inner = below (high / 2 ^ s) (omega (arith, div-le_self high (2 ^ s), hb)) in
          let value = inner.2 in
          let place = shifted high s (bit_lt high s found.1 nonempty (omega arith)) found.1 in
          rw (large, shift, cut, inner.1, sign_extend_12 v)
            (elim (Bool-cases (sx12 v == 0)) [
              | inl low ↦ rw low (
                _,
                refl,
                rw (different reg nonzero, same reg, value, place) (high_only v h (ground arith)),
              )
              | inr low ↦
                  rw low
                    (_, refl, rw (different reg nonzero, same reg, value, place) (high_and_low v h))
            ])
    ]

  -- For every 64-bit value, every register but x0 and every `__builtin_ffsll` as documented, the
  -- recursion of `riscv_copy_to_reg` returns, at most four levels deep, and the instructions that it
  -- emits (LUI, ADDIW, C.SLLI and ADDI, executed after the code before them) leave the value in the
  -- register.
  pub riscv_copy_to_reg_lem :
      (ffsll : ℕ → ℕ)
      → FindsFirstSet ffsll
      → (w : Writer) (value : ℕ) → value < word64
      → Returns (riscv_copy_to_reg ffsll w reg value) (Leaves taken cpu reg value)
  unfolding riscv_copy_to_reg
  riscv_copy_to_reg_lem ffsll first w value h =
      let level = Copies-level ffsll first w in
      let one_level : (v : ℕ) → v < 2 ^ 31 → Copies ffsll first w 1 v =
        λ v l. Copies-int ffsll first w 0 v (ground arith) (omega arith) in
      let two_levels : (v : ℕ) → v < 2 ^ 42 → Copies ffsll first w 2 v =
        λ v l. level 1 (2 ^ 31) v one_level (omega arith) (omega arith) in
      let three_levels : (v : ℕ) → v < 2 ^ 53 → Copies ffsll first w 3 v =
        λ v l. level 2 (2 ^ 42) v two_levels (omega arith) (omega arith) in
      level 3 (2 ^ 53) value three_levels h (omega arith)
