-- ===== src/Riscv/Words.antt =====
-- Bit fields and sign extension of scanner_public.h in plain arithmetic.
use Prim.Native.Nat.{bit_xor}
use mambo.Base.{
  ℕ, suc, ◌+◌, ◌-◌, ◌*◌, ◌/◌, ◌%◌, ◌^◌, ◌≤◌, ◌<◌, ◌≡◌, ◌∙◌, ap, arith, ltb, if◌then◌else◌, inl, inr,
  Bool-cases,
}
use mambo.Base.Bits.{bit_and-mask, bit_xor_high, bit_xor_self, zero-bit_xor}
use mambo.Riscv.{word64, extr, sign_extend}

pub extr_lem : (bits position from : ℕ) → extr bits position from ≡ from / 2 ^ position % 2 ^ bits
unfolding extr
extr_lem bits position from = bit_and-mask bits (from / 2 ^ position)

-- The two cases of the trick with `^`, for a sign bit of weight p = 2 ^ k.
sign_bit_clear :
    (k i v : ℕ)
    → suc i * 2 ^ k ≡ word64
    → v < 2 ^ k
    → bit_xor ((v + i * 2 ^ k) % word64) (i * 2 ^ k) ≡ v
sign_bit_clear k i v e h =
    let p = 2 ^ k in
    let sum : (v + i * p) % word64 ≡ i * p + v = omega (arith, e, h) in
    rw sum (bit_xor_high k i i v h ∙ omega (arith, ap (λ (t : ℕ). t * p) (bit_xor_self i)))

sign_bit_set :
    (k i v : ℕ)
    → suc i * 2 ^ k ≡ word64
    → 2 * 2 ^ k ≤ word64
    → 2 ^ k ≤ v
    → v < 2 * 2 ^ k
    → bit_xor ((v + i * 2 ^ k) % word64) (i * 2 ^ k) ≡ word64 - 2 * 2 ^ k + v
sign_bit_set k i v e fits l h =
    let p = 2 ^ k in
    let sum : (v + i * p) % word64 ≡ 0 * p + (v - p) = omega (arith, e, fits, l, h) in
    rw sum (
      bit_xor_high k 0 i (v - p) (omega arith)
      ∙ omega (arith, e, fits, l, h, ap (λ (t : ℕ). t * p) (zero-bit_xor i)))

-- A field of k + 1 bits as the 64-bit word that it stands for.
pub sign_extend_lem :
    (k i v : ℕ)
    → suc i * 2 ^ k ≡ word64
    → 2 * 2 ^ k ≤ word64
    → v < 2 * 2 ^ k
    → sign_extend (suc k) v ≡ (if ltb v (2 ^ k) then v else word64 - 2 * 2 ^ k + v)
unfolding sign_extend
sign_extend_lem k i v e fits h =
    let p = 2 ^ k in
    let exponent : suc k - 1 ≡ k = omega arith in
    let c : word64 - 2 ^ (suc k - 1) ≡ i * p = rw exponent (omega (arith, e)) in
    elim (Bool-cases (ltb v p)) [
      | inl low ↦ rw (low, c) (sign_bit_clear k i v e (ground arith))
      | inr high ↦ rw (high, c) (sign_bit_set k i v e fits (ground arith) h)
    ]
