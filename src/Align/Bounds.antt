-- ===== src/Align/Bounds.antt =====
-- What the alignments of common.h give.
use native.Mathlib.Nat.{div-add-mod', mod-lt, add-mod_right, mul-div_left, mod-eq-sub-div-mul}
use mambo.Base.{
  ℕ, ◌+◌, ◌*◌, ◌/◌, ◌%◌, ◌^◌, ◌<◌, ◌≤◌, ◌≡◌, ◌∙◌, ap, ◌==◌, arith, inl, inr, Bool-cases,
}
use mambo.Align.{align_lower, align_higher}

multiple : (q n : ℕ) → 0 < n → q * n % n ≡ 0
multiple q n h =
    mod-eq-sub-div-mul (q * n) n ∙ omega (arith, ap (λ (t : ℕ). t * n) (mul-div_left q h))

-- For an alignment that is not 0 and an address whose alignment upwards does not wrap around,
-- `align_lower` and `align_higher` give multiples of the alignment, the largest at or below and the
-- smallest at or above the address.
align_lem :
    (address alignment : ℕ)
    → 0 < alignment
    → address + alignment ≤ 2 ^ 64
    → let low = align_lower address alignment in
      let high = align_higher address alignment in
      (low % alignment ≡ 0)
      × (low ≤ address)
      × (address < low + alignment)
      × (high % alignment ≡ 0)
      × (address ≤ high)
      × (high < address + alignment)
unfolding align_lower align_higher
align_lem address alignment h room =
    let low = address / alignment * alignment in
    let parts : low + address % alignment ≡ address = div-add-mod' address alignment in
    let rest = mod-lt address h in
    let even = multiple (address / alignment) alignment h in
    elim (Bool-cases (low == address)) [
      | inl aligned ↦
          let e : low ≡ address = ground arith in
          rw aligned (
            even,
            omega (arith, parts),
            omega (arith, parts, rest),
            even,
            omega (arith, e),
            omega (arith, e, h),
          )
      | inr apart ↦
          let below : low < address = ground (arith, parts) in
          let fits : (low + alignment) % 2 ^ 64 ≡ low + alignment = omega (arith, below, room) in
          rw (apart, fits)
            (
              even,
              omega (arith, below),
              omega (arith, parts, rest),
              add-mod_right low alignment ∙ even,
              omega (arith, parts, rest),
              omega (arith, below),
            )
    ]
