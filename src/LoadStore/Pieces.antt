-- ===== src/LoadStore/Pieces.antt =====
-- The pieces of code that `mambo_calc_rvv_ld_st_size` of api/load_store.c emits.
use mambo.Base.{
  ℕ, zero, suc, ◌+◌, ◌-◌, ◌*◌, ◌/◌, ◌%◌, ◌^◌, ◌≤◌, ◌<◌, ◌≡◌, ◌≢◌, refl, ◌∙◌, true, false, ◌==◌, ◌∷◌,
  arith, Bool-cases, ◌⊎◌, inl, inr,
}
use native.Mathlib.Nat.{mul-le-mul, mul_left_comm, mul_comm, mod-eq_of_lt, two-pow-succ}
use mambo.Base.Bits.{bit_and-mask}
use mambo.Riscv.{word64}
use mambo.Riscv.Emit.Machine.{sx12}
use mambo.LoadStore.Emit.{
  Context, Emitted, log2_loop, riscv_log2_pow2, emit_shift, emit_whole_reg, emit_mask, emit_active,
  emit_indexed, width, eew_bytes, nf_count, csr_vl, csr_vstart, csr_vtype, csr_vlenb,
}
use mambo.LoadStore.Run.{Hart, read, execute, run}

pub shift_lem :
    (ctx : Context) (h : Hart) (r k : ℕ)
    → r ≢ 0
    → k < 64
    → read (run ctx.emitted h) r < word64
    → read (run (emit_shift ctx r k).emitted h) r ≡ read (run ctx.emitted h) r * 2 ^ k % word64
unfolding emit_shift run execute
shift_lem ctx h r k nonzero small bound =
    let a : (r == 0) ≡ false = ground arith in
    let b : (r == r) ≡ true = ground arith in
    let c : k % 64 ≡ k = omega arith in
    elim (Bool-cases (k == 0)) [
      | inl none ↦ let e : k ≡ 0 = ground arith in rw (none, e) (omega (arith, bound))
      | inr some ↦ rw (some, a, b, c) refl
    ]

-- The numbers of which the code can take the logarithm.
abbrev pub IsPower : ℕ → Type 0
IsPower n = (n ≡ 1) ⊎ (n ≡ 2) ⊎ (n ≡ 4) ⊎ (n ≡ 8)

pub log2_lem : (n : ℕ) → IsPower n → (riscv_log2_pow2 n < 4) × (2 ^ riscv_log2_pow2 n ≡ n) × (n ≤ 8)
unfolding riscv_log2_pow2 log2_loop
log2_lem n (inl e) = rw e (omega arith, refl, omega arith)
log2_lem n (inr (inl e)) = rw e (omega arith, refl, omega arith)
log2_lem n (inr (inr (inl e))) = rw e (omega arith, refl, omega arith)
log2_lem n (inr (inr (inr e))) = rw e (omega arith, refl, omega arith)

pub eew_bytes-IsPower : (w : ℕ) → IsPower (eew_bytes w)
eew_bytes-IsPower w = elim (Bool-cases (width w == 5)) [
  | inl a ↦ rw a (inr (inl refl))
  | inr a ↦ elim (Bool-cases (width w == 6)) [
    | inl b ↦ rw (a, b) (inr (inr (inl refl)))
    | inr b ↦ elim (Bool-cases (width w == 7)) [
      | inl c ↦ rw (a, b, c) (inr (inr (inr refl)))
      | inr c ↦ rw (a, b, c) (inl refl)
    ]
  ]
]

pub two-pow_add : (a b : ℕ) → 2 ^ (a + b) ≡ 2 ^ a * 2 ^ b
two-pow_add a zero = let e : a + 0 ≡ a = omega arith in rw e (omega arith)
two-pow_add a (suc b) =
    let e : a + suc b ≡ suc (a + b) = omega arith in
    let half : 2 ^ b + 2 ^ b ≡ 2 * 2 ^ b = omega arith in
    let whole : 2 ^ a * (2 * 2 ^ b) ≡ 2 * (2 ^ a * 2 ^ b) = mul_left_comm (2 ^ a) 2 (2 ^ b) in
    rw (e, two-pow-succ (a + b), two-pow-succ b, half, whole) (omega (arith, two-pow_add a b))

-- A product of a count and two small factors is below 2 ^ 64.
pub product_small : (x a b : ℕ) → x < 2 ^ 32 → a ≤ 128 → b ≤ 8 → x * a * b < word64
product_small x a b hx ha hb =
    let below : x ≤ 2 ^ 32 = omega (arith, hx) in
    let first : x * a ≤ 2 ^ 32 * 128 = mul-le-mul below ha in
    let second : x * a * b ≤ 2 ^ 32 * 128 * 8 = mul-le-mul first hb in omega (arith, second)

csr_lem :
    (ctx : Context) (h : Hart) (s number : ℕ)
    → s ≢ 0
    → (run ctx.emitted h).csr number < word64
    → read (run (Emitted.csrrs s number 0 ∷ ctx.emitted) h) s ≡ (run ctx.emitted h).csr number
unfolding run execute
csr_lem ctx h s number s_set small =
    let a : (s == 0) ≡ false = ground arith in
    let b : (s == s) ≡ true = ground arith in rw (a, b) (omega (arith, small))

pub whole_lem :
    (ctx : Context) (h : Hart) (s : ℕ)
    → s ≢ 0
    → IsPower (nf_count ctx.word)
    → (run ctx.emitted h).csr csr_vlenb < 2 ^ 32
    → read (run (emit_whole_reg ctx s).emitted h) s
      ≡ nf_count ctx.word * (run ctx.emitted h).csr csr_vlenb
unfolding emit_whole_reg
whole_lem ctx h s s_set power small =
    let (k_small, k_power, n_small) = log2_lem (nf_count ctx.word) power in
    let read_vlenb = record ctx { emitted = Emitted.csrrs s csr_vlenb 0 ∷ ctx.emitted } in
    let vlenb = (run ctx.emitted h).csr csr_vlenb in
    let below : vlenb ≤ 2 ^ 32 = omega (arith, small) in
    let bound : vlenb * nf_count ctx.word ≤ 2 ^ 32 * 8 = mul-le-mul below n_small in
    let start = csr_lem ctx h s csr_vlenb s_set (omega (arith, small)) in
    shift_lem read_vlenb h s (riscv_log2_pow2 (nf_count ctx.word)) s_set (omega (arith, k_small))
      (omega (arith, start, small))
    ∙ rw (start, k_power) (mod-eq_of_lt (omega (arith, bound)) ∙ mul_comm vlenb (nf_count ctx.word))

pub mask_lem :
    (ctx : Context) (h : Hart) (s : ℕ)
    → s ≢ 0
    → (run ctx.emitted h).csr csr_vl < 2 ^ 32
    → read (run (emit_mask ctx s).emitted h) s ≡ ((run ctx.emitted h).csr csr_vl + 7) / 8
unfolding emit_mask run execute
mask_lem ctx h s s_set small =
    let a : (s == 0) ≡ false = ground arith in
    let b : (s == s) ≡ true = ground arith in rw (a, b) (omega (arith, small))

module _ (ctx : Context) (h : Hart) (s t : ℕ) (s_set : s ≢ 0) (t_set : t ≢ 0) (apart : s ≢ t) where
  pub active_lem :
      let h0 = run ctx.emitted h in
      h0.csr csr_vl < 2 ^ 32
      → h0.csr csr_vstart ≤ h0.csr csr_vl
      → read (run (emit_active ctx s t).emitted h) s ≡ h0.csr csr_vl - h0.csr csr_vstart
  unfolding emit_active run execute
  active_lem small within =
      let a : (s == 0) ≡ false = ground arith in
      let b : (s == s) ≡ true = ground arith in
      let c : (t == 0) ≡ false = ground arith in
      let d : (t == t) ≡ true = ground arith in
      let e : (s == t) ≡ false = ground arith in rw (a, b, c, d, e) (omega arith)

  pub indexed_lem :
      let h0 = run ctx.emitted h in
      let k = riscv_log2_pow2 (nf_count ctx.word) in
      k < 4
      → h0.csr csr_vtype < word64
      → read (run (emit_indexed ctx s t).emitted h) s
        ≡ read h0 s * 2 ^ (h0.csr csr_vtype / 8 % 8 + k) % word64
  unfolding emit_indexed run execute
  indexed_lem small vtype =
      let k = riscv_log2_pow2 (nf_count ctx.word) in
      let v = (run ctx.emitted h).csr csr_vtype in
      let a : (s == 0) ≡ false = ground arith in
      let b : (s == s) ≡ true = ground arith in
      let c : (t == 0) ≡ false = ground arith in
      let d : (t == t) ≡ true = ground arith in
      let e : (s == t) ≡ false = ground arith in
      let f : sx12 k ≡ k = ground (arith, small) in
      let g = bit_and-mask 3 (v % word64 / 2 ^ 3 % word64) in
      elim (Bool-cases (k == 0)) [
        | inl none ↦
            let zero_k : k ≡ 0 = ground arith in
            let exponent : v / 8 % 8 + 0 ≡ v % word64 / 2 ^ 3 % word64 % 8 % word64 % 64 =
              omega (arith, vtype) in
            rw (none, zero_k, a, b, c, d, e, exponent) (rw g refl)
        | inr more ↦
            let exponent : v / 8 % 8 + k
                ≡ (v % word64 / 2 ^ 3 % word64 % 8 % word64 + k) % word64 % 64 =
              omega (arith, vtype, small) in
            rw (more, a, b, c, d, e, f, exponent) (rw g refl)
      ]
