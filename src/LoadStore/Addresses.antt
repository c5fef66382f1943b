-- ===== src/LoadStore/Addresses.antt =====
-- The emitted code computes the address of the access.
use mambo.Base.{
  ℕ, zero, suc, ◌+◌, ◌*◌, ◌%◌, ◌<◌, ◌≡◌, ◌≢◌, refl, sym, true, false, not, ◌||◌, some, ◌==◌,
  if◌then◌else◌, ℤ, pos, negsuc, is_zero, arith, Bool-cases, inl, inr,
}
use mambo.Base.Int.{ltb_ℤ}
use mambo.Riscv.{word64, to_word}
use mambo.Riscv.Emit.Machine.{sx12}
use mambo.LoadStore.Access.{Fields, access, sp}
use mambo.LoadStore.Emit.{
  Context, Emitted, add_count, emit_mov, emit_add_sub_i, generate_addr, riscv_calc_ld_st_addr,
}
use mambo.LoadStore.Run.{Hart, read, execute, run}

-- A 12-bit immediate holds the number.
abbrev pub Reach : ℤ → Type 0
Reach (pos n) = n < 2048
Reach (negsuc n) = n < 2048

sx12-to_word : (offset : ℤ) → Reach offset → sx12 (to_word offset) ≡ to_word offset
sx12-to_word (pos n) h = ground arith
sx12-to_word (negsuc n) h = ground arith

-- One ADDI leaves the sum in its register.
addi_lem :
    (h : Hart) (rd rn : ℕ) (offset : ℤ)
    → rd ≢ 0
    → Reach offset
    → read (execute (Emitted.addi rd rn (to_word offset)) h) rd
      ≡ (read h rn + to_word offset) % word64
unfolding execute
addi_lem h rd rn offset nonzero reach =
    let a : (rd == 0) ≡ false = ground arith in
    let b : (rd == rd) ≡ true = ground arith in rw (a, b, sx12-to_word offset reach) refl

in_range : (t : ℤ) → Reach t → (ltb_ℤ (pos 0x7FF) t || ltb_ℤ t (negsuc 0xFFE)) ≡ false
in_range (pos n) h = ground arith
in_range (negsuc n) h = ground arith

is_zero_pos : (t : ℤ) → is_zero t ≡ true → t ≡ pos 0
is_zero_pos (pos zero) h = refl
is_zero_pos (pos (suc n)) h = ground (arith, h)
is_zero_pos (negsuc n) h = ground (arith, h)

-- Without an offset the register is moved, or stays.
move_lem :
    (ctx : Context) (h : Hart) (rd rn : ℕ)
    → rd ≢ 0
    → read (run ctx.emitted h) rn < word64
    → read (run (if not (rd == rn) then emit_mov ctx rd rn else ctx).emitted h) rd
      ≡ (read (run ctx.emitted h) rn + 0) % word64
unfolding emit_mov run
move_lem ctx h rd rn nonzero small = elim (Bool-cases (rd == rn)) [
  | inl same ↦
      let e : rn ≡ rd = ground arith in
      rw (same, e)
        (let l : read (run ctx.emitted h) rd < word64 = rw (sym e) small in omega (arith, l))
  | inr other ↦ rw other (addi_lem (run ctx.emitted h) rd rn (pos 0) nonzero (omega arith))
]

add_sub_lem :
    (ctx : Context) (h : Hart) (rd rn : ℕ) (offset : ℤ)
    → rd ≢ 0
    → Reach offset
    → read (run ctx.emitted h) rn < word64
    → read (run (emit_add_sub_i ctx rd rn offset).1.emitted h) rd
      ≡ (read (run ctx.emitted h) rn + to_word offset) % word64
unfolding emit_add_sub_i run
add_sub_lem ctx h rd rn offset nonzero reach small = elim (Bool-cases (is_zero offset)) [
  | inl none ↦ let e = is_zero_pos offset none in rw e (move_lem ctx h rd rn nonzero small)
  | inr more ↦
      rw (more, in_range offset reach) (addi_lem (run ctx.emitted h) rd rn offset nonzero reach)
]

too_far :
    (ctx : Context) (rd rn : ℕ) (t : ℤ)
    → ltb_ℤ (pos 0x7FF) t ≡ true
    → (emit_add_sub_i ctx rd rn t).1 ≡ ctx
unfolding emit_add_sub_i
too_far ctx rd rn (pos zero) above = ground (arith, above)
too_far ctx rd rn (pos (suc n)) above = rw above refl
too_far ctx rd rn (negsuc n) above = ground (arith, above)

calc_found :
    (decode_fields : Context → Fields) (ctx : Context) (reg base : ℕ) (offset : ℤ)
    → access (decode_fields ctx) ctx.inst ≡ some (base, offset)
    → riscv_calc_ld_st_addr decode_fields ctx reg ≡ (pos 0, generate_addr ctx reg base offset)
unfolding riscv_calc_ld_st_addr
calc_found decode_fields ctx reg base offset found = rw (riscv_calc_ld_st_addr, found) refl

-- What the address takes on for registers that the plugin pushed.
abbrev pub pushed : Context → ℕ → ℕ
pushed ctx base = if base == sp then ctx.plugin_pushed_reg_count * 8 else 0

-- For an instruction that accesses memory at a base register and an offset, a target register other
-- than x0 and base values below 2 ^ 64: `_riscv_calc_ld_st_addr` returns 0. If a 12-bit immediate
-- holds the offset together with the bytes that the plugin pushed (counted only when the base is the
-- stack pointer), the code emitted so far and the new code leave in the target register the value of
-- the base plus that sum, modulo 2 ^ 64. If the sum is above 0x7FF, nothing is emitted.
pub riscv_calc_ld_st_addr_lem :
    (decode_fields : Context → Fields) (ctx : Context) (h : Hart) (reg base : ℕ) (offset : ℤ)
    → access (decode_fields ctx) ctx.inst ≡ some (base, offset)
    → reg ≢ 0
    → read (run ctx.emitted h) base < word64
    → let (result, after) = riscv_calc_ld_st_addr decode_fields ctx reg in
      let sum = add_count offset (pushed ctx base) in
      (result ≡ pos 0)
      × (Reach sum
          → read (run after.emitted h) reg ≡ (read (run ctx.emitted h) base + to_word sum) % word64)
      × (ltb_ℤ (pos 0x7FF) sum ≡ true → after ≡ ctx)
unfolding generate_addr
riscv_calc_ld_st_addr_lem decode_fields ctx h reg base offset found nonzero small =
    let sum = add_count offset (pushed ctx base) in
    rw (calc_found decode_fields ctx reg base offset found) (
      refl,
      λ reach. add_sub_lem ctx h reg base sum nonzero reach small,
      λ above. too_far ctx reg base sum above,
    )
