-- ===== src/LoadStore/A64.antt =====
-- `_a64_is_load_or_store` and `_a64_get_ld_st_size` of api/load_store.c. The word that is read and the
-- fields that the generated decoders find in it are parameters.
use mambo.Base.{
  ℕ, ◌+◌, ◌*◌, ◌%◌, ◌^◌, Bool, true, false, ◌&&◌, ◌||◌, ◌==◌, if◌then◌else◌, ℤ, pos, minus_one,
  Outcome, ok, abort, ◌>>=◌,
}
use Prim.Native.Nat.{◌/◌}

-- The instructions of the decoder that the file names; `other` stands for the rest.
pub data A64Inst : Type 0 where
  ldr_lit : A64Inst
  ldx_stx : A64Inst
  ldp_stp : A64Inst
  ldx_stx_multiple : A64Inst
  ldx_stx_multiple_post : A64Inst
  ldx_stx_single : A64Inst
  ldx_stx_single_post : A64Inst
  ldr_str_immed : A64Inst
  ldr_str_reg : A64Inst
  ldr_str_unsigned_immed : A64Inst
  ldadd : A64Inst
  ldclr : A64Inst
  ldeor : A64Inst
  ldset : A64Inst
  swp : A64Inst
  other : A64Inst

-- The word, and the fields of the decoder that a case calls; no case calls two.
pub record A64Fields : Type 0 where
  pub word : ℕ
  pub sz : ℕ
  pub v : ℕ
  pub opc : ℕ
  pub o1 : ℕ
  pub q : ℕ
  pub r : ℕ
  pub op : ℕ

abbrev pub is_prefetch_lit : A64Fields → Bool
is_prefetch_lit f = (f.opc == 3) && (f.v == 0)

abbrev pub is_prefetch : A64Fields → Bool
is_prefetch f = (f.sz == 3) && (f.v == 0) && (f.opc == 2)

abbrev by_load_bit : A64Fields → Bool × Bool
by_load_bit f = if f.word / 2 ^ 22 % 2 == 1 then (true, false) else (false, true)

abbrev pub by_opc_bits : A64Fields → Bool × Bool
by_opc_bits f =
    if is_prefetch f
    then (false, false)
    else if f.word / 2 ^ 22 % 4 == 0
    then (false, true)
    else (true, false)

-- What the function leaves in `*is_load` and `*is_store`.
unfoldable pub a64_is_load_or_store : A64Inst → A64Fields → Bool × Bool
a64_is_load_or_store A64Inst.ldr_lit f = if is_prefetch_lit f then (false, false) else (true, false)
a64_is_load_or_store A64Inst.ldx_stx f = by_load_bit f
a64_is_load_or_store A64Inst.ldp_stp f = by_load_bit f
a64_is_load_or_store A64Inst.ldx_stx_multiple f = by_load_bit f
a64_is_load_or_store A64Inst.ldx_stx_multiple_post f = by_load_bit f
a64_is_load_or_store A64Inst.ldx_stx_single f = by_load_bit f
a64_is_load_or_store A64Inst.ldx_stx_single_post f = by_load_bit f
a64_is_load_or_store A64Inst.ldr_str_immed f = by_opc_bits f
a64_is_load_or_store A64Inst.ldr_str_reg f = by_opc_bits f
a64_is_load_or_store A64Inst.ldr_str_unsigned_immed f = by_opc_bits f
a64_is_load_or_store A64Inst.ldadd f = (true, true)
a64_is_load_or_store A64Inst.ldclr f = (true, true)
a64_is_load_or_store A64Inst.ldeor f = (true, true)
a64_is_load_or_store A64Inst.ldset f = (true, true)
a64_is_load_or_store A64Inst.swp f = (true, true)
a64_is_load_or_store A64Inst.other f = (false, false)

-- The registers that LD1 to LD4 and ST1 to ST4 transfer.
unfoldable pub multiple_regs : ℕ → Outcome ℕ
multiple_regs op =
    if (op == 0) || (op == 2)
    then ok 4
    else if (op == 4) || (op == 6)
    then ok 3
    else if (op == 8) || (op == 10)
    then ok 2
    else if op == 7
    then ok 1
    else abort

unfoldable pub single_scale : ℕ → ℕ → ℕ
single_scale op sz =
    if op / 2 == 3 then sz else if (op / 2 == 2) && (sz % 2 == 1) then 3 else op / 2

abbrev ldr_str_size : A64Fields → ℕ
ldr_str_size f = if f.v == 0 then 2 ^ f.sz else 2 ^ (f.sz + f.opc / 2 * 4)

-- The `r` of `(((op & 1) << 1) | r) + 1` is one bit.
abbrev single_size : A64Fields → ℕ
single_size f = 2 ^ single_scale f.op f.sz * (f.op % 2 * 2 + f.r + 1)

abbrev multiple_size : A64Fields → Outcome ℤ
multiple_size f = multiple_regs f.op >>= λ regs. ok (pos (regs * (8 * 2 ^ f.q)))

unfoldable pub a64_get_ld_st_size : A64Inst → A64Fields → Outcome ℤ
a64_get_ld_st_size A64Inst.ldr_lit f =
    ok (pos (if f.v == 0 then 4 * 2 ^ (f.opc % 2) else 4 * 2 ^ f.opc))
a64_get_ld_st_size A64Inst.ldp_stp f =
    ok (pos (if f.v == 0 then 8 * 2 ^ (f.opc / 2) else 8 * 2 ^ f.opc))
a64_get_ld_st_size A64Inst.ldr_str_reg f = ok (pos (ldr_str_size f))
a64_get_ld_st_size A64Inst.ldr_str_immed f = ok (pos (ldr_str_size f))
a64_get_ld_st_size A64Inst.ldr_str_unsigned_immed f = ok (pos (ldr_str_size f))
a64_get_ld_st_size A64Inst.ldx_stx f = ok (pos (2 ^ (f.sz + f.o1)))
a64_get_ld_st_size A64Inst.ldx_stx_multiple f = multiple_size f
a64_get_ld_st_size A64Inst.ldx_stx_multiple_post f = multiple_size f
a64_get_ld_st_size A64Inst.ldx_stx_single f = ok (pos (single_size f))
a64_get_ld_st_size A64Inst.ldx_stx_single_post f = ok (pos (single_size f))
a64_get_ld_st_size A64Inst.ldadd f = ok (pos (2 ^ f.sz))
a64_get_ld_st_size A64Inst.ldclr f = ok (pos (2 ^ f.sz))
a64_get_ld_st_size A64Inst.ldeor f = ok (pos (2 ^ f.sz))
a64_get_ld_st_size A64Inst.ldset f = ok (pos (2 ^ f.sz))
a64_get_ld_st_size A64Inst.swp f = ok (pos (2 ^ f.sz))
a64_get_ld_st_size A64Inst.other f = ok minus_one
