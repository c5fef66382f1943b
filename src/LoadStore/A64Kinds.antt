-- ===== src/LoadStore/A64Kinds.antt =====
-- Loads and stores of A64, against the manual.
use mambo.Base.{
  ℕ, ◌*◌, ◌%◌, ◌^◌, ◌<◌, ◌≡◌, refl, sym, ◌∙◌, Option, none, some, ltb, Bool, true, false, not, ◌&&◌,
  ◌||◌, ◌==◌, if◌then◌else◌, arith, inl, inr, Bool-cases, pos, ok, Returns,
}
use mathlib.Core.Bool.{true≢false}
use Prim.Native.Nat.{◌/◌}
use mambo.Base.Int.{is_negative}
use mambo.LoadStore.A64.{
  A64Inst, A64Fields, is_prefetch, is_prefetch_lit, by_opc_bits, a64_is_load_or_store,
  multiple_regs, a64_get_ld_st_size,
}

-- LDR and STR of one register.
abbrev pub is_ldr_str : A64Inst → Bool
is_ldr_str A64Inst.ldr_str_immed = true
is_ldr_str A64Inst.ldr_str_reg = true
is_ldr_str A64Inst.ldr_str_unsigned_immed = true
is_ldr_str _ = false

abbrev pub is_multiple : A64Inst → Bool
is_multiple A64Inst.ldx_stx_multiple = true
is_multiple A64Inst.ldx_stx_multiple_post = true
is_multiple _ = false

abbrev pub prefetches : A64Inst → A64Fields → Bool
prefetches A64Inst.ldr_lit f = is_prefetch_lit f
prefetches inst f = is_ldr_str inst && is_prefetch f

-- The manual's table of `size`, `V` and `opc`, as a load and a store; none for what is unallocated.
-- PRFM and PRFUM, general registers with size 3 and opc 2, are neither.
abbrev pub manual : A64Fields → Option (Bool × Bool)
manual f =
    if f.v == 0
    then (if f.opc == 0
        then some (false, true)
        else if f.opc == 1
        then some (true, false)
        else if f.opc == 2
        then some (not (f.sz == 3), false)
        else if ltb f.sz 2
        then some (true, false)
        else none)
    else if f.opc == 0
    then some (false, true)
    else if f.opc == 1
    then some (true, false)
    else if f.sz == 0
    then (if f.opc == 2 then some (false, true) else some (true, false))
    else none

abbrev either : Bool × Bool → Bool
either kind = kind.0 || kind.1

abbrev pub a64_accesses : A64Inst → A64Fields → Bool
a64_accesses inst f = either (a64_is_load_or_store inst f)

-- The store of a 128-bit vector register.
abbrev pub stores_128_bits : A64Fields → Bool
stores_128_bits f = (f.v == 1) && (f.opc == 2) && (f.sz == 0)

-- What is known of the fields: `opc` is in bits 23 and 22 of the word, and the fields have their widths.
pub record Decoded (f : A64Fields) : Type 0 where
  pub opc_bits : f.word / 2 ^ 22 % 4 ≡ f.opc
  pub v_bit : f.v < 2
  pub sz_bits : f.sz < 4

opc_bits_lem :
    (f : A64Fields) (kind : Bool × Bool)
    → Decoded f
    → manual f ≡ some kind
    → stores_128_bits f ≡ false
    → by_opc_bits f ≡ kind
opc_bits_lem f kind d e ne =
    let bits = d.opc_bits in
    let v = d.v_bit in
    let sz = d.sz_bits in
    let same : some kind ≡ some (by_opc_bits f) = sym e ∙ rw bits (ground (arith, e)) in cc

stores_128_lem :
    (f : A64Fields) (kind : Bool × Bool)
    → Decoded f
    → manual f ≡ some kind
    → stores_128_bits f ≡ true
    → (by_opc_bits f ≡ (true, false)) × (kind ≡ (false, true))
stores_128_lem f kind d e store =
    let v : f.v ≡ 1 = ground arith in
    let opc : f.opc ≡ 2 = ground arith in
    let sz : f.sz ≡ 0 = ground arith in
    let e' : some (false, true) ≡ some kind = rw (v, opc, sz) at e in
    (rw (d.opc_bits, v, opc, sz) refl, cc)

-- The values of `opcode` for LD1 to LD4 and ST1 to ST4.
abbrev pub is_allocated : ℕ → Bool
is_allocated op =
    (op == 0) || (op == 2) || (op == 4) || (op == 6) || (op == 7) || (op == 8) || (op == 10)

regs_returned : (op : ℕ) → is_allocated op ≡ true → (regs : ℕ) × (multiple_regs op ≡ ok regs)
unfolding multiple_regs
regs_returned op h = elim (Bool-cases ((op == 0) || (op == 2))) [
  | inl e ↦ (4, rw e refl)
  | inr n ↦ elim (Bool-cases ((op == 4) || (op == 6))) [
    | inl e ↦ (3, rw (n, e) refl)
    | inr n₁ ↦ elim (Bool-cases ((op == 8) || (op == 10))) [
      | inl e ↦ (2, rw (n, n₁, e) refl)
      | inr n₂ ↦ let last : (op == 7) ≡ true = ground arith in (1, rw (n, n₁, n₂, last) refl)
    ]
  ]
]

total_lit : (b : Bool) → false ≡ not (either (if b then (false, false) else (true, false)) || b)
total_lit true = refl
total_lit false = refl

total_bit : (b : Bool) → false ≡ not (either (if b then (true, false) else (false, true)) || false)
total_bit true = refl
total_bit false = refl

total_opc :
    (a b : Bool)
    → false
      ≡ not (either (if a then (false, false) else if b then (false, true) else (true, false)) || a)
total_opc true b = refl
total_opc false true = refl
total_opc false false = refl

-- For an instruction that is no LD1 to ST4 of whole structures, or that has an opcode of these,
-- _a64_get_ld_st_size returns, and knows a size exactly if the instruction loads, stores or prefetches.
size_returned :
    (inst : A64Inst) (f : A64Fields)
    → (not (is_multiple inst) || is_allocated f.op) ≡ true
    → Returns
        (a64_get_ld_st_size inst f)
        λ size. is_negative size ≡ not (a64_accesses inst f || prefetches inst f)
unfolding a64_get_ld_st_size a64_is_load_or_store
size_returned A64Inst.ldr_lit f h = (_, refl, total_lit (is_prefetch_lit f))
size_returned A64Inst.ldx_stx f h = (_, refl, total_bit (f.word / 2 ^ 22 % 2 == 1))
size_returned A64Inst.ldp_stp f h = (_, refl, total_bit (f.word / 2 ^ 22 % 2 == 1))
size_returned A64Inst.ldx_stx_multiple f h =
    let (regs, e) = regs_returned f.op h in
    (pos (regs * (8 * 2 ^ f.q)), rw e refl, total_bit (f.word / 2 ^ 22 % 2 == 1))
size_returned A64Inst.ldx_stx_multiple_post f h =
    let (regs, e) = regs_returned f.op h in
    (pos (regs * (8 * 2 ^ f.q)), rw e refl, total_bit (f.word / 2 ^ 22 % 2 == 1))
size_returned A64Inst.ldx_stx_single f h = (_, refl, total_bit (f.word / 2 ^ 22 % 2 == 1))
size_returned A64Inst.ldx_stx_single_post f h = (_, refl, total_bit (f.word / 2 ^ 22 % 2 == 1))
size_returned A64Inst.ldr_str_immed f h =
    (_, refl, total_opc (is_prefetch f) (f.word / 2 ^ 22 % 4 == 0))
size_returned A64Inst.ldr_str_reg f h =
    (_, refl, total_opc (is_prefetch f) (f.word / 2 ^ 22 % 4 == 0))
size_returned A64Inst.ldr_str_unsigned_immed f h =
    (_, refl, total_opc (is_prefetch f) (f.word / 2 ^ 22 % 4 == 0))
size_returned A64Inst.ldadd f h = (_, refl, refl)
size_returned A64Inst.ldclr f h = (_, refl, refl)
size_returned A64Inst.ldeor f h = (_, refl, refl)
size_returned A64Inst.ldset f h = (_, refl, refl)
size_returned A64Inst.swp f h = (_, refl, refl)
size_returned A64Inst.other f h = (_, refl, refl)

-- For LDR and STR of one register with decoded fields, and a kind that the manual gives them: but for
-- the stores of a 128-bit register, _a64_is_load_or_store says load and store as the manual does; for
-- these, it says that the instruction loads, and the manual that it stores.
pub ldr_str_kinds :
    (inst : A64Inst) (f : A64Fields) (kind : Bool × Bool)
    → is_ldr_str inst ≡ true
    → Decoded f
    → manual f ≡ some kind
    → (stores_128_bits f ≡ false → a64_is_load_or_store inst f ≡ kind)
      × (stores_128_bits f ≡ true
          → (a64_is_load_or_store inst f ≡ (true, false)) × (kind ≡ (false, true)))
unfolding a64_is_load_or_store
ldr_str_kinds A64Inst.ldr_str_immed f kind h d e =
    (opc_bits_lem f kind d e, stores_128_lem f kind d e)
ldr_str_kinds A64Inst.ldr_str_reg f kind h d e =
    (opc_bits_lem f kind d e, stores_128_lem f kind d e)
ldr_str_kinds A64Inst.ldr_str_unsigned_immed f kind h d e =
    (opc_bits_lem f kind d e, stores_128_lem f kind d e)
ldr_str_kinds _ f kind h d e = absurd (true≢false (sym h))
