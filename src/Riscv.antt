-- ===== src/Riscv.antt =====
-- scanner_public.h and arch/riscv/scanner_riscv.c: bit fields, sign extension, and the immediates
-- of RISC-V branches, jumps and compressed stack accesses. A 64-bit word is a number below 2 ^ 64.
pub mod Words
pub mod Immediates
pub mod Compressed
pub mod Stack
pub mod Pairs
pub mod Emit
mod Tests
use Prim.Native.Nat.{bit_and, bit_xor}
use mambo.Base.{
  ℕ, zero, suc, ◌+◌, ◌-◌, ◌*◌, ◌/◌, ◌%◌, ◌^◌, Bool, not, ◌||◌, Option, none, some, ltb, ◌==◌,
  if◌then◌else◌, ℤ, pos, negsuc,
}
use mambo.Base.Int.{ltb_ℤ}

abbrev pub word64 : ℕ
word64 = 2 ^ 64

-- The conversions between `intptr_t` (or a sign-extended `int`) and `uintptr_t`.
abbrev pub to_word : ℤ → ℕ
to_word (pos n) = n % word64
to_word (negsuc n) = word64 - 1 - n % word64

abbrev pub to_signed : ℕ → ℤ
to_signed w = if ltb w (2 ^ 63) then pos w else negsuc (word64 - 1 - w)

-- The conversion of an `intptr_t` word to `int`.
abbrev pub to_int : ℕ → ℤ
to_int w = let v = w % 2 ^ 32 in if ltb v (2 ^ 31) then pos v else negsuc (2 ^ 32 - 1 - v)

pub extr : ℕ → ℕ → ℕ → ℕ
extr bits position from = bit_and (from / 2 ^ position) (2 ^ bits - 1)

-- `(value + C) ^ C` with `C = (-1) << (bits - 1)`
pub sign_extend : ℕ → ℕ → ℕ
sign_extend bits value = let c = word64 - 2 ^ (bits - 1) in bit_xor ((value + c) % word64) c

unfoldable riscv_decode_cj_imm : ℕ → ℕ
riscv_decode_cj_imm imm = sign_extend 12 (
    extr 3 1 imm * 2 ^ 1
    + extr 1 9 imm * 2 ^ 4
    + extr 1 0 imm * 2 ^ 5
    + extr 1 5 imm * 2 ^ 6
    + extr 1 4 imm * 2 ^ 7
    + extr 2 7 imm * 2 ^ 8
    + extr 1 6 imm * 2 ^ 10
    + extr 1 10 imm * 2 ^ 11)

pub riscv_decode_cb_offset : ℕ → ℕ → ℕ
riscv_decode_cb_offset immhi immlo = sign_extend 9 (
    extr 2 1 immlo * 2 ^ 1
    + extr 2 0 immhi * 2 ^ 3
    + extr 1 0 immlo * 2 ^ 5
    + extr 2 3 immlo * 2 ^ 6
    + extr 1 2 immhi * 2 ^ 8)

pub riscv_decode_b_imm : ℕ → ℕ → ℕ
riscv_decode_b_imm immhi immlo = sign_extend 13 (
    extr 4 1 immlo * 2 ^ 1
    + extr 6 0 immhi * 2 ^ 5
    + extr 1 0 immlo * 2 ^ 11
    + extr 1 6 immhi * 2 ^ 12)

pub riscv_decode_j_imm : ℕ → ℕ
riscv_decode_j_imm imm =
    sign_extend 21 (
      extr 10 9 imm * 2 ^ 1
      + extr 1 8 imm * 2 ^ 11
      + extr 8 0 imm * 2 ^ 12
      + extr 1 19 imm * 2 ^ 20)

-- `riscv_imm_pair_t`
pub record ImmPair : Type 0 where
  pub immhi : ℕ
  pub immlo : ℕ

-- `offset & mask` as a test
abbrev pub masked : ℕ → ℕ → Bool
masked word mask = not (bit_and word mask == 0)

-- `offset < -n || offset >= n`
abbrev pub outside : ℕ → ℤ → Bool
outside n offset = ltb_ℤ offset (negsuc (n - 1)) || not (ltb_ℤ offset (pos n))

-- The functions that fill a pair return none for -1.
pub riscv_create_cb_imm_pair : ℤ → Option ImmPair
riscv_create_cb_imm_pair offset =
    let w = to_word offset in
    if masked w 1 || outside 256 offset
    then none
    else some (record {
      immlo = extr 2 6 w * 2 ^ 4 + extr 2 1 w * 2 ^ 1 + extr 1 5 w;
      immhi = extr 1 8 w * 2 ^ 2 + extr 2 3 w;
    })

pub riscv_create_b_imm_pair : ℤ → Option ImmPair
riscv_create_b_imm_pair offset =
    let w = to_word offset in
    if masked w 1 || outside 4096 offset
    then none
    else some (record {
      immlo = extr 1 11 w + extr 4 1 w * 2 ^ 1;
      immhi = extr 6 5 w + extr 1 12 w * 2 ^ 6;
    })

pub riscv_create_clwsp_imm_pair : ℕ → Option ImmPair
riscv_create_clwsp_imm_pair offset =
    if masked offset 3 || ltb 0xff offset
    then none
    else some
        (record { immhi = extr 1 5 offset; immlo = extr 2 6 offset + extr 3 2 offset * 2 ^ 2 })

pub riscv_create_cldsp_imm_pair : ℕ → Option ImmPair
riscv_create_cldsp_imm_pair offset =
    if masked offset 7 || ltb 0x1ff offset
    then none
    else some
        (record { immhi = extr 1 5 offset; immlo = extr 3 6 offset + extr 2 3 offset * 2 ^ 3 })

pub riscv_create_c_addi16sp_pair : ℤ → Option ImmPair
riscv_create_c_addi16sp_pair offset =
    let w = to_word offset in
    if masked w 0xf || outside 512 offset
    then none
    else some (record {
      immhi = extr 1 9 w;
      immlo = extr 1 4 w * 2 ^ 4 + extr 1 6 w * 2 ^ 3 + extr 2 7 w * 2 ^ 1 + extr 1 5 w;
    })
