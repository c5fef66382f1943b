-- ===== src/RegList.antt =====
-- common.c: lists of registers, one bit for each, in a build for RISC-V (32 registers).
pub mod Members
pub mod Lowest
mod Tests
use mambo.Base.{ℕ, zero, suc, ◌-◌, ◌^◌, ◌==◌, if◌then◌else◌, not, Outcome, List, set, ltb, ok, hang}
use Prim.Native.Nat.{bit_and}

abbrev pub reg_invalid : ℕ
reg_invalid = 32

-- The registers that are left are the fuel.
unfoldable pub next_loop : ℕ → ℕ → ℕ → ℕ
next_loop zero reglist start = reg_invalid
next_loop (suc left) reglist start =
    let rest = next_loop left reglist (suc start) in
    if not (bit_and reglist (2 ^ start) == 0) then start else rest

unfoldable pub next_reg_in_list : ℕ → ℕ → ℕ
next_reg_in_list reglist start = next_loop (32 - start) reglist start

-- Round `i`, with `left` rounds to come; `start` is `prev + 1`.
unfoldable pub lowest_rounds : ℕ → ℕ → ℕ → ℕ → List ℕ → ℕ → ℕ × List ℕ
lowest_rounds zero i start reglist regs count = (count, regs)
lowest_rounds (suc left) i start reglist regs count =
    let reg = next_reg_in_list reglist start in
    let found = if ltb reg reg_invalid then suc count else count in
    lowest_rounds left (suc i) (suc reg) reglist (set regs i reg) found

-- A negative `n` does what 0 does.
unfoldable pub get_lowest_n_regs : ℕ → List ℕ → ℕ → ℕ × List ℕ
get_lowest_n_regs reglist regs n = if ltb n 1 then (0, regs) else lowest_rounds n 0 0 reglist regs 0

unfoldable pub count_loop : ℕ → ℕ → ℕ → Outcome ℕ
count_loop zero n c = hang
count_loop (suc fuel) n c =
    let rest = count_loop fuel (bit_and n (n - 1)) (suc c) in if n == 0 then ok c else rest

unfoldable pub count_bits : ℕ → ℕ → Outcome ℕ
count_bits fuel n = count_loop fuel n 0
