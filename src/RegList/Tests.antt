-- ===== src/RegList/Tests.antt =====
-- The register lists at x1, x5 and x31.
use mambo.Base.{
  ℕ, ◌+◌, ◌^◌, ◌<◌, ◌≤◌, ◌≡◌, refl, List, [], ◌∷◌, length, min, get_or, replicate, arith, ok,
}
use mambo.RegList.{
  reg_invalid, next_reg_in_list, next_loop, count_bits, count_loop, get_lowest_n_regs,
  lowest_rounds,
}
use mambo.RegList.Members.{members}
use mambo.RegList.Lowest.{get_lowest_n_regs_lem}

abbrev three : ℕ
three = 2 ^ 31 + 2 ^ 5 + 2 ^ 1

lowest_test : get_lowest_n_regs three (replicate 4 7) 4 ≡ (3, 1 ∷ 5 ∷ 31 ∷ 32 ∷ [])
unfolding get_lowest_n_regs lowest_rounds next_reg_in_list next_loop
lowest_test = refl

count_test : count_bits 33 three ≡ ok 3
unfolding count_bits count_loop
count_test = refl

next_test : next_reg_in_list three 6 ≡ 31
unfolding next_reg_in_list next_loop
next_test = refl

get_lowest_n_regs_lem_example :
    ((fuel : ℕ) → 32 < fuel → count_bits fuel three ≡ ok (length (members 32 three 0)))
    × ((regs : List ℕ) (n : ℕ)
        → n ≤ length regs
        → ((get_lowest_n_regs three regs n).0 ≡ min n (length (members 32 three 0)))
          × ((i : ℕ)
              → i < n
              → get_or (get_lowest_n_regs three regs n).1 i 0
                ≡ get_or (members 32 three 0) i reg_invalid))
get_lowest_n_regs_lem_example = get_lowest_n_regs_lem three (omega arith)
