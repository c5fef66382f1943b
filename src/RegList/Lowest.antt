-- ===== src/RegList/Lowest.antt =====
-- The counting of the registers of a list, and the lowest of them.
use mambo.Base.{
  ℕ, zero, suc, ◌+◌, ◌-◌, ◌^◌, ◌≤◌, ◌<◌, ◌≡◌, ◌∙◌, refl, ap, sym, true, false, List, [], ◌∷◌, ltb,
  if◌then◌else◌, length, length-set, get_or, get_or-set_self, get_or-set_ne, min, arith, ok, inl,
  inr, ◌⊎◌,
}
use mambo.RegList.{reg_invalid, next_reg_in_list, lowest_rounds, get_lowest_n_regs, count_bits}
use mambo.RegList.Members.{digit-cases, members, next_loop_lem, ones-members, count_loop_lem}

length-members-le : (left r i : ℕ) → length (members left r i) ≤ left
unfolding members
length-members-le zero r i = omega arith
length-members-le (suc left) r i =
    let rest = length-members-le left r (suc i) in
    elim (digit-cases i r) [
      | inl out ↦ rw out (omega (arith, rest))
      | inr there ↦ rw there (omega (arith, rest))
    ]

-- No member from s on, or a first one with those behind it.
members-cases :
    (k s r : ℕ)
    → k ≡ 32 - s
    → (members k r s ≡ [])
      ⊎ ((x : ℕ) × (x < 32) × (members k r s ≡ x ∷ members (32 - suc x) r (suc x)))
unfolding members
members-cases zero s r e = inl refl
members-cases (suc k) s r e =
    let next : k ≡ 32 - suc s = omega arith in
    elim (digit-cases s r) [
      | inl out ↦ rw out (members-cases k (suc s) r next)
      | inr there ↦ rw there (inr (s, omega arith, ap (λ n. s ∷ members n r (suc s)) next))
    ]

-- The register that a round takes, and what is left of the list.
round-cases :
    (r s : ℕ)
    → let reg = next_reg_in_list r s in
      ((members (32 - s) r s ≡ []) × (reg ≡ 32))
      ⊎ ((reg < 32) × (members (32 - s) r s ≡ reg ∷ members (32 - suc reg) r (suc reg)))
unfolding next_reg_in_list
round-cases r s =
    let first = next_loop_lem (32 - s) r s in
    elim (members-cases (32 - s) s r refl) [
      | inl empty ↦ inl (empty, first ∙ ap (λ ms. get_or ms 0 reg_invalid) empty)
      | inr (x, low, more) ↦
          let here = first ∙ ap (λ ms. get_or ms 0 reg_invalid) more in rw here (inr (low, more))
    ]

tail-at :
    (r s t : ℕ)
    → let reg = next_reg_in_list r s in
      get_or (members (32 - suc reg) r (suc reg)) t reg_invalid
      ≡ get_or (members (32 - s) r s) (suc t) reg_invalid
unfolding members
tail-at r s t = elim (round-cases r s) [
  | inl (empty, none) ↦ rw (none, empty) refl
  | inr (low, more) ↦ sym (ap (λ ms. get_or ms (suc t) reg_invalid) more)
]

tail-count :
    (r s left count : ℕ)
    → let reg = next_reg_in_list r s in
      (if ltb reg reg_invalid then suc count else count)
        + min left (length (members (32 - suc reg) r (suc reg)))
      ≡ count + min (suc left) (length (members (32 - s) r s))
unfolding members
tail-count r s left count = elim (round-cases r s) [
  | inl (empty, none) ↦ rw (none, empty) (omega arith)
  | inr (low, more) ↦
      let test : ltb (next_reg_in_list r s) 32 ≡ true = ground arith in
      rw test (omega (arith, ap length more))
]

rounds-count :
    (left i s r : ℕ) (regs : List ℕ) (count : ℕ)
    → (lowest_rounds left i s r regs count).0 ≡ count + min left (length (members (32 - s) r s))
unfolding lowest_rounds
rounds-count zero i s r regs count = omega arith
rounds-count (suc left) i s r regs count =
    rounds-count left (suc i) _ r _ _ ∙ tail-count r s left count

rounds-before :
    (left i s r : ℕ) (regs : List ℕ) (count j : ℕ)
    → j < i
    → get_or (lowest_rounds left i s r regs count).1 j 0 ≡ get_or regs j 0
unfolding lowest_rounds
rounds-before zero i s r regs count j h = refl
rounds-before (suc left) i s r regs count j h =
    rounds-before left (suc i) _ r _ _ j (omega arith) ∙ get_or-set_ne regs i j _ 0 (ground arith)

rounds-at :
    (left i s r : ℕ) (regs : List ℕ) (count t : ℕ)
    → i + left ≤ length regs
    → t < left
    → get_or (lowest_rounds left i s r regs count).1 (i + t) 0
      ≡ get_or (members (32 - s) r s) t reg_invalid
unfolding lowest_rounds next_reg_in_list
rounds-at zero i s r regs count t h l = absurd (omega arith)
rounds-at (suc left) i s r regs count zero h l =
    ap (λ n. get_or (lowest_rounds (suc left) i s r regs count).1 n 0) (omega arith)
    ∙ rounds-before left (suc i) _ r _ _ i (omega arith)
    ∙ get_or-set_self regs i _ 0 (omega arith)
    ∙ next_loop_lem (32 - s) r s
rounds-at (suc left) i s r regs count (suc t) h l =
    ap (λ n. get_or (lowest_rounds (suc left) i s r regs count).1 n 0) (omega arith)
    ∙ rounds-at left (suc i) _ r _ _ t (omega (arith, length-set regs i (next_reg_in_list r s)))
        (omega arith)
    ∙ tail-at r s t

lowest-from_start :
    (r : ℕ) (regs : List ℕ) (n : ℕ)
    → n ≤ length regs
    → ((get_lowest_n_regs r regs n).0 ≡ min n (length (members 32 r 0)))
      × ((i : ℕ)
          → i < n
          → get_or (get_lowest_n_regs r regs n).1 i 0 ≡ get_or (members 32 r 0) i reg_invalid)
unfolding get_lowest_n_regs
lowest-from_start r regs zero room = (omega arith, λ i h. absurd (omega arith))
lowest-from_start r regs (suc n) room =
    let some : ltb (suc n) 1 ≡ false = ground arith in
    rw some (
      rounds-count (suc n) 0 0 r regs 0 ∙ omega arith,
      λ i h.
          ap (λ k. get_or (lowest_rounds (suc n) 0 0 r regs 0).1 k 0) (omega arith)
          ∙ rounds-at (suc n) 0 0 r regs 0 i (omega (arith, room)) h,
    )

-- For a list below 2^32, count_bits returns the number of its registers with any fuel above 32;
-- and for an array of at least n entries, get_lowest_n_regs returns the smaller of n and that
-- number, and the first n entries become the registers in ascending order, then reg_invalid.
pub get_lowest_n_regs_lem :
    (reglist : ℕ)
    → reglist < 2 ^ 32
    → ((fuel : ℕ) → 32 < fuel → count_bits fuel reglist ≡ ok (length (members 32 reglist 0)))
      × ((regs : List ℕ) (n : ℕ)
          → n ≤ length regs
          → ((get_lowest_n_regs reglist regs n).0 ≡ min n (length (members 32 reglist 0)))
            × ((i : ℕ)
                → i < n
                → get_or (get_lowest_n_regs reglist regs n).1 i 0
                  ≡ get_or (members 32 reglist 0) i reg_invalid))
unfolding count_bits get_lowest_n_regs
get_lowest_n_regs_lem reglist h = (
  λ fuel enough.
      let number = ones-members 32 reglist in
      count_loop_lem fuel 32 reglist 0 h (omega (arith, number, length-members-le 32 reglist 0))
      ∙ ap ok (omega (arith, number)),
  λ regs n room. lowest-from_start reglist regs n room,
)
