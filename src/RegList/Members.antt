-- ===== src/RegList/Members.antt =====
-- A list of registers as the sequence of its members.
use mambo.Base.{
  ℕ, zero, suc, ◌+◌, ◌-◌, ◌*◌, ◌/◌, ◌%◌, ◌^◌, ◌<◌, ◌≡◌, ◌∙◌, refl, ap, sym, true, false, List, [],
  ◌∷◌, ◌==◌, if◌then◌else◌, length, get_or, arith, ok, inl, inr, Bool-cases, ◌⊎◌,
}
use mambo.Base.Bits.{bit_and_step, bit_and-le_right}
use Prim.Native.Nat.{bit_and}
use mambo.RegList.{reg_invalid, next_loop, count_loop}
use native.Mathlib.Nat.{two-pow-succ, one-le-pow}

-- Whether register i is in the list.
abbrev pub digit : ℕ → ℕ → ℕ
digit zero reglist = reglist % 2
digit (suc i) reglist = digit i (reglist / 2)

-- The members among `left` registers from i on.
unfoldable pub members : ℕ → ℕ → ℕ → List ℕ
members zero reglist i = []
members (suc left) reglist i =
    let rest = members left reglist (suc i) in if digit i reglist == 1 then i ∷ rest else rest

bit_and-zero : (r : ℕ) → bit_and r 0 ≡ 0
bit_and-zero r = omega (arith, bit_and-le_right r 0)

pub digit-cases : (i r : ℕ) → (digit i r ≡ 0) ⊎ (digit i r ≡ 1)
digit-cases zero r = elim (Bool-cases (r % 2 == 0)) [
  | inl even ↦ inl (ground arith)
  | inr odd ↦ inr (ground arith)
]
digit-cases (suc i) r = digit-cases i (r / 2)

bit_and-power : (i r : ℕ) → bit_and r (2 ^ i) ≡ digit i r * 2 ^ i
bit_and-power zero r = omega (arith, bit_and_step r 1, bit_and-zero (r / 2))
bit_and-power (suc i) r =
    let double = two-pow-succ i in
    let halved : 2 ^ suc i / 2 ≡ 2 ^ i = omega (arith, double) in
    let even : 2 ^ suc i % 2 ≡ 0 = omega (arith, double) in
    bit_and_step r (2 ^ suc i)
    ∙ rw (even, halved, bit_and-power i (r / 2), double)
        (elim (digit-cases i (r / 2)) [ inl z ↦ rw z (omega arith) | inr o ↦ rw o (omega arith) ])

pub next_loop_lem : (left r i : ℕ) → next_loop left r i ≡ get_or (members left r i) 0 reg_invalid
unfolding next_loop members
next_loop_lem zero r i = refl
next_loop_lem (suc left) r i = elim (digit-cases i r) [
  | inl out ↦
      let none : (bit_and r (2 ^ i) == 0) ≡ true =
        let value : bit_and r (2 ^ i) ≡ 0 =
          bit_and-power i r ∙ ap (λ d. d * 2 ^ i) out ∙ omega arith in
        rw value refl in
      rw (none, out) (next_loop_lem left r (suc i))
  | inr there ↦
      let above = one-le-pow i 2 (omega arith) in
      let some : (bit_and r (2 ^ i) == 0) ≡ false =
        let value : bit_and r (2 ^ i) ≡ 2 ^ i =
          bit_and-power i r ∙ ap (λ d. d * 2 ^ i) there ∙ omega arith in
        rw value (ground arith) in
      rw (some, there) refl
]

pub ones : ℕ → ℕ → ℕ
ones zero n = 0
ones (suc k) n = n % 2 + ones k (n / 2)

bit_and_self : (k n : ℕ) → n < 2 ^ k → bit_and n n ≡ n
bit_and_self zero n h = let e : n ≡ 0 = omega arith in rw e (bit_and-zero 0)
bit_and_self (suc k) n h = omega (
  arith,
  two-pow-succ k,
  bit_and_step n n,
  bit_and_self k (n / 2) (omega (arith, two-pow-succ k)),
)

-- The lowest bit is cleared.
ones-clear : (k n : ℕ) → n < 2 ^ k → 0 < n → suc (ones k (bit_and n (n - 1))) ≡ ones k n
unfolding ones
ones-clear zero n h p = absurd (omega arith)
ones-clear (suc k) n h p =
    let step = bit_and_step n (n - 1) in
    let double = two-pow-succ k in
    elim (Bool-cases (n % 2 == 0)) [
      | inl even ↦
          let half : (n - 1) / 2 ≡ n / 2 - 1 = ground arith in
          let halves = ap (bit_and (n / 2)) half in
          let low : bit_and n (n - 1) % 2 ≡ 0 = ground arith in
          let high : bit_and n (n - 1) / 2 ≡ bit_and (n / 2) (n / 2 - 1) = ground arith in
          let rest = ones-clear k (n / 2) (ground arith) (ground arith) in
          let zero_digit : n % 2 ≡ 0 = ground arith in
          omega (arith, low, ap (ones k) high, rest, zero_digit)
      | inr odd ↦
          let half : (n - 1) / 2 ≡ n / 2 = ground arith in
          let halves = ap (bit_and (n / 2)) half in
          let same = bit_and_self k (n / 2) (ground arith) in
          let low : bit_and n (n - 1) % 2 ≡ 0 = ground arith in
          let high : bit_and n (n - 1) / 2 ≡ n / 2 = ground arith in
          let one : n % 2 ≡ 1 = ground arith in omega (arith, low, ap (ones k) high, one)
    ]

ones-zero : (k : ℕ) → ones k 0 ≡ 0
unfolding ones
ones-zero zero = refl
ones-zero (suc k) = omega (arith, ones-zero k)

pub count_loop_lem :
    (fuel k n c : ℕ) → n < 2 ^ k → ones k n < fuel → count_loop fuel n c ≡ ok (c + ones k n)
unfolding count_loop
count_loop_lem zero k n c h enough = absurd (omega arith)
count_loop_lem (suc fuel) k n c h enough = elim (Bool-cases (n == 0)) [
  | inl end ↦ let e : n ≡ 0 = ground arith in rw (end, e, ones-zero k) (ap ok (omega arith))
  | inr more ↦
      let one = ones-clear k n h (ground arith) in
      let below = bit_and-le_right n (n - 1) in
      rw more (
        count_loop_lem fuel k (bit_and n (n - 1)) (suc c) (omega arith) (omega arith)
        ∙ ap ok (omega arith))
]

length-members : (left r i : ℕ) → length (members left r (suc i)) ≡ length (members left (r / 2) i)
unfolding members
length-members zero r i = refl
length-members (suc left) r i = elim (digit-cases i (r / 2)) [
  | inl out ↦ rw out (length-members left r (suc i))
  | inr there ↦ rw there (ap suc (length-members left r (suc i)))
]

pub ones-members : (k n : ℕ) → ones k n ≡ length (members k n 0)
unfolding ones members
ones-members zero n = refl
ones-members (suc k) n =
    let rest = ones-members k (n / 2) ∙ sym (length-members k n 0) in
    elim (digit-cases 0 n) [
      | inl out ↦ rw out (omega (arith, rest))
      | inr there ↦ rw there (omega (arith, rest))
    ]
