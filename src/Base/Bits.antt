-- ===== src/Base/Bits.antt =====
-- Bounds of `&` at variables, from the digit recursion that the native operation stands for.
use Prim.Native.Nat.{
  ℕ, zero, suc, ◌+◌, ◌-◌, ◌*◌, ◌/◌, ◌%◌, ◌^◌, ◌≤◌, ◌<◌, min, max, bit_and, bit_or, bit_xor, digits,
  differ, bit_and-bitwise, bit_or-bitwise, bit_xor-bitwise,
}
use mathlib.Core.Path.{◌≡◌, refl, ap, ◌∙◌}
use mathlib.Core.Logic.{inl, inr}
use mambo.Base.Tests.{Bool-cases, ltb}
use native.Mathlib.Nat.{
  two-pow-succ, one-le-pow, div-add-mod, mod-lt, mod-eq_of_lt, add-mul-mod_self_left,
}
use native.Mathlib.Omega.{arith}

-- The binary recursion of a bitwise operation; `rest` is what it gives beside a number that is used up.
module _ (rest : ℕ → ℕ) (op : ℕ → ℕ → ℕ) where
  spare_round : (n a b : ℕ) → a ≤ n → digits rest op (suc n) a b ≡ digits rest op n a b
  spare_round zero zero b h = refl
  spare_round (suc n) zero b h = refl
  spare_round zero (suc a) b h = absurd (omega arith)
  spare_round (suc n) (suc a) b h = omega (arith, spare_round n (suc a / 2) (b / 2) (omega arith))

  enough_rounds : (n a b : ℕ) → a ≤ n → digits rest op n a b ≡ digits rest op a a b
  enough_rounds zero zero b h = refl
  enough_rounds zero (suc a) b h = absurd (omega arith)
  enough_rounds (suc n) a b h = elim (Bool-cases (ltb n a)) [
    | inl last ↦ let e : a ≡ suc n = ground arith in rw e refl
    | inr early ↦ spare_round n a b (ground arith) ∙ enough_rounds n a b (ground arith)
  ]

  digits_step :
      (a b : ℕ)
      → digits rest op (suc a) (suc a) b
        ≡ digits rest op (suc a / 2) (suc a / 2) (b / 2) * 2 + op (suc a % 2) (b % 2)
  digits_step a b = omega (arith, enough_rounds a (suc a / 2) (b / 2) (omega arith))

-- The lowest digit, and the digits above it.
pub bit_and_step : (x y : ℕ) → bit_and x y ≡ min (x % 2) (y % 2) + 2 * bit_and (x / 2) (y / 2)
bit_and_step zero y = omega (arith, bit_and-bitwise 0 y, bit_and-bitwise 0 (y / 2))
bit_and_step (suc k) y =
    let one_round = digits_step (λ b. zero) min k y in
    omega (arith, one_round, bit_and-bitwise (suc k) y, bit_and-bitwise (suc k / 2) (y / 2))

bit_and-le_fuel : (n a b : ℕ) → a ≤ n → bit_and a b ≤ b
bit_and-le_fuel zero zero b h = omega (arith, bit_and-bitwise 0 b)
bit_and-le_fuel zero (suc a) b h = absurd (omega arith)
bit_and-le_fuel (suc n) zero b h = omega (arith, bit_and-bitwise 0 b)
bit_and-le_fuel (suc n) (suc a) b h =
    omega (arith, bit_and_step (suc a) b, bit_and-le_fuel n (suc a / 2) (b / 2) (omega arith))

pub bit_and-le_right : (a b : ℕ) → bit_and a b ≤ b
bit_and-le_right a b = bit_and-le_fuel a a b (omega arith)

-- The remainder by twice p, from the remainder of the half by p.
mod_double : (a p : ℕ) → 0 < p → a % (2 * p) ≡ 2 * (a / 2 % p) + a % 2
mod_double a p h =
    let q = a / 2 / p in
    let r = 2 * (a / 2 % p) + a % 2 in
    let parts : p * q + a / 2 % p ≡ a / 2 = div-add-mod (a / 2) p in
    let twice : 2 * p * q ≡ 2 * (p * q) = omega arith in
    let whole : a ≡ r + 2 * p * q = omega (arith, parts, twice) in
    let small : r < 2 * p = omega (arith, mod-lt (a / 2) h) in
    ap (λ n. n % (2 * p)) whole ∙ add-mul-mod_self_left r (2 * p) q ∙ mod-eq_of_lt small

-- A mask of k ones takes the remainder by 2 ^ k.
pub bit_and-mask : (k a : ℕ) → bit_and a (2 ^ k - 1) ≡ a % 2 ^ k
bit_and-mask zero a = omega (arith, bit_and-le_right a 0)
bit_and-mask (suc k) a =
    let double = two-pow-succ k in
    let positive = one-le-pow k 2 (omega arith) in
    let halved : (2 ^ suc k - 1) / 2 ≡ 2 ^ k - 1 = omega (arith, double) in
    let odd : (2 ^ suc k - 1) % 2 ≡ 1 = omega (arith, double) in
    let twice : 2 ^ suc k ≡ 2 * 2 ^ k = omega (arith, double) in
    bit_and_step a (2 ^ suc k - 1)
    ∙ omega (
      arith,
      ap (bit_and (a / 2)) halved,
      odd,
      bit_and-mask k (a / 2),
      mod_double a (2 ^ k) positive,
      ap (λ n. a % n) twice,
    )

pub zero-bit_xor : (b : ℕ) → bit_xor 0 b ≡ b
zero-bit_xor b = bit_xor-bitwise 0 b

pub bit_xor_step : (a b : ℕ) → bit_xor a b ≡ bit_xor (a / 2) (b / 2) * 2 + differ (a % 2) (b % 2)
bit_xor_step zero b = omega (arith, zero-bit_xor b, zero-bit_xor (b / 2))
bit_xor_step (suc a) b =
    let one_round = digits_step (λ b. b) differ a b in
    omega (arith, one_round, bit_xor-bitwise (suc a) b, bit_xor-bitwise (suc a / 2) (b / 2))

differ-zero : (x : ℕ) → differ x 0 ≡ x
differ-zero zero = refl
differ-zero (suc x) = refl

differ_self : (x : ℕ) → differ x x ≡ 0
differ_self zero = refl
differ_self (suc x) = differ_self x

bit_xor_self_fuel : (n a : ℕ) → a ≤ n → bit_xor a a ≡ 0
bit_xor_self_fuel n zero h = zero-bit_xor 0
bit_xor_self_fuel zero (suc a) h = absurd (omega arith)
bit_xor_self_fuel (suc n) (suc a) h = omega (
  arith,
  bit_xor_step (suc a) (suc a),
  bit_xor_self_fuel n (suc a / 2) (omega arith),
  differ_self (suc a % 2),
)

pub bit_xor_self : (a : ℕ) → bit_xor a a ≡ 0
bit_xor_self a = bit_xor_self_fuel a a (omega arith)

-- The low k digits stay, if the second number has none.
pub bit_xor_high :
    (k a b v : ℕ) → v < 2 ^ k → bit_xor (a * 2 ^ k + v) (b * 2 ^ k) ≡ bit_xor a b * 2 ^ k + v
bit_xor_high zero a b v h =
    let a' : a * 2 ^ 0 + v ≡ a = omega arith in
    let b' : b * 2 ^ 0 ≡ b = omega arith in rw (a', b') (omega arith)
bit_xor_high (suc k) a b v h =
    let double = two-pow-succ k in
    let p = 2 ^ k in
    let ap' = ap (λ (t : ℕ). a * t) double in
    let bp = ap (λ (t : ℕ). b * t) double in
    let rp = ap (λ (t : ℕ). bit_xor a b * t) double in
    let x = a * 2 ^ suc k + v in
    let y = b * 2 ^ suc k in
    let x_half : x / 2 ≡ a * p + v / 2 = omega (arith, ap') in
    let y_half : y / 2 ≡ b * p = omega (arith, bp) in
    let x_odd : x % 2 ≡ v % 2 = omega (arith, ap') in
    let y_even : y % 2 ≡ 0 = omega (arith, bp) in
    let ih = bit_xor_high k a b (v / 2) (omega (arith, double)) in
    let low : differ (x % 2) (y % 2) ≡ v % 2 = rw (x_odd, y_even) (differ-zero (v % 2)) in
    let high : bit_xor (x / 2) (y / 2) ≡ bit_xor a b * p + v / 2 = rw (x_half, y_half) ih in
    bit_xor_step x y ∙ omega (arith, low, high, rp)

zero-bit_or : (b : ℕ) → bit_or 0 b ≡ b
zero-bit_or b = bit_or-bitwise 0 b

bit_or_step : (a b : ℕ) → bit_or a b ≡ bit_or (a / 2) (b / 2) * 2 + max (a % 2) (b % 2)
bit_or_step zero b = omega (arith, zero-bit_or b, zero-bit_or (b / 2))
bit_or_step (suc a) b =
    let one_round = digits_step (λ b. b) max a b in
    omega (arith, one_round, bit_or-bitwise (suc a) b, bit_or-bitwise (suc a / 2) (b / 2))

bit_or-zero_fuel : (n a : ℕ) → a ≤ n → bit_or a 0 ≡ a
bit_or-zero_fuel zero zero h = zero-bit_or 0
bit_or-zero_fuel zero (suc a) h = absurd (omega arith)
bit_or-zero_fuel (suc n) zero h = zero-bit_or 0
bit_or-zero_fuel (suc n) (suc a) h =
    omega (arith, bit_or_step (suc a) 0, bit_or-zero_fuel n (suc a / 2) (omega arith))

-- Fields that share no bit are added.
pub bit_or_disjoint : (k a b : ℕ) → b < 2 ^ k → bit_or (a * 2 ^ k) b ≡ a * 2 ^ k + b
bit_or_disjoint zero a b h =
    let none : b ≡ 0 = omega (arith, h) in
    let same : a * 2 ^ 0 ≡ a = omega arith in
    rw (none, same) (bit_or-zero_fuel a a (omega arith) ∙ omega arith)
bit_or_disjoint (suc k) a b h =
    let p = 2 ^ k in
    let double : 2 ^ suc k ≡ 2 * p = omega (arith, two-pow-succ k) in
    let whole : a * 2 ^ suc k ≡ 2 * (a * p) = rw double (omega arith) in
    let halved : a * 2 ^ suc k / 2 ≡ a * p = omega (arith, whole) in
    omega (
      arith,
      bit_or_step (a * 2 ^ suc k) b,
      ap (λ x. bit_or x (b / 2)) halved,
      bit_or_disjoint k a (b / 2) (omega (arith, double, h)),
      whole,
    )
