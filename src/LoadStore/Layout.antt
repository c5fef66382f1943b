-- ===== src/LoadStore/Layout.antt =====
-- The offsets of api/load_store.c against the RISC-V manual's layout of the immediates.
use mambo.Base.{
  ℕ, zero, suc, ◌+◌, ◌-◌, ◌*◌, ◌/◌, ◌%◌, ◌^◌, ◌<◌, ◌≡◌, refl, sym, ◌∙◌, ap, Bool, true, ◌&&◌, ltb,
  ◌==◌, ==_iff, if◌then◌else◌, arith, Bool-cases, inl, inr,
}
use Prim.Native.Nat.{bit_or}
use mambo.Base.Bits.{bit_or_disjoint}
use mambo.Riscv.Words.{sign_extend_lem}
use mambo.LoadStore.Offsets.{
  c_word_offset, c_doubleword_offset, c_spword_load_offset, c_spdoubleword_load_offset,
  c_spword_store_offset, c_spdoubleword_store_offset, store_offset, load_offset,
}

-- A test of every number below a bound.
abbrev all_below : (ℕ → Bool) → ℕ → Bool
all_below p zero = true
all_below p (suc n) = p n && all_below p n

all_below_lem : (p : ℕ → Bool) (n i : ℕ) → all_below p n ≡ true → i < n → p i ≡ true
all_below_lem p zero i all h = absurd (omega arith)
all_below_lem p (suc n) i all h = elim (Bool-cases (p n)) [
  | inr fails ↦ ground (arith, all, fails)
  | inl here ↦ elim (Bool-cases (i == n)) [
    | inl same ↦ let e : i ≡ n = ground arith in rw e here
    | inr other ↦ all_below_lem p n i (sym (ap (λ b. b && all_below p n) here) ∙ all) (ground arith)
  ]
]

-- A 12-bit field with its sign extended to 32 bits.
abbrev signed_field : ℕ → ℕ
signed_field field = if ltb field 2048 then field else 2 ^ 32 - 4096 + field

-- The fields that the manual gives an offset, by the numbers of its bits.
abbrev word_lo : ℕ → ℕ
word_lo offset = offset / 4 % 2 * 2 + offset / 64 % 2

abbrev pub spword_lo : ℕ → ℕ
spword_lo offset = offset / 4 % 8 * 4 + offset / 64 % 4

abbrev pub spdoubleword_lo : ℕ → ℕ
spdoubleword_lo offset = offset / 8 % 4 * 8 + offset / 64 % 8

abbrev spword_store_field : ℕ → ℕ
spword_store_field offset = offset / 4 % 16 * 4 + offset / 64 % 4

abbrev spdoubleword_store_field : ℕ → ℕ
spdoubleword_store_field offset = offset / 8 % 8 * 8 + offset / 64 % 8

c_word_table :
    all_below (λ i. (c_word_offset (4 * i / 8 % 8) (word_lo (4 * i))) == (4 * i)) 32 ≡ true
unfolding c_word_offset
c_word_table = refl

c_doubleword_table :
    all_below (λ i. (c_doubleword_offset (8 * i / 8 % 8) (8 * i / 64 % 4)) == (8 * i)) 32 ≡ true
unfolding c_doubleword_offset
c_doubleword_table = refl

spword_load_table :
    all_below (λ i. (c_spword_load_offset (4 * i / 32 % 2) (spword_lo (4 * i))) == (4 * i)) 64
    ≡ true
unfolding c_spword_load_offset
spword_load_table = refl

spdoubleword_load_table :
    all_below
      (λ i. (c_spdoubleword_load_offset (8 * i / 32 % 2) (spdoubleword_lo (8 * i))) == (8 * i))
      64
    ≡ true
unfolding c_spdoubleword_load_offset
spdoubleword_load_table = refl

spword_store_table :
    all_below
      (λ i. (c_spword_store_offset (spword_store_field (4 * i))) == (4 * i - 4 * i / 32 % 2 * 32))
      64
    ≡ true
unfolding c_spword_store_offset
spword_store_table = refl

spdoubleword_store_table :
    all_below
      (λ i.
        (c_spdoubleword_store_offset (spdoubleword_store_field (8 * i)))
        == (8 * i - 8 * i / 32 % 2 * 32))
      64
    ≡ true
unfolding c_spdoubleword_store_offset
spdoubleword_store_table = refl

load_lem : (i : ℕ) → i < 4096 → load_offset i ≡ signed_field i
unfolding load_offset
load_lem i h =
    rw (sign_extend_lem 11 (2 ^ 53 - 1) i refl (omega arith) (omega arith)) (ground arith)

store_lem : (i : ℕ) → i < 4096 → store_offset (i / 32) (i % 32) ≡ signed_field i
unfolding store_offset
store_lem i h =
    let joined : bit_or (i / 32 * 2 ^ 5) (i % 32) ≡ i =
      bit_or_disjoint 5 (i / 32) (i % 32) (omega arith) ∙ omega arith in
    rw (joined, sign_extend_lem 11 (2 ^ 53 - 1) i refl (omega arith) (omega arith)) (ground arith)

by_table :
    (f g : ℕ → ℕ) (n : ℕ) → all_below (λ i. f i == g i) n ≡ true → (i : ℕ) → i < n → f i ≡ g i
by_table f g n all i h = (==_iff (f i) (g i)).0 (all_below_lem (λ j. f j == g j) n i all h)

-- With the fields that the manual's layout gives an offset, the functions for compressed loads and
-- stores by register and for loads by the stack pointer give the offset, below their limits of 32
-- words, 32 doublewords, 64 words and 64 doublewords; those for stores by the stack pointer give it
-- without its bit 5, below 64 words and 64 doublewords; and those for 12-bit fields extend the sign.
pub riscv_offsets :
    ((i : ℕ)
      → i < 32
      → (c_word_offset (4 * i / 8 % 8) (word_lo (4 * i)) ≡ 4 * i)
        × (c_doubleword_offset (8 * i / 8 % 8) (8 * i / 64 % 4) ≡ 8 * i))
    × ((i : ℕ)
        → i < 64
        → (c_spword_load_offset (4 * i / 32 % 2) (spword_lo (4 * i)) ≡ 4 * i)
          × (c_spdoubleword_load_offset (8 * i / 32 % 2) (spdoubleword_lo (8 * i)) ≡ 8 * i))
    × ((i : ℕ)
        → i < 64
        → (c_spword_store_offset (spword_store_field (4 * i)) ≡ 4 * i - 4 * i / 32 % 2 * 32)
          × (c_spdoubleword_store_offset (spdoubleword_store_field (8 * i))
              ≡ 8 * i - 8 * i / 32 % 2 * 32))
    × ((i : ℕ)
        → i < 4096
        → (store_offset (i / 32) (i % 32) ≡ signed_field i) × (load_offset i ≡ signed_field i))
riscv_offsets = (
  λ i h. (
    by_table (λ j. c_word_offset (4 * j / 8 % 8) (word_lo (4 * j))) (λ j. 4 * j) 32 c_word_table i
        h,
    by_table (λ j. c_doubleword_offset (8 * j / 8 % 8) (8 * j / 64 % 4)) (λ j. 8 * j) 32
        c_doubleword_table i h,
  ),
  λ i h. (
    by_table (λ j. c_spword_load_offset (4 * j / 32 % 2) (spword_lo (4 * j))) (λ j. 4 * j) 64
        spword_load_table i h,
    by_table (λ j. c_spdoubleword_load_offset (8 * j / 32 % 2) (spdoubleword_lo (8 * j)))
        (λ j. 8 * j) 64 spdoubleword_load_table i h,
  ),
  λ i h. (
    by_table (λ j. c_spword_store_offset (spword_store_field (4 * j)))
        (λ j. 4 * j - 4 * j / 32 % 2 * 32) 64 spword_store_table i h,
    by_table (λ j. c_spdoubleword_store_offset (spdoubleword_store_field (8 * j)))
        (λ j. 8 * j - 8 * j / 32 % 2 * 32) 64 spdoubleword_store_table i h,
  ),
  λ i h. (store_lem i h, load_lem i h),
)
