-- ===== src/Dispatch/Slots.antt =====
-- The slot that `riscv_find_trampoline_slot` chooses, and the slots of a chain.
use mambo.Base.{
  ℕ, zero, suc, ◌+◌, ◌-◌, ◌≤◌, ◌<◌, ◌≡◌, ◌⊎◌, refl, Bool, true, false, Option, none, some, ltb,
  ◌==◌, if◌then◌else◌, arith, inl, inr, Bool-cases,
}
use mambo.Dbm.{Thread, Sizes}
use mambo.Dbm.Cache.{meta_at}
use mambo.Dispatch.Trampolines.{
  candidate, usable, slot_round, slot_rounds, riscv_find_trampoline_slot,
}

-- `a` is no farther from the source than `b`, both being on the way to the target.
abbrev pub Nearer : ℕ → ℕ → ℕ → ℕ → Type 0
Nearer source target a b = (source < target → a ≤ b) × (target ≤ source → b ≤ a)

-- The usable slot nearest to the source, of the blocks from `lo` up to `hi`.
abbrev pub Nearest : Thread → ℕ → ℕ → ℕ → ℕ → Option (ℕ × ℕ) → Type 0
Nearest t source target lo hi none =
    (j : ℕ) → lo ≤ j → j < hi → usable (meta_at t j) source target ≡ false
Nearest t source target lo hi (some (i, at)) =
    (lo ≤ i)
    × (i < hi)
    × (at ≡ candidate (meta_at t i))
    × (usable (meta_at t i) source target ≡ true)
    × ((j : ℕ)
        → lo ≤ j
        → j < hi
        → usable (meta_at t j) source target ≡ true
        → Nearer source target at (candidate (meta_at t j)))

last_or_before : (j i : ℕ) → j < suc i → (j ≡ i) ⊎ (j < i)
last_or_before j i h = elim (Bool-cases (j == i)) [
  | inl same ↦ inl (ground arith)
  | inr other ↦ inr (ground arith)
]

Nearer-self : (source target a : ℕ) → Nearer source target a a
Nearer-self source target a = (λ h. omega arith, λ h. omega arith)

abbrev better : ℕ → ℕ → ℕ → ℕ → Bool
better source target at best_addr = if ltb source target then ltb at best_addr else ltb best_addr at

better-Nearer : (source target a b : ℕ) → better source target a b ≡ true → Nearer source target a b
better-Nearer source target a b h = ground arith

worse-Nearer : (source target a b : ℕ) → better source target a b ≡ false → Nearer source target b a
worse-Nearer source target a b h = ground arith

Nearer-trans :
    (source target a b c : ℕ)
    → Nearer source target a b
    → Nearer source target b c
    → Nearer source target a c
Nearer-trans source target a b c (f, g) (f', g') =
    (λ h. omega (arith, f h, f' h), λ h. omega (arith, g h, g' h))

module _ (t : Thread) (source target lo : ℕ) where
  slot_round-Nearest :
      (i : ℕ) (best : Option (ℕ × ℕ))
      → lo ≤ i
      → Nearest t source target lo i best
      → Nearest t source target lo (suc i) (slot_round t source target i best)
  unfolding slot_round
  slot_round-Nearest i none h all = elim (Bool-cases (usable (meta_at t i) source target)) [
    | inl good ↦ rw good (
      h,
      omega arith,
      refl,
      good,
      λ j l u g. elim (last_or_before j i u) [
        | inl e ↦ rw e (Nearer-self source target (candidate (meta_at t i)))
        | inr low ↦ let no = all j l low in cc
      ],
    )
    | inr bad ↦
        rw bad λ j l u. elim (last_or_before j i u) [ inl e ↦ rw e bad | inr low ↦ all j l low ]
  ]
  slot_round-Nearest i (some (j, at)) h (l, u, e, good, near) =
      let here = candidate (meta_at t i) in
      elim (Bool-cases (usable (meta_at t i) source target)) [
        | inl fits ↦ elim (Bool-cases (better source target here at)) [
          | inl closer ↦
              let gain = better-Nearer source target here at closer in
              rw (fits, closer)
                (
                  h,
                  omega arith,
                  refl,
                  fits,
                  λ k l' u' g. elim (last_or_before k i u') [
                    | inl e' ↦ rw e' (Nearer-self source target here)
                    | inr low ↦ Nearer-trans source target here at _ gain (near k l' low g)
                  ],
                )
          | inr farther ↦
              let loss = worse-Nearer source target here at farther in
              rw (fits, farther)
                (
                  l,
                  omega arith,
                  e,
                  good,
                  λ k l' u' g. elim (last_or_before k i u') [
                    | inl e' ↦ rw e' loss
                    | inr low ↦ near k l' low g
                  ],
                )
        ]
        | inr bad ↦ rw bad (
          l,
          omega arith,
          e,
          good,
          λ k l' u' g. elim (last_or_before k i u') [
            | inl e' ↦ let no = rw e' at g in cc
            | inr low ↦ near k l' low g
          ],
        )
      ]

  slot_rounds-Nearest :
      (left i : ℕ) (best : Option (ℕ × ℕ))
      → lo ≤ i
      → Nearest t source target lo i best
      → Nearest t source target lo (left + i) (slot_rounds left t source target i best)
  unfolding slot_rounds
  slot_rounds-Nearest zero i best h near = let e : 0 + i ≡ i = omega arith in rw e near
  slot_rounds-Nearest (suc left) i best h near =
      let e : suc left + i ≡ left + suc i = omega arith in
      rw e (
        slot_rounds-Nearest left (suc i) (slot_round t source target i best) (omega arith)
          (slot_round-Nearest i best h near))

-- riscv_find_trampoline_slot gives the usable slot that is nearest to the source, and none only if
-- no block of the cache has a usable one.
pub riscv_find_trampoline_slot_lem :
    (c : Sizes) (t : Thread) (source target : ℕ)
    → c.trampolines_size_bbs ≤ t.free_block
    → Nearest t source target c.trampolines_size_bbs t.free_block
        (riscv_find_trampoline_slot c t source target)
unfolding riscv_find_trampoline_slot
riscv_find_trampoline_slot_lem c t source target h =
    let lo = c.trampolines_size_bbs in
    let e : t.free_block - lo + lo ≡ t.free_block = omega arith in
    rw e at (
      slot_rounds-Nearest t source target lo (t.free_block - lo) lo none (omega arith)
        (λ j l u. absurd (omega arith)))
