-- ===== src/Dispatch/Order.antt =====
-- The slots that `find_slots` takes lie one behind the other on the way to the target, and apart.
use mambo.Base.{
  ℕ, zero, suc, ◌+◌, ◌≤◌, ◌<◌, ◌≡◌, ◌≢◌, ◌∙◌, sym, ap, true, Option, none, some, List, [], ◌∷◌,
  length, ltb, arith, inl, inr, Bool-cases, Option-cases,
}
use mambo.Riscv.{word64}
use mambo.Dbm.{Meta, Thread, Sizes}
use mambo.Dbm.Cache.{meta_at}
use mambo.Dispatch.Trampolines.{
  candidate, usable, riscv_find_trampoline_slot, find_slots, next_target, riscv_jal_can_reach,
}
use mambo.Dispatch.Machine.{Apart}
use mambo.Dispatch.Slots.{riscv_find_trampoline_slot_lem}

-- Strictly on the way.
abbrev pub Between : ℕ → ℕ → ℕ → Type 0
Between source target at =
    (source < target → (source < at) × (at < target))
    × (target ≤ source → (target < at) × (at < source))

usable-Between :
    (meta : Meta) (source target : ℕ)
    → usable meta source target ≡ true
    → (meta.trampoline_addr ≢ 0)
      × Between source target (candidate meta)
      × (riscv_jal_can_reach (candidate meta) target ≡ true)
unfolding usable
usable-Between meta source target h = ground arith

module _ (c : Sizes) (t : Thread) where
  abbrev pub InCache : ℕ → Type 0
  InCache i = (c.trampolines_size_bbs ≤ i) × (i < t.free_block)

  -- The free slots of different blocks do not overlap.
  abbrev pub Spaced : Type 0
  Spaced =
      (i j : ℕ)
      → InCache i
      → InCache j
      → i ≢ j
      → (meta_at t i).trampoline_addr ≢ 0
      → (meta_at t j).trampoline_addr ≢ 0
      → Apart (candidate (meta_at t i)) (candidate (meta_at t j))

  -- The jump at `source` overlaps no free slot.
  abbrev pub Clear : ℕ → Type 0
  Clear source =
      (i : ℕ)
      → InCache i
      → (meta_at t i).trampoline_addr ≢ 0
      → Apart source (candidate (meta_at t i))

  module _ (source target : ℕ) where
    abbrev pub IsSlot : ℕ → ℕ → ℕ → Type 0
    IsSlot next i at =
        InCache i × (at ≡ candidate (meta_at t i)) × (usable (meta_at t i) source next ≡ true)

    abbrev pub Placed : List (ℕ × ℕ) → Type 0
    Placed [] = Unit {0}
    Placed ((i, at) ∷ slots) = IsSlot (next_target target slots) i at × Placed slots

    abbrev pub PlacedNear : ℕ → Option (List (ℕ × ℕ)) → Type 0
    PlacedNear n none = Unit {0}
    PlacedNear n (some slots) =
        Placed slots
        × (riscv_jal_can_reach source (next_target target slots) ≡ true)
        × (length slots ≤ n)

    pub find_slots-Placed :
        (left : ℕ) (slots : List (ℕ × ℕ))
        → c.trampolines_size_bbs ≤ t.free_block
        → Placed slots
        → PlacedNear
            (length slots + left)
            (find_slots c left t source (next_target target slots) slots)
    unfolding find_slots
    find_slots-Placed zero slots h placed =
        elim (Bool-cases (riscv_jal_can_reach source (next_target target slots))) [
          | inl near ↦ rw near (placed, near, omega arith)
          | inr far ↦ rw far tt
        ]
    find_slots-Placed (suc left) slots h placed =
        let next = next_target target slots in
        let chosen = riscv_find_trampoline_slot_lem c t source next h in
        elim (Bool-cases (riscv_jal_can_reach source next)) [
          | inl near ↦ rw near (placed, near, omega arith)
          | inr far ↦ elim (Option-cases (riscv_find_trampoline_slot c t source next)) [
            | inl none_left ↦ rw (far, none_left) tt
            | inr ((i, at), found) ↦
                let (l, u, e, good, nearest) = rw found at chosen in
                let size : length slots + suc left ≡ suc (length slots) + left = omega arith in
                rw (far, found, size)
                  (find_slots-Placed left ((i, at) ∷ slots) h (((l, u), e, good), placed))
          ]
        ]

    pub slot_lem :
        (next i at : ℕ)
        → IsSlot next i at
        → Between source next at
          × (riscv_jal_can_reach at next ≡ true)
          × ((meta_at t i).trampoline_addr ≢ 0)
    slot_lem next i at (range, e, good) =
        let (there, between, reach) = usable-Between (meta_at t i) source next good in
        (rw e between, rw e reach, there)

    -- The head of the chain lies on the way, at the target at most.
    abbrev pub OnTheWay : ℕ → Type 0
    OnTheWay next =
        (source < target → (source < next) × (next ≤ target))
        × (target ≤ source → (target ≤ next) × (next ≤ source))

    pub head-OnTheWay : (slots : List (ℕ × ℕ)) → Placed slots → OnTheWay (next_target target slots)
    head-OnTheWay [] placed = (λ h. omega arith, λ h. omega arith)
    head-OnTheWay ((i, at) ∷ slots) (slot, placed) =
        let (ahead, behind) = head-OnTheWay slots placed in
        let ((up, down), reach, there) = slot_lem (next_target target slots) i at slot in
        (
          λ h. omega (arith, ahead h, up (ahead h).0),
          λ h. omega (arith, behind h, down (behind h).1),
        )

    -- The later slots, which stand first, lie between the source and the earlier ones.
    abbrev pub AllPast : ℕ → List (ℕ × ℕ) → Type 0
    AllPast next [] = Unit {0}
    AllPast next ((i, at) ∷ slots) =
        ((source < target → next ≤ at) × (target ≤ source → at ≤ next)) × AllPast next slots

    AllPast-trans :
        (next next' : ℕ) (slots : List (ℕ × ℕ))
        → (source < target → next ≤ next')
        → (target ≤ source → next' ≤ next)
        → AllPast next' slots
        → AllPast next slots
    AllPast-trans next next' [] up down past = tt
    AllPast-trans next next' ((i, at) ∷ slots) up down ((f, g), past) = (
      (λ h. omega (arith, f h, up h), λ h. omega (arith, g h, down h)),
      AllPast-trans next next' slots up down past,
    )

    pub head-AllPast :
        (slots : List (ℕ × ℕ)) → Placed slots → AllPast (next_target target slots) slots
    head-AllPast [] placed = tt
    head-AllPast ((i, at) ∷ slots) (slot, placed) =
        let (ahead, behind) = head-OnTheWay slots placed in
        let ((up, down), reach, there) = slot_lem (next_target target slots) i at slot in
        (
          (λ h. omega arith, λ h. omega arith),
          AllPast-trans at (next_target target slots) slots (λ h. omega (arith, up (ahead h).0))
              (λ h. omega (arith, down (behind h).1)) (head-AllPast slots placed),
        )

    abbrev pub AllApart : ℕ → List (ℕ × ℕ) → Type 0
    AllApart at [] = Unit {0}
    AllApart at ((j, b) ∷ slots) = Apart at b × AllApart at slots

    pub Clear-AllApart :
        (pc : ℕ) (slots : List (ℕ × ℕ)) → Clear pc → Placed slots → AllApart pc slots
    Clear-AllApart pc [] clear placed = tt
    Clear-AllApart pc ((i, at) ∷ slots) clear (slot, placed) =
        let (range, e, good) = slot in
        let (between, reach, there) = slot_lem (next_target target slots) i at slot in
        (rw e (clear i range there), Clear-AllApart pc slots clear placed)

    pub slot-AllApart :
        (next i at : ℕ) (rest : List (ℕ × ℕ))
        → Spaced
        → OnTheWay next
        → IsSlot next i at
        → Placed rest
        → AllPast next rest
        → AllApart at rest
    slot-AllApart next i at [] spaced way slot placed past = tt
    slot-AllApart next i at ((j, b) ∷ rest) spaced way slot (other, placed) ((f, g), past) =
        let (range, e, good) = slot in
        let (range', e', good') = other in
        let ((up, down), reach, there) = slot_lem next i at slot in
        let (between', reach', there') = slot_lem (next_target target rest) j b other in
        let ne : i ≢ j = λ p.
          let same : at ≡ b = e ∙ ap (λ k. candidate (meta_at t k)) p ∙ sym e' in
          elim (Bool-cases (ltb source target)) [
            | inl forward ↦
                let h : source < target = ground arith in
                omega (arith, (up (way.0 h).0).1, f h, same)
            | inr backward ↦
                let h : target ≤ source = ground arith in
                omega (arith, (down (way.1 h).1).0, g h, same)
          ] in
        (
          rw (e, e') (spaced i j range range' ne there there'),
          slot-AllApart next i at rest spaced way slot placed past,
        )

    pub OnTheWay-small :
        (next : ℕ) → source < word64 → target < word64 → OnTheWay next → next < word64
    OnTheWay-small next h l (up, down) = elim (Bool-cases (ltb source target)) [
      | inl forward ↦ let f : source < target = ground arith in omega (arith, up f)
      | inr backward ↦ let b : target ≤ source = ground arith in omega (arith, down b)
    ]
