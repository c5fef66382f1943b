-- ===== src/Dispatch/Chains.antt =====
-- A chain of jump trampolines leads from its source to its target.
use mambo.Base.{
  ℕ, suc, ◌*◌, ◌≤◌, ◌<◌, ◌≡◌, ◌∙◌, refl, Bool, Option, none, some, List, [], ◌∷◌, length, leb,
  arith, inl, inr, Bool-cases, Option-cases, ok,
}
use mambo.Riscv.{word64}
use mambo.Riscv.Emit.{Instr}
use mambo.Riscv.Emit.Machine.{Cpu}
use mambo.Dbm.{Thread, Sizes}
use mambo.Dbm.Cache.{meta_at, put_meta}
use mambo.Dispatch.Trampolines.{
  find_slots, next_target, used_once_more, fill_slots, riscv_try_jump_trampolines,
  riscv_address_distance,
}
use mambo.Dispatch.Machine.{
  Apart, Lands, Arrives, fetch, steps, fetch-Apart, Lands-Apart, Arrives-Lands, put_jal_lem,
}
use mambo.Dispatch.Order.{
  Spaced, Clear, Placed, AllApart, find_slots-Placed, slot_lem, head-OnTheWay, head-AllPast,
  slot-AllApart, Clear-AllApart, OnTheWay-small,
}

module _ (c : Sizes) (t : Thread) (source target : ℕ) where
  -- What is written jumps from slot to slot.
  abbrev Chained : List (ℕ × Instr) → List (ℕ × ℕ) → Type 0
  Chained code [] = Unit {0}
  Chained code ((i, at) ∷ slots) = Lands code at (next_target target slots) × Chained code slots

  Chained-Apart :
      (code : List (ℕ × Instr)) (at : ℕ) (instr : Instr) (slots : List (ℕ × ℕ))
      → AllApart c t source target at slots
      → Chained code slots
      → Chained ((at, instr) ∷ code) slots
  Chained-Apart code at instr [] apart chain = tt
  Chained-Apart code at instr ((i, b) ∷ slots) (here, apart) (lands, chain) = (
    Lands-Apart code at b (next_target target slots) instr here lands,
    Chained-Apart code at instr slots apart chain,
  )

  Apart-swap : (a b : ℕ) → Apart a b → Apart b a
  Apart-swap a b (inl h) = inr h
  Apart-swap a b (inr h) = inl h

  -- What does not overlap a slot is kept.
  abbrev Kept : List (ℕ × Instr) → List (ℕ × Instr) → List (ℕ × ℕ) → Type 0
  Kept code code₁ slots =
      (pc : ℕ) → AllApart c t source target pc slots → fetch code₁ pc ≡ fetch code pc

  fill_slots-Chained :
      (slots : List (ℕ × ℕ)) (code : List (ℕ × Instr))
      → source < word64
      → target < word64
      → Spaced c t
      → Placed c t source target slots
      → (t₁ : Thread) × (code₁ : List (ℕ × Instr)) × (fill_slots target slots t code
          ≡ ok (t₁, code₁))
        × Chained code₁ slots
        × Kept code code₁ slots
  unfolding fill_slots
  fill_slots-Chained [] code h l spaced placed = (t, code, refl, tt, λ pc apart. refl)
  fill_slots-Chained ((i, at) ∷ slots) code h l spaced (slot, placed) =
      let next = next_target target slots in
      let (t₁, code₁, filled, chain, kept) = fill_slots-Chained slots code h l spaced placed in
      let way = head-OnTheWay c t source target slots placed in
      let way' = head-OnTheWay c t source target ((i, at) ∷ slots) (slot, placed) in
      let (between, reach, there) = slot_lem c t source target next i at slot in
      let (instr, made, lands) =
        put_jal_lem code₁ at next (OnTheWay-small c t source target at h l way')
          (OnTheWay-small c t source target next h l way) reach in
      let past = head-AllPast c t source target slots placed in
      let apart = slot-AllApart c t source target next i at slots spaced way slot placed past in
      (
        put_meta t₁ i (used_once_more (meta_at t₁ i)),
        (at, instr) ∷ code₁,
        rw (filled, made) refl,
        (lands, Chained-Apart code₁ at instr slots apart chain),
        λ pc (away, others). fetch-Apart code₁ at pc instr (Apart-swap pc at away) ∙ kept pc others,
      )

  Chained-Arrives :
      (taken : Cpu → Instr → Bool) (slots : List (ℕ × ℕ)) (code : List (ℕ × Instr)) (cpu : Cpu)
      → Chained code slots
      → cpu.pc ≡ next_target target slots
      → Arrives taken (length slots) code cpu target
  unfolding steps
  Chained-Arrives taken [] code cpu chain here = (cpu, refl, here, λ r h. refl)
  Chained-Arrives taken ((i, at) ∷ slots) code cpu (lands, chain) here =
      Arrives-Lands taken (length slots) code cpu (next_target target slots) target (rw here lands)
        λ cpu₁ there. Chained-Arrives taken slots code cpu₁ chain there

-- The outcome of riscv_try_jump_trampolines: where a chain is made, a processor at the source is at
-- the target after nine instructions at most.
abbrev pub Reaches :
    Sizes → Thread → List (ℕ × Instr) → ℕ → ℕ → Option (Thread × List (ℕ × Instr)) → Type 0
Reaches c t code source target none = Unit {0}
Reaches c t code source target (some (t₁, code₁)) =
    ((taken : Cpu → Instr → Bool) (cpu : Cpu)
      → cpu.pc ≡ source
      → (n : ℕ) × (n ≤ 9) × Arrives taken n code₁ cpu target)
    × ((pc : ℕ) → Clear c t pc → Apart source pc → fetch code₁ pc ≡ fetch code pc)

-- For a source and a target below 2 ^ 64, if the free slots overlap neither each other nor the jump
-- at the source, riscv_try_jump_trampolines returns: it gives -1, or a processor at the source comes
-- to the target in nine instructions at most, with the registers as they were, and no instruction
-- is changed but those that overlap the jump or a free slot.
pub riscv_try_jump_trampolines_lem :
    (c : Sizes) (t : Thread) (code : List (ℕ × Instr)) (source target : ℕ)
    → source < word64
    → target < word64
    → c.trampolines_size_bbs ≤ t.free_block
    → Spaced c t
    → Clear c t source
    → (result : Option (Thread × List (ℕ × Instr))) × (riscv_try_jump_trampolines c t code source
          target
        ≡ ok result)
      × Reaches c t code source target result
unfolding riscv_try_jump_trampolines
riscv_try_jump_trampolines_lem c t code source target h l room spaced clear =
    elim (Bool-cases (leb (3 * 1024 * 1024) (riscv_address_distance source target))) [
      | inl far ↦ rw far (none, refl, tt)
      | inr near ↦
          let placed = find_slots-Placed c t source target 8 [] room tt in
          elim (Option-cases (find_slots c 8 t source target [])) [
            | inl refused ↦ rw (near, refused) (none, refl, tt)
            | inr (slots, found) ↦
                let (there, reach, size) = rw found at placed in
                let (t₁, code₁, filled, chain, kept) =
                  fill_slots-Chained c t source target slots code h l spaced there in
                let next = next_target target slots in
                let way = head-OnTheWay c t source target slots there in
                let small = OnTheWay-small c t source target next h l way in
                let (instr, made, lands) = put_jal_lem code₁ source next h small reach in
                let clear_slots = Clear-AllApart c t source target source slots clear there in
                let chain' =
                  Chained-Apart c t source target code₁ source instr slots clear_slots chain in
                rw (near, found, filled, made)
                  (
                    some (t₁, (source, instr) ∷ code₁),
                    refl,
                    (
                      λ taken cpu here. (
                        suc (length slots),
                        omega (arith, size),
                        Arrives-Lands taken (length slots) ((source, instr) ∷ code₁) cpu next target
                            (rw here lands)
                            (λ cpu₁ arrived.
                              Chained-Arrives c t source target taken slots _ cpu₁ chain' arrived),
                      ),
                      λ pc away apart.
                          fetch-Apart code₁ source pc instr apart
                          ∙ kept pc (Clear-AllApart c t source target pc slots away there),
                    ),
                  )
          ]
    ]
