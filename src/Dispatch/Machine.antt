-- ===== src/Dispatch/Machine.antt =====
-- A processor that fetches what the dispatcher has written. An instruction that a later one overlaps
-- is lost: each is taken to have four bytes.
use mambo.Base.{
  ℕ, zero, suc, ◌+◌, ◌*◌, ◌^◌, ◌≤◌, ◌<◌, ◌≡◌, ◌≢◌, ◌⊎◌, ◌∙◌, refl, Bool, true, false, not, ◌&&◌,
  ◌||◌, Option, none, some, List, [], ◌∷◌, ltb, ◌==◌, if◌then◌else◌, arith, ok,
}
use mambo.Riscv.{word64, to_signed, extr, masked, outside}
use mambo.Riscv.Emit.{Instr, Writer, emit, advance, riscv_jal_helper}
use mambo.Riscv.Emit.Machine.{Cpu, execute, run}
use mambo.Riscv.Emit.Jumps.{riscv_jal_helper_lem}
use mambo.Dispatch.Trampolines.{riscv_jal_can_reach, offset_from, put_jal, riscv_jal_range}

unfoldable pub fetch : List (ℕ × Instr) → ℕ → Option Instr
fetch [] pc = none
fetch ((at, instr) ∷ code) pc =
    if at == pc
    then some instr
    else if ltb at (pc + 4) && ltb pc (at + 4)
    then none
    else fetch code pc

unfoldable pub steps : (Cpu → Instr → Bool) → ℕ → List (ℕ × Instr) → Cpu → Option Cpu
steps taken zero code cpu = some cpu
steps taken (suc n) code cpu = elim (fetch code cpu.pc) [
  | none ↦ none
  | some instr ↦ steps taken n code (execute taken cpu.pc instr cpu)
]

-- After n instructions the processor stands at an address, with its registers as they were, except
-- for x0, which reads as zero in any case.
abbrev pub Arrives : (Cpu → Instr → Bool) → ℕ → List (ℕ × Instr) → Cpu → ℕ → Type 0
Arrives taken n code cpu target =
    (cpu' : Cpu) × (steps taken n code cpu ≡ some cpu')
    × (cpu'.pc ≡ target)
    × ((r : ℕ) → r ≢ 0 → cpu'.regs r ≡ cpu.regs r)

abbrev pub Apart : ℕ → ℕ → Type 0
Apart a b = (a + 4 ≤ b) ⊎ (b + 4 ≤ a)

-- The instruction at an address is a JAL that lands on another.
abbrev pub Lands : List (ℕ × Instr) → ℕ → ℕ → Type 0
Lands code from to =
    (imm : ℕ) × (fetch code from ≡ some (Instr.jal 0 imm))
    × ((taken : Cpu → Instr → Bool) (cpu : Cpu)
        → (execute taken from (Instr.jal 0 imm) cpu).pc ≡ to)

pub fetch-Apart :
    (code : List (ℕ × Instr)) (at pc : ℕ) (instr : Instr)
    → Apart at pc
    → fetch ((at, instr) ∷ code) pc ≡ fetch code pc
unfolding fetch
fetch-Apart code at pc instr h =
    let other : (at == pc) ≡ false = ground arith in
    let away : (ltb at (pc + 4) && ltb pc (at + 4)) ≡ false = ground arith in rw (other, away) refl

pub Lands-Apart :
    (code : List (ℕ × Instr)) (at from to : ℕ) (instr : Instr)
    → Apart at from
    → Lands code from to
    → Lands ((at, instr) ∷ code) from to
Lands-Apart code at from to instr h (imm, there, lands) =
    (imm, fetch-Apart code at from instr h ∙ there, lands)

pub fetch-here :
    (code : List (ℕ × Instr)) (at : ℕ) (instr : Instr) → fetch ((at, instr) ∷ code) at ≡ some instr
unfolding fetch
fetch-here code at instr = let same : (at == at) ≡ true = ground arith in rw same refl

-- One JAL, then n instructions more.
pub Arrives-Lands :
    (taken : Cpu → Instr → Bool) (n : ℕ) (code : List (ℕ × Instr)) (cpu : Cpu) (to target : ℕ)
    → Lands code cpu.pc to
    → ((cpu₁ : Cpu) → cpu₁.pc ≡ to → Arrives taken n code cpu₁ target)
    → Arrives taken (suc n) code cpu target
unfolding steps execute
Arrives-Lands taken n code cpu to target (imm, there, lands) rest =
    let next = execute taken cpu.pc (Instr.jal 0 imm) cpu in
    let (cpu', walked, arrived, kept) = rest next (lands taken cpu) in
    (
      cpu',
      rw (steps, there) walked,
      arrived,
      λ r h. kept r h ∙ (let other : (r == 0) ≡ false = ground arith in rw other refl),
    )

neither : (a b : Bool) → (not a && not b) ≡ true → (a || b) ≡ false
neither true b h = cc
neither false true h = cc
neither false false h = refl

abbrev pub j_field : ℕ → ℕ
j_field offset =
    extr 10 1 offset * 2 ^ 9
    + extr 1 11 offset * 2 ^ 8
    + extr 8 12 offset
    + extr 1 20 offset * 2 ^ 19

pub jal_made :
    (w : Writer) (target rd : ℕ)
    → riscv_jal_can_reach w.write_p target ≡ true
    → riscv_jal_helper w target rd
      ≡ some (advance (emit w (Instr.jal rd (j_field (offset_from w.write_p target)))) 2)
unfolding riscv_jal_helper riscv_jal_can_reach
jal_made w target rd reach =
    let offset = offset_from w.write_p target in
    let good : (masked offset 1 || outside riscv_jal_range (to_signed offset)) ≡ false =
      neither _ _ reach in
    rw good refl

pub jal_lands :
    (at target rd : ℕ)
    → at < word64
    → target < word64
    → riscv_jal_can_reach at target ≡ true
    → (taken : Cpu → Instr → Bool) (cpu : Cpu)
    → (execute taken at (Instr.jal rd (j_field (offset_from at target))) cpu).pc ≡ target
unfolding run
jal_lands at target rd h l reach taken cpu =
    let w : Writer = record { write_p = at; code = [] } in
    (rw (jal_made w target rd reach) at (riscv_jal_helper_lem taken cpu w target h l rd)).1

-- `put_jal` does not abort where the jump is in range, and the jump lands.
pub put_jal_lem :
    (code : List (ℕ × Instr)) (at target : ℕ)
    → at < word64
    → target < word64
    → riscv_jal_can_reach at target ≡ true
    → (instr : Instr) × (put_jal code at target ≡ ok ((at, instr) ∷ code))
      × Lands ((at, instr) ∷ code) at target
unfolding put_jal
put_jal_lem code at target h l reach =
    let imm = j_field (offset_from at target) in
    let w : Writer = record { write_p = at; code = code } in
    (
      Instr.jal 0 imm,
      rw (put_jal, jal_made w target 0 reach) refl,
      (imm, fetch-here code at (Instr.jal 0 imm), jal_lands at target 0 h l reach),
    )
