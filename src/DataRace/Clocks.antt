-- ===== src/DataRace/Clocks.antt =====
-- The vector clocks of plugins/datarace/detectors, entry by entry: an update is the entrywise
-- maximum and the comparison is the entrywise order.
use mambo.Base.{
  ℕ, zero, suc, ◌+◌, ◌<◌, ◌≤◌, ◌≡◌, ◌↔◌, ◌∙◌, refl, max, true, List, ltb, ◌==◌, if◌then◌else◌,
  get_or, set, length, length-set, get_or-set_self, get_or-set_ne, arith, inl, inr, Bool-cases, ok,
}
use mambo.DataRace.{
  VectorClock, clock, vector_clock_increment, vector_clock_set, update_rounds, vector_clock_update,
  compare_rounds, vector_clock_happens_before,
}

-- A clock as `vector_clock_init` makes it.
abbrev pub Sized : VectorClock → Type 0
Sized vc = (vc.size ≡ 8) × (length vc.clocks ≡ 8)

-- Every clock of the first is at most that of the second.
abbrev Before : VectorClock → VectorClock → Type 0
Before vc other = (j : ℕ) → j < 8 → clock vc j ≤ clock other j

-- An entry after a write.
clock-set :
    (xs : List ℕ) (i j v : ℕ)
    → i < length xs
    → get_or (set xs i v) j 0 ≡ (if i == j then v else get_or xs j 0)
clock-set xs i j v h = elim (Bool-cases (i == j)) [
  | inl same ↦ let e : j ≡ i = ground arith in rw (same, e) (get_or-set_self xs i v 0 h)
  | inr other ↦ rw other (get_or-set_ne xs i j v 0 (ground arith))
]

update_rounds-Sized :
    (n : ℕ) (vc other : VectorClock)
    → ((update_rounds n vc other).size ≡ vc.size)
      × (length (update_rounds n vc other).clocks ≡ length vc.clocks)
unfolding update_rounds
update_rounds-Sized zero vc other = (refl, refl)
update_rounds-Sized (suc i) vc other =
    let before = update_rounds i vc other in
    let ih = update_rounds-Sized i vc other in
    elim (Bool-cases (ltb (clock before i) (clock other i))) [
      | inl less ↦ rw less (ih.0, length-set before.clocks i (clock other i) ∙ ih.1)
      | inr more ↦ rw more ih
    ]

update_rounds-clock :
    (n : ℕ) (vc other : VectorClock) (j : ℕ)
    → n ≤ length vc.clocks
    → clock (update_rounds n vc other) j
      ≡ (if ltb j n then max (clock vc j) (clock other j) else clock vc j)
unfolding update_rounds
update_rounds-clock zero vc other j h = ground arith
update_rounds-clock (suc i) vc other j h =
    let before = update_rounds i vc other in
    let room = (update_rounds-Sized i vc other).1 in
    let ih = update_rounds-clock i vc other j (omega arith) in
    let here = update_rounds-clock i vc other i (omega arith) in
    let written = clock-set before.clocks i j (clock other i) (omega (arith, room)) in
    elim (Bool-cases (ltb (clock before i) (clock other i))) [
      | inl less ↦ rw less (elim (Bool-cases (i == j)) [
        | inl same ↦ let e : j ≡ i = ground arith in written ∙ rw (same, e) (ground (arith, here))
        | inr apart ↦ written ∙ rw apart (ground (arith, ih))
      ])
      | inr more ↦ rw more (elim (Bool-cases (i == j)) [
        | inl same ↦ let e : j ≡ i = ground arith in rw e (ground (arith, here))
        | inr apart ↦ ground (arith, ih)
      ])
    ]

-- An update takes the entrywise maximum.
pub vector_clock_update-clock :
    (vc other : VectorClock) (j : ℕ)
    → Sized vc
    → Sized other
    → j < 8
    → clock (vector_clock_update vc other) j ≡ max (clock vc j) (clock other j)
unfolding vector_clock_update
vector_clock_update-clock vc other j h h' l =
    update_rounds-clock other.size vc other j (omega arith) ∙ ground arith

pub vector_clock_update-Sized :
    (vc other : VectorClock) → Sized vc → Sized (vector_clock_update vc other)
unfolding vector_clock_update
vector_clock_update-Sized vc other h =
    let e = update_rounds-Sized other.size vc other in (e.0 ∙ h.0, e.1 ∙ h.1)

compare_rounds_iff :
    (n i : ℕ) (vc other : VectorClock)
    → (compare_rounds n i vc other ≡ true)
      ↔ ((j : ℕ) → i ≤ j → j < i + n → clock vc j ≤ clock other j)
unfolding compare_rounds
compare_rounds_iff zero i vc other = (λ e j l u. absurd (omega arith), λ all. refl)
compare_rounds_iff (suc n) i vc other =
    let ih = compare_rounds_iff n (suc i) vc other in
    elim (Bool-cases (ltb (clock other i) (clock vc i))) [
      | inl more ↦
          let refute : ((j : ℕ) → i ≤ j → j < i + suc n → clock vc j ≤ clock other j) → ⊥ =
            λ all. let low = all i (omega arith) (omega arith) in ground arith in
          rw more (λ e. ground arith, λ all. absurd (refute all))
      | inr less ↦ rw less (
        λ e j l u. elim (Bool-cases (i == j)) [
          | inl same ↦ let same_index : j ≡ i = ground arith in rw same_index (ground arith)
          | inr apart ↦ ih.0 e j (ground arith) (omega arith)
        ],
        λ all. ih.1 (λ j l u. all j (omega arith) (omega arith)),
      )
    ]

-- The comparison decides the entrywise order.
pub vector_clock_happens_before_iff :
    (vc other : VectorClock)
    → Sized vc
    → Sized other
    → (vector_clock_happens_before vc other ≡ true) ↔ Before vc other
unfolding vector_clock_happens_before
vector_clock_happens_before_iff vc other h h' =
    let same : (if ltb vc.size other.size then vc.size else other.size) ≡ 8 = ground arith in
    let all = compare_rounds_iff 8 0 vc other in
    rw same (λ e j l. all.0 e j (omega arith) l, λ b. all.1 (λ j l u. b j u))

-- An increment stays in the clock and moves one entry.
pub vector_clock_increment_lem :
    (vc : VectorClock) (i : ℕ)
    → Sized vc
    → i < 8
    → (vector_clock_increment vc i ≡ ok (vector_clock_set vc i (suc (clock vc i))))
      × Sized (vector_clock_set vc i (suc (clock vc i)))
unfolding vector_clock_increment vector_clock_set
vector_clock_increment_lem vc i h l =
    let inside : ltb i vc.size ≡ true = ground arith in
    rw inside (refl, (h.0, length-set vc.clocks i (suc (clock vc i)) ∙ h.1))

pub vector_clock_set-clock :
    (vc : VectorClock) (i j v : ℕ)
    → Sized vc
    → i < 8
    → clock (vector_clock_set vc i v) j ≡ (if i == j then v else clock vc j)
unfolding vector_clock_set
vector_clock_set-clock vc i j v h l = clock-set vc.clocks i j v (omega arith)

pub vector_clock_set-Sized :
    (vc : VectorClock) (i v : ℕ) → Sized vc → Sized (vector_clock_set vc i v)
unfolding vector_clock_set
vector_clock_set-Sized vc i v h = (h.0, length-set vc.clocks i v ∙ h.1)
