-- ===== src/DataRace/Start.antt =====
-- The first state of a thread in plugins/datarace/detectors.
use mambo.Base.{
  ℕ, ◌≤◌, ◌<◌, ◌≡◌, ◌∙◌, refl, true, false, ltb, ◌==◌, if◌then◌else◌, replicate, get_or-replicate,
  arith, abort, Returns, pos,
}
use mambo.DataRace.{VectorClock, clock, vector_clock_init, vector_clock_increment, thread_init}
use mambo.DataRace.Clocks.{Sized, vector_clock_increment_lem, vector_clock_set-clock}

abbrev zeros : VectorClock
zeros = record { clocks = replicate 8 0; size = 8 }

zeros-clock : (j : ℕ) → clock zeros j ≡ 0
zeros-clock j = get_or-replicate 8 j 0

refused_index : (idx : ℕ) → 8 ≤ idx → vector_clock_increment zeros idx ≡ abort
unfolding vector_clock_increment
refused_index idx h = let outside : ltb idx 8 ≡ false = ground arith in rw outside refl

-- With memory, `thread_init` of an index below eight returns 1 and a thread of that index whose clock
-- has eight entries, 1 at the index and 0 elsewhere; of any other index it stops at an `assert`.
thread_init_lem :
    (garbage : VectorClock) (idx : ℕ)
    → (idx < 8
        → Returns (thread_init true true garbage idx) λ r.
          (r.0 ≡ pos 1)
          × (r.1.idx ≡ idx)
          × Sized r.1.vc
          × ((j : ℕ) → clock r.1.vc j ≡ (if idx == j then 1 else 0)))
      × (8 ≤ idx → thread_init true true garbage idx ≡ abort)
unfolding thread_init vector_clock_init
thread_init_lem garbage idx = (
  λ h.
      let step = vector_clock_increment_lem zeros idx (refl, refl) h in
      rw step.0 (
        _,
        refl,
        (
          refl,
          refl,
          step.1,
          λ j.
              vector_clock_set-clock zeros idx j _ (refl, refl) h
              ∙ rw (zeros-clock idx, zeros-clock j) refl,
        ),
      ),
  λ h. rw (refused_index idx h) refl,
)
