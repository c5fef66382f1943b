-- ===== src/DataRace/Djit/Handover.antt =====
-- A release of a lock by one thread and an acquire by another, as djit.c sees them.
use mambo.Base.{ℕ, ◌<◌, ◌≤◌, ◌≡◌, ◌∙◌, refl, ap, max, true, ◌==◌, length, length-set, arith}
use mambo.DataRace.{
  VectorClock, System, clock, thread, lock, vector_clock_update, vector_clock_happens_before,
}
use mambo.DataRace.Clocks.{Sized, vector_clock_happens_before_iff, vector_clock_update-clock}
use mambo.DataRace.Events.{
  knows, Shaped, heard, moved, heard-knows, heard-Shaped, length-heard, moved-Shaped,
}
use mambo.DataRace.Events.Locks.{locked_by, lock-locked_by, locked_by-Shaped}

-- The state after thread j releases lock l and thread i acquires it.
abbrev pub handed : System → ℕ → ℕ → ℕ → System
handed s l j i = let released = moved (locked_by s l j) j in heard released i (lock released l)

-- Thread i then knows all that thread j knew.
pub handed-knows :
    (s : System) (l i j k : ℕ)
    → Shaped s
    → l < length s.locks
    → i < length s.threads
    → j < length s.threads
    → k < 8
    → knows s j k ≤ knows (handed s l j i) i k
handed-knows s l i j k shape hl hi hj bound =
    let s₁ = locked_by s l j in
    let shape₁ = locked_by-Shaped s l j shape hl in
    let s₂ = moved s₁ j in
    let shape₂ = moved-Shaped s₁ j shape₁ hj in
    let size : length s₂.threads ≡ length s.threads = length-set s.threads j _ in
    let same_lock : (l == l) ≡ true = ground arith in
    let same_thread : (i == i) ≡ true = ground arith in
    let lock_size = length-set s.locks l (vector_clock_update (lock s l) (thread s j).vc) in
    let told : lock s₂ l ≡ vector_clock_update (lock s l) (thread s j).vc =
      lock-locked_by s l j l hl ∙ rw same_lock refl in
    let entry =
      vector_clock_update-clock (lock s l) (thread s j).vc k (shape.2 l hl) (shape.1 j hj).1
        bound in
    let heard_now : knows (handed s l j i) i k ≡ max (knows s₂ i k) (clock (lock s₂ l) k) =
      heard-knows s₂ i (lock s₂ l) i k shape₂ (omega (arith, size))
        (shape₂.2 l (omega (arith, lock_size, hl))) bound
      ∙ rw same_thread refl in
    omega (arith, heard_now, entry, ap (λ (vc : VectorClock). clock vc k) told)

pub handed-Shaped :
    (s : System) (l i j : ℕ)
    → Shaped s
    → l < length s.locks
    → i < length s.threads
    → j < length s.threads
    → ((thread (handed s l j i) i).idx ≡ i) × Sized (thread (handed s l j i) i).vc
handed-Shaped s l i j shape hl hi hj =
    let s₁ = locked_by s l j in
    let shape₂ = moved-Shaped s₁ j (locked_by-Shaped s l j shape hl) hj in
    let s₂ = moved s₁ j in
    let size : length s₂.threads ≡ length s.threads = length-set s.threads j _ in
    let hi₂ : i < length s₂.threads = omega (arith, size, hi) in
    (heard-Shaped s₂ i (lock s₂ l) shape₂ hi₂).1 i
      (omega (arith, hi₂, length-heard s₂ i (lock s₂ l)))

-- What was before thread j is before thread i then, also with j's own entry written.
pub handed_before :
    (s : System) (l i j : ℕ) (vc : VectorClock)
    → Shaped s
    → Sized vc
    → l < length s.locks
    → i < length s.threads
    → j < length s.threads
    → vector_clock_happens_before vc (thread s j).vc ≡ true
    → vector_clock_happens_before vc (thread (handed s l j i) i).vc ≡ true
handed_before s l i j vc shape z hl hi hj before =
    let t = thread (handed s l j i) i in
    let known = (vector_clock_happens_before_iff vc (thread s j).vc z (shape.1 j hj).1).0 before in
    (vector_clock_happens_before_iff vc t.vc z (handed-Shaped s l i j shape hl hi hj).1).1
      (λ k bound. omega (arith, known k bound, handed-knows s l i j k shape hl hi hj bound))
