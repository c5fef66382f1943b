-- ===== src/DataRace/Djit/Races.antt =====
-- What djit.c reports: an access of another thread with no synchronisation between is a race, and
-- one after a release and an acquire is none.
use mambo.Base.{
  ℕ, ◌<◌, ◌≡◌, ◌≢◌, ◌∙◌, refl, ap, true, false, [], ◌∷◌, ltb, ◌==◌, length, arith, inl, inr,
  Bool-cases, Returns,
}
use mambo.DataRace.{
  own_clock, VectorClock, System, Event, clock, thread, vector_clock_get, vector_clock_set,
  vector_clock_happens_before, thread_get_clock, lock_acquire, handle, handle_all,
}
use mambo.DataRace.Clocks.{
  Sized, vector_clock_happens_before_iff, vector_clock_set-clock, vector_clock_set-Sized,
}
use mambo.DataRace.Events.{knows, Shaped, Ahead, IsValid}
use mambo.DataRace.Djit.{Variable, variable_update_read, variable_update_write}
use mambo.DataRace.Events.Locks.{lock_release_lem}
use mambo.DataRace.Djit.Accesses.{
  accepted_read, accepted_write, accepts_read, accepts_write, free_write, refused_read,
  refused_write, refused_write_by_read,
}
use mambo.DataRace.Djit.Handover.{handed, handed_before}

abbrev SizedVariable : Variable → Type 0
SizedVariable v = Sized v.rx × Sized v.wx

pub own_clock_lem :
    (s : System) (t : ℕ) → Shaped s → t < length s.threads → own_clock (thread s t) ≡ knows s t t
unfolding thread_get_clock vector_clock_get
own_clock_lem s t shape h =
    let own = shape.1 t h in
    let inside : ltb (thread s t).idx (thread s t).vc.size ≡ true = ground arith in
    rw inside (ap (clock (thread s t).vc) own.0)

-- A clock that another thread's own entry has been written to is not before the thread's clock.
written_not_before :
    (s : System) (vc : VectorClock) (i j : ℕ)
    → Shaped s
    → Ahead s
    → Sized vc
    → i < length s.threads
    → j < length s.threads
    → i ≢ j
    → vector_clock_happens_before
        (vector_clock_set vc (thread s j).idx (own_clock (thread s j)))
        (thread s i).vc
      ≡ false
written_not_before s vc i j shape ahead z hi hj apart =
    let own = shape.1 j hj in
    let e = own_clock_lem s j shape hj in
    let bound : j < 8 = omega (arith, hj, shape.0) in
    let w = vector_clock_set vc j (knows s j j) in
    let order =
      vector_clock_happens_before_iff w (thread s i).vc
        (vector_clock_set-Sized vc j (knows s j j) z) (shape.1 i hi).1 in
    let same : (j == j) ≡ true = ground arith in
    let entry : clock w j ≡ knows s j j =
      vector_clock_set-clock vc j j (knows s j j) z bound ∙ rw same refl in
    rw (own.0, e)
      (elim (Bool-cases (vector_clock_happens_before w (thread s i).vc)) [
        | inl before ↦
            absurd (omega (arith, order.0 before j bound, entry, ahead.0 i j hi hj apart))
        | inr after ↦ after
      ])

written_before :
    (s : System) (j : ℕ) (vc : VectorClock)
    → Shaped s
    → Sized vc
    → j < length s.threads
    → vector_clock_happens_before vc (thread s j).vc ≡ true
    → vector_clock_happens_before
        (vector_clock_set vc (thread s j).idx (own_clock (thread s j)))
        (thread s j).vc
      ≡ true
written_before s j vc shape z hj before =
    let own = shape.1 j hj in
    let e = own_clock_lem s j shape hj in
    let bound : j < 8 = omega (arith, hj, shape.0) in
    let w = vector_clock_set vc j (knows s j j) in
    let known = (vector_clock_happens_before_iff vc (thread s j).vc z own.1).0 before in
    rw (own.0, e)
      ((vector_clock_happens_before_iff w (thread s j).vc
          (vector_clock_set-Sized vc j (knows s j j) z) own.1).1
        (λ k l.
          rw (vector_clock_set-clock vc j k (knows s j j) z bound) (elim (Bool-cases (j == k)) [
            | inl same ↦ let here : j ≡ k = ground arith in rw (same, here) (omega arith)
            | inr other ↦ rw other (known k l)
          ])))

module _ (n m : ℕ) (s : System) (valid : IsValid n m s) (v : Variable) (sized : SizedVariable v)
    (i j : ℕ) (hi : i < n) (hj : j < n) where
  -- In a valid state, for a variable with clocks of eight entries: after an accepted write of thread j, both a read and a write of another thread
  -- i are reported in the same state, and leave the variable as it is.
  pub variable_update_write-reports :
      i ≢ j
      → (variable_update_write v (thread s j)).0 ≡ true
      → let written = (variable_update_write v (thread s j)).1 in
        (variable_update_read written (thread s i) ≡ (false, written))
        × (variable_update_write written (thread s i) ≡ (false, written))
  variable_update_write-reports apart accepted =
      let facts = accepted_write v (thread s j) accepted in
      let late =
        written_not_before s v.wx i j valid.2 valid.3 sized.1 (omega (arith, valid.0))
          (omega (arith, valid.0)) apart in
      rw facts.1 (refused_read _ _ late, refused_write _ _ late)

  -- In a valid state, for a variable with clocks of eight entries: after an accepted read of thread j, a write of another thread i is reported in
  -- the same state, and leaves the variable as it is.
  variable_update_read-reports :
      i ≢ j
      → (variable_update_read v (thread s j)).0 ≡ true
      → let seen = (variable_update_read v (thread s j)).1 in
        variable_update_write seen (thread s i) ≡ (false, seen)
  variable_update_read-reports apart accepted =
      let facts = accepted_read v (thread s j) accepted in
      let late =
        written_not_before s v.rx i j valid.2 valid.3 sized.0 (omega (arith, valid.0))
          (omega (arith, valid.0)) apart in
      rw facts.1 (refused_write_by_read _ _ late)

  -- In a valid state, for a variable with clocks of eight entries: after an accepted write of thread j, a release of a lock by j and an acquire of
  -- the lock by thread i, both a read and a write of i are accepted.
  pub variable_update_write-ordered :
      (l : ℕ)
      → l < m
      → (variable_update_write v (thread s j)).0 ≡ true
      → let written = (variable_update_write v (thread s j)).1 in
        Returns (handle_all (Event.release l j ∷ Event.acquire l i ∷ []) s) λ s'.
          ((variable_update_read written (thread s' i)).0 ≡ true)
          × ((variable_update_write written (thread s' i)).0 ≡ true)
  unfolding handle_all handle lock_acquire
  variable_update_write-ordered l hl accepted =
      let facts = accepted_write v (thread s j) accepted in
      let free = free_write v (thread s j).vc facts.0 in
      let hi' : i < length s.threads = omega (arith, valid.0) in
      let hj' : j < length s.threads = omega (arith, valid.0) in
      let hl' : l < length s.locks = omega (arith, valid.1) in
      let written_first = written_before s j v.wx valid.2 sized.1 hj' free.0 in
      let writes =
        handed_before s l i j _ valid.2 (vector_clock_set-Sized v.wx _ _ sized.1) hl' hi' hj'
          written_first in
      let reads = handed_before s l i j v.rx valid.2 sized.0 hl' hi' hj' free.1 in
      let release = lock_release_lem s l j valid.2 (omega (arith, valid.0)) in
      rw (release, facts.1)
        (handed s l j i, refl, (accepts_read _ _ writes, accepts_write _ _ writes reads))
