-- ===== src/DataRace/Fasttrack/Races.antt =====
-- What fasttrack.c reports, and what it accepts.
use mambo.Base.{
  ℕ, ◌<◌, ◌≡◌, ◌≢◌, ◌∙◌, refl, sym, ap, true, false, [], ◌∷◌, length, arith, Returns, is_zero,
}
use mambo.DataRace.{VectorClock, System, Event, thread, lock_acquire, handle, handle_all}
use mambo.DataRace.Clocks.{Sized}
use mambo.DataRace.Events.{knows, IsValid}
use mambo.DataRace.Events.Locks.{lock_release_lem}
use mambo.DataRace.Djit.Handover.{handed, handed-knows, handed-Shaped}
use mambo.DataRace.Djit.Races.{own_clock_lem}
use mambo.DataRace.Fasttrack.{
  Epoch, Variable, epoch_happens_before_vc, variable_update_read, variable_update_write,
}
use mambo.DataRace.Fasttrack.Accesses.{
  accepted_read, epoch_iff, refused, same_epoch-false, same_epoch-true, written_epoch,
  written_reads,
}

module _ (n m : ℕ) (s : System) (valid : IsValid n m s) (v : Variable) (i j : ℕ) (hi : i < n)
    (hj : j < n) where
  -- In a valid state, after an accepted write of thread j, a write of another thread i is reported in
  -- the same state, and leaves the variable as it is.
  pub epoch_write-reports :
      i ≢ j
      → (variable_update_write v (thread s j)).0 ≡ true
      → let written = (variable_update_write v (thread s j)).1 in
        variable_update_write written (thread s i) ≡ (false, written)
  epoch_write-reports apart accepted =
      let written = (variable_update_write v (thread s j)).1 in
      let epoch = written.wx_epoch in
      let hi' : i < length s.threads = omega (arith, valid.0) in
      let hj' : j < length s.threads = omega (arith, valid.0) in
      let last = written_epoch v (thread s j) accepted in
      let at_i = valid.2.1 i hi' in
      let at_j = valid.2.1 j hj' in
      let own = own_clock_lem s j valid.2 hj' in
      let parts = same_epoch-true epoch (thread s j) last in
      let place : epoch.thread_idx ≡ j = parts.0 ∙ at_j.0 in
      let when : epoch.time ≡ knows s j j = parts.1 ∙ own in
      let late = valid.3.0 i j hi' hj' apart in
      refused written (thread s i)
        (same_epoch-false epoch (thread s i) (λ e. apart (sym at_i.0 ∙ sym e ∙ place)))
        (epoch_iff epoch (thread s i).vc at_i.1 (omega (arith, place, hj', valid.2.0))
          ∙ rw (place, when) (ground (arith, late)))

  -- In a valid state, if what is kept of the reads lies in a clock of eight entries: after an accepted
  -- write of thread j, a release of a lock by j and an acquire of the lock by thread i, a read of i
  -- returns and is accepted.
  epoch_read-ordered :
      (l : ℕ)
      → l < m
      → Sized v.rx_vc
      → v.rx_epoch.thread_idx < 8
      → (variable_update_write v (thread s j)).0 ≡ true
      → let written = (variable_update_write v (thread s j)).1 in
        Returns
          (handle_all (Event.release l j ∷ Event.acquire l i ∷ []) s)
          λ s'. Returns (variable_update_read written (thread s' i)) λ r. r.0 ≡ true
  unfolding handle_all handle lock_acquire
  epoch_read-ordered l hl z h accepted =
      let written = (variable_update_write v (thread s j)).1 in
      let epoch = written.wx_epoch in
      let hi' : i < length s.threads = omega (arith, valid.0) in
      let hj' : j < length s.threads = omega (arith, valid.0) in
      let hl' : l < length s.locks = omega (arith, valid.1) in
      let at_j = valid.2.1 j hj' in
      let parts = same_epoch-true epoch (thread s j) (written_epoch v (thread s j) accepted) in
      let place : epoch.thread_idx ≡ j = parts.0 ∙ at_j.0 in
      let when : epoch.time ≡ knows s j j = parts.1 ∙ own_clock_lem s j valid.2 hj' in
      let bound : j < 8 = omega (arith, hj', valid.2.0) in
      let kept = written_reads v (thread s j) in
      let t = thread (handed s l j i) i in
      let at_i = handed-Shaped s l i j valid.2 hl' hi' hj' in
      let known = handed-knows s l i j j valid.2 hl' hi' hj' bound in
      let before : is_zero (epoch_happens_before_vc epoch t.vc) ≡ false =
        epoch_iff epoch t.vc at_i.1 (omega (arith, place, bound))
        ∙ rw (place, when) (ground (arith, known)) in
      let release = lock_release_lem s l j valid.2 hj' in
      rw release (
        handed s l j i,
        refl,
        accepted_read written t
            (
              ap (λ (vc : VectorClock). vc.size) kept.0 ∙ z.0,
              ap (λ (vc : VectorClock). length vc.clocks) kept.0 ∙ z.1,
            )
            (omega (arith, ap (λ (e : Epoch). e.thread_idx) kept.1, h))
            (omega (arith, at_i.0, hi', valid.2.0)) before,
      )
