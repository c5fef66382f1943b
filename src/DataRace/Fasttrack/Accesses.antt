-- ===== src/DataRace/Fasttrack/Accesses.antt =====
-- The accesses of a variable in fasttrack.c, accepted and refused.
use mambo.Base.{
  ℕ, ◌<◌, ◌≡◌, ◌≢◌, refl, true, false, not, ◌&&◌, ltb, leb, ◌==◌, arith, inl, inr, Bool-cases, ok,
  Returns, pos, pos_part, is_zero,
}
use mambo.DataRace.{VectorClock, Thread, own_clock, clock, vector_clock_get, vector_clock_set}
use mambo.DataRace.Clocks.{Sized, vector_clock_set-Sized}
use mambo.DataRace.Fasttrack.{
  Epoch, Variable, same_epoch, epoch_happens_before_vc, checked_set, record_read, reads_before,
  variable_update_read, variable_update_write,
}

-- The epoch of the last write is that of the thread, after a write that is accepted.
pub written_epoch :
    (v : Variable) (t : Thread)
    → (variable_update_write v t).0 ≡ true
    → same_epoch (variable_update_write v t).1.wx_epoch t ≡ true
unfolding variable_update_write
written_epoch v t h = elim (Bool-cases (same_epoch v.wx_epoch t)) [
  | inl same ↦ rw (same, same) refl
  | inr other ↦ elim (Bool-cases (is_zero (epoch_happens_before_vc v.wx_epoch t.vc))) [
    | inl race ↦ absurd (let h' = rw (other, race) at h in cc)
    | inr before ↦ elim (Bool-cases (reads_before v t)) [
      | inl free ↦ rw (other, before, free) (ground arith)
      | inr late ↦ absurd (let h' = rw (other, before, late) at h in cc)
    ]
  ]
]

-- An epoch against a clock of eight entries.
pub epoch_iff :
    (epoch : Epoch) (vc : VectorClock)
    → Sized vc
    → epoch.thread_idx < 8
    → is_zero (epoch_happens_before_vc epoch vc) ≡ not (leb epoch.time (clock vc epoch.thread_idx))
unfolding epoch_happens_before_vc vector_clock_get
epoch_iff epoch vc z h =
    let inside : leb vc.size epoch.thread_idx ≡ false = ground arith in
    let inside' : ltb epoch.thread_idx vc.size ≡ true = ground arith in
    elim (Bool-cases (leb epoch.time (clock vc epoch.thread_idx))) [
      | inl before ↦ rw (inside, inside', before) refl
      | inr late ↦ rw (inside, inside', late) refl
    ]

pub same_epoch-true :
    (epoch : Epoch) (t : Thread)
    → same_epoch epoch t ≡ true
    → (epoch.thread_idx ≡ t.idx) × (epoch.time ≡ own_clock t)
same_epoch-true epoch t h = ground arith

pub same_epoch-false :
    (epoch : Epoch) (t : Thread) → epoch.thread_idx ≢ t.idx → same_epoch epoch t ≡ false
same_epoch-false epoch t h =
    let other : (epoch.thread_idx == t.idx) ≡ false = ground arith in rw other refl

-- A write is refused, if the epoch of the last write is not the thread's and not before it.
pub refused :
    (v : Variable) (t : Thread)
    → same_epoch v.wx_epoch t ≡ false
    → is_zero (epoch_happens_before_vc v.wx_epoch t.vc) ≡ true
    → variable_update_write v t ≡ (false, v)
unfolding variable_update_write
refused v t other race = rw (other, race) refl

-- A write leaves what is kept of the reads.
pub written_reads :
    (v : Variable) (t : Thread)
    → ((variable_update_write v t).1.rx_vc ≡ v.rx_vc)
      × ((variable_update_write v t).1.rx_epoch ≡ v.rx_epoch)
unfolding variable_update_write
written_reads v t = elim (Bool-cases (same_epoch v.wx_epoch t)) [
  | inl same ↦ rw same (refl, refl)
  | inr other ↦ elim (Bool-cases (is_zero (epoch_happens_before_vc v.wx_epoch t.vc))) [
    | inl race ↦ rw (other, race) (refl, refl)
    | inr before ↦ elim (Bool-cases (reads_before v t)) [
      | inl free ↦ rw (other, before, free) (refl, refl)
      | inr late ↦ rw (other, before, late) (refl, refl)
    ]
  ]
]

checked_set_lem :
    (vc : VectorClock) (idx value : ℕ)
    → Sized vc
    → idx < 8
    → checked_set vc idx value ≡ ok (vector_clock_set vc idx value)
unfolding checked_set
checked_set_lem vc idx value z h =
    let inside : ltb idx vc.size ≡ true = ground arith in rw inside refl

-- With indices in their clocks, no `assert` of a read fails.
record_read_lem :
    (v : Variable) (t : Thread)
    → Sized v.rx_vc
    → v.rx_epoch.thread_idx < 8
    → t.idx < 8
    → Returns (record_read v t) λ r. r.0 ≡ true
unfolding record_read
record_read_lem v t z h l = elim (Bool-cases v.is_shared) [
  | inl shared ↦ rw (shared, checked_set_lem v.rx_vc t.idx (own_clock t) z l) (_, refl, refl)
  | inr single ↦ elim (Bool-cases (is_zero (epoch_happens_before_vc v.rx_epoch t.vc))) [
    | inl late ↦
        let first = vector_clock_set v.rx_vc v.rx_epoch.thread_idx v.rx_epoch.time in
        rw
          (
            single,
            late,
            checked_set_lem v.rx_vc v.rx_epoch.thread_idx v.rx_epoch.time z h,
            checked_set_lem first t.idx (own_clock t) (vector_clock_set-Sized v.rx_vc _ _ z) l,
          )
          (_, refl, refl)
    | inr before ↦ rw (single, before) (_, refl, refl)
  ]
]

pub accepted_read :
    (v : Variable) (t : Thread)
    → Sized v.rx_vc
    → v.rx_epoch.thread_idx < 8
    → t.idx < 8
    → is_zero (epoch_happens_before_vc v.wx_epoch t.vc) ≡ false
    → Returns (variable_update_read v t) λ r. r.0 ≡ true
unfolding variable_update_read
accepted_read v t z h l before =
    let known = pos_part (vector_clock_get v.rx_vc (pos t.idx)) == own_clock t in
    elim (Bool-cases (same_epoch v.rx_epoch t)) [
      | inl same ↦ rw same (_, refl, refl)
      | inr other ↦ elim (Bool-cases (v.is_shared && known)) [
        | inl again ↦ rw (other, again) (_, refl, refl)
        | inr fresh ↦ rw (other, fresh, before) (record_read_lem v t z h l)
      ]
    ]
