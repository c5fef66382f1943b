-- ===== src/DataRace/Djit/Accesses.antt =====
-- The accesses of a variable in djit.c, accepted and refused.
use mambo.Base.{◌≡◌, refl, true, false, inl, inr, Bool-cases}
use mambo.DataRace.{own_clock, VectorClock, Thread, vector_clock_set, vector_clock_happens_before}
use mambo.DataRace.Djit.{
  Variable, variable_read_is_race_free, variable_write_is_race_free, variable_update_read,
  variable_update_write,
}

-- A write that is accepted.
pub accepted_write :
    (v : Variable) (t : Thread)
    → (variable_update_write v t).0 ≡ true
    → (variable_write_is_race_free v t.vc ≡ true)
      × ((variable_update_write v t).1
          ≡ record v { wx = vector_clock_set v.wx t.idx (own_clock t) })
unfolding variable_update_write
accepted_write v t h = elim (Bool-cases (variable_write_is_race_free v t.vc)) [
  | inl free ↦ (free, rw free refl)
  | inr race ↦ absurd (let h' = rw race at h in cc)
]

pub accepted_read :
    (v : Variable) (t : Thread)
    → (variable_update_read v t).0 ≡ true
    → (variable_read_is_race_free v t.vc ≡ true)
      × ((variable_update_read v t).1 ≡ record v { rx = vector_clock_set v.rx t.idx (own_clock t) })
unfolding variable_update_read
accepted_read v t h = elim (Bool-cases (variable_read_is_race_free v t.vc)) [
  | inl free ↦ (free, rw free refl)
  | inr race ↦ absurd (let h' = rw race at h in cc)
]

-- The accesses that are refused.
pub refused_read :
    (v : Variable) (t : Thread)
    → vector_clock_happens_before v.wx t.vc ≡ false
    → variable_update_read v t ≡ (false, v)
unfolding variable_update_read variable_read_is_race_free
refused_read v t race = rw race refl

pub refused_write :
    (v : Variable) (t : Thread)
    → vector_clock_happens_before v.wx t.vc ≡ false
    → variable_update_write v t ≡ (false, v)
unfolding variable_update_write variable_write_is_race_free
refused_write v t race = rw race refl

pub refused_write_by_read :
    (v : Variable) (t : Thread)
    → vector_clock_happens_before v.rx t.vc ≡ false
    → variable_update_write v t ≡ (false, v)
unfolding variable_update_write variable_write_is_race_free
refused_write_by_read v t race = elim (Bool-cases (vector_clock_happens_before v.wx t.vc)) [
  | inl before ↦ rw (before, race) refl
  | inr after ↦ rw after refl
]

-- The accesses that are accepted.
pub accepts_read :
    (v : Variable) (t : Thread)
    → vector_clock_happens_before v.wx t.vc ≡ true
    → (variable_update_read v t).0 ≡ true
unfolding variable_update_read variable_read_is_race_free
accepts_read v t free = rw free refl

pub accepts_write :
    (v : Variable) (t : Thread)
    → vector_clock_happens_before v.wx t.vc ≡ true
    → vector_clock_happens_before v.rx t.vc ≡ true
    → (variable_update_write v t).0 ≡ true
unfolding variable_update_write variable_write_is_race_free
accepts_write v t free free' = rw (free, free') refl

pub free_write :
    (v : Variable) (vc : VectorClock)
    → variable_write_is_race_free v vc ≡ true
    → (vector_clock_happens_before v.wx vc ≡ true) × (vector_clock_happens_before v.rx vc ≡ true)
unfolding variable_write_is_race_free
free_write v vc h = elim (Bool-cases (vector_clock_happens_before v.wx vc)) [
  | inl before ↦ (before, rw before at h)
  | inr after ↦ absurd (let h' = rw after at h in cc)
]
