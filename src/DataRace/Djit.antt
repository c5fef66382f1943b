-- ===== src/DataRace/Djit.antt =====
-- plugins/datarace/detectors/djit.c: a variable has a clock of its reads and one of its writes.
pub mod Accesses
pub mod Handover
pub mod Races
use mambo.Base.{
  ℕ, ◌≡◌, Bool, true, false, not, ◌&&◌, ◌||◌, if◌then◌else◌, ℤ, pos, minus_one, pos_part,
}
use mambo.DataRace.{
  VectorClock, Thread, vc_initial_sz, vector_clock_init, vector_clock_set,
  vector_clock_happens_before, own_clock,
}

pub record Variable : Type 0 where
  pub rx : VectorClock
  pub wx : VectorClock

-- Whether each `malloc` and `calloc` succeeds, in the order of the calls.
pub record Memory : Type 0 where
  pub rx_malloc : Bool
  pub rx_calloc : Bool
  pub wx_malloc : Bool
  pub wx_calloc : Bool

unfoldable pub variable_init : Memory → Variable → ℤ × Variable
variable_init memory v =
    if not (memory.rx_malloc && memory.rx_calloc)
    then (minus_one, v)
    else (let rx = (vector_clock_init true v.rx vc_initial_sz).1 in
        if not (memory.wx_malloc && memory.wx_calloc)
        then (minus_one, record v { rx = rx })
        else (pos 1, record { rx = rx; wx = (vector_clock_init true v.wx vc_initial_sz).1 }))

unfoldable pub variable_read_is_race_free : Variable → VectorClock → Bool
variable_read_is_race_free v thread_clock = vector_clock_happens_before v.wx thread_clock

unfoldable pub variable_write_is_race_free : Variable → VectorClock → Bool
variable_write_is_race_free v thread_clock =
    vector_clock_happens_before v.wx thread_clock && vector_clock_happens_before v.rx thread_clock

-- False is a race.
unfoldable pub variable_update_read : Variable → Thread → Bool × Variable
variable_update_read v t =
    if variable_read_is_race_free v t.vc
    then (true, record v { rx = vector_clock_set v.rx t.idx (own_clock t) })
    else (false, v)

unfoldable pub variable_update_write : Variable → Thread → Bool × Variable
variable_update_write v t =
    if variable_write_is_race_free v t.vc
    then (true, record v { wx = vector_clock_set v.wx t.idx (own_clock t) })
    else (false, v)
