-- ===== src/DataRace/Fasttrack.antt =====
-- plugins/datarace/detectors/fasttrack.c: a variable has the epoch of its last write, and the epoch of
-- its last read until two reads are concurrent; then it has a clock of the reads. The clocks, threads
-- and locks are those of djit.c, but a write to a clock checks the index.
pub mod Accesses
pub mod Races
use mambo.Base.{
  ℕ, Bool, true, false, not, ◌&&◌, leb, ◌==◌, if◌then◌else◌, ℤ, pos, negsuc, minus_one, pos_part,
  is_zero, ltb, Outcome, ok, ◌>>=◌, ◌>>◌, assert,
}
use mambo.DataRace.{
  VectorClock, Thread, vc_initial_sz, own_clock, vector_clock_get, vector_clock_set,
  vector_clock_init, vector_clock_happens_before,
}

-- `epoch_t`
pub record Epoch : Type 0 where
  pub time : ℕ
  pub thread_idx : ℕ

abbrev epoch_init : Epoch
epoch_init = record { time = 0; thread_idx = 0 }

-- 1 or 0, and -1 for an index out of the clock.
unfoldable pub epoch_happens_before_vc : Epoch → VectorClock → ℤ
epoch_happens_before_vc epoch vc =
    if leb vc.size epoch.thread_idx
    then minus_one
    else if leb epoch.time (pos_part (vector_clock_get vc (pos epoch.thread_idx)))
    then pos 1
    else pos 0

pub checked_set : VectorClock → ℕ → ℕ → Outcome VectorClock
checked_set vc idx value = assert (ltb idx vc.size) >> ok (vector_clock_set vc idx value)

pub record Variable : Type 0 where
  pub rx_vc : VectorClock
  pub rx_epoch : Epoch
  pub wx_epoch : Epoch
  pub is_shared : Bool

-- `is_shared` keeps what `malloc` has left there.
unfoldable pub variable_init : Variable → Variable
variable_init v = record v {
  rx_vc = (vector_clock_init true v.rx_vc vc_initial_sz).1;
  rx_epoch = epoch_init;
  wx_epoch = epoch_init;
}

abbrev epoch_of : Thread → Epoch
epoch_of t = record { time = own_clock t; thread_idx = t.idx }

-- The access has the epoch of the thread.
abbrev pub same_epoch : Epoch → Thread → Bool
same_epoch epoch t = epoch.thread_idx == t.idx && epoch.time == own_clock t

-- The part of `variable_update_read` after the checks.
unfoldable pub record_read : Variable → Thread → Outcome (Bool × Variable)
record_read v t =
    if v.is_shared
    then (do rx_vc ← checked_set v.rx_vc t.idx (own_clock t); ok (true, record v { rx_vc = rx_vc }))
    else if not (is_zero (epoch_happens_before_vc v.rx_epoch t.vc))
    then ok (true, record v { rx_epoch = epoch_of t })
    else (do
      first ← checked_set v.rx_vc v.rx_epoch.thread_idx v.rx_epoch.time
      second ← checked_set first t.idx (own_clock t)
      ok (true, record v { rx_vc = second; is_shared = true }))

-- False is a race.
unfoldable pub variable_update_read : Variable → Thread → Outcome (Bool × Variable)
variable_update_read v t =
    if same_epoch v.rx_epoch t
    then ok (true, v)
    else if v.is_shared && pos_part (vector_clock_get v.rx_vc (pos t.idx)) == own_clock t
    then ok (true, v)
    else if is_zero (epoch_happens_before_vc v.wx_epoch t.vc)
    then ok (false, v)
    else record_read v t

-- Whether the reads are before the thread.
unfoldable pub reads_before : Variable → Thread → Bool
reads_before v t =
    if v.is_shared
    then vector_clock_happens_before v.rx_vc t.vc
    else not (is_zero (epoch_happens_before_vc v.rx_epoch t.vc))

unfoldable pub variable_update_write : Variable → Thread → Bool × Variable
variable_update_write v t =
    if same_epoch v.wx_epoch t
    then (true, v)
    else if is_zero (epoch_happens_before_vc v.wx_epoch t.vc)
    then (false, v)
    else if not (reads_before v t)
    then (false, v)
    else (true, record v { wx_epoch = epoch_of t })
