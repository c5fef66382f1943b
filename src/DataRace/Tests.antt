-- ===== src/DataRace/Tests.antt =====
-- The data race detectors on two threads, a lock and a fresh variable.
use mambo.Base.{
  ℕ, ◌^◌, zero, suc, ◌<◌, ◌≡◌, ◌≢◌, refl, true, false, List, [], ◌∷◌, replicate, arith, Returns,
}
use mambo.DataRace.{
  thread_get_clock, vector_clock_get, VectorClock, System, Event, clock, thread, lock, handle_all,
  vector_clock_happens_before, compare_rounds,
}
use mambo.DataRace.Clocks.{Sized}
use mambo.DataRace.Fasttrack
use mambo.DataRace.Fasttrack.Races.{epoch_write-reports}
use mambo.DataRace.Events.{knows, IsValid, ClocksBelow, Shaped, Ahead}
use mambo.DataRace.Events.Sequences.{handle_all_lem}
use mambo.DataRace.Djit.{
  Variable, variable_write_is_race_free, variable_update_read, variable_update_write,
}
use mambo.DataRace.Djit.Races.{variable_update_write-reports, variable_update_write-ordered}

abbrev fresh_clock : VectorClock
fresh_clock = record { clocks = replicate 8 0; size = 8 }

-- Two threads as `thread_init` makes them.
abbrev two_threads : System
two_threads = record {
  threads =
      record { idx = 0; vc = record { clocks = 1 ∷ replicate 7 0; size = 8 } }
      ∷ record { idx = 1; vc = record { clocks = 0 ∷ 1 ∷ replicate 6 0; size = 8 } }
      ∷ [];
  locks = fresh_clock ∷ [];
}

thread-Sized : (i : ℕ) → i < 2 → ((thread two_threads i).idx ≡ i) × Sized (thread two_threads i).vc
thread-Sized zero h = (refl, (refl, refl))
thread-Sized (suc zero) h = (refl, (refl, refl))
thread-Sized (suc (suc i)) h = absurd (omega arith)

lock-Sized : (l : ℕ) → l < 1 → Sized (lock two_threads l)
lock-Sized zero h = (refl, refl)
lock-Sized (suc l) h = absurd (omega arith)

two_threads-Shaped : Shaped two_threads
two_threads-Shaped = (omega arith, thread-Sized, lock-Sized)

known_behind : (i j : ℕ) → i < 2 → j < 2 → i ≢ j → knows two_threads i j < knows two_threads j j
known_behind zero zero h h' apart = absurd (apart refl)
known_behind zero (suc zero) h h' apart = omega arith
known_behind zero (suc (suc j)) h h' apart = absurd (omega arith)
known_behind (suc zero) zero h h' apart = omega arith
known_behind (suc zero) (suc zero) h h' apart = absurd (apart refl)
known_behind (suc zero) (suc (suc j)) h h' apart = absurd (omega arith)
known_behind (suc (suc i)) j h h' apart = absurd (omega arith)

lock_behind : (l j : ℕ) → l < 1 → j < 2 → clock (lock two_threads l) j < knows two_threads j j
lock_behind zero zero h h' = omega arith
lock_behind zero (suc zero) h h' = omega arith
lock_behind zero (suc (suc j)) h h' = absurd (omega arith)
lock_behind (suc l) j h h' = absurd (omega arith)

two_threads-Ahead : Ahead two_threads
two_threads-Ahead = (known_behind, lock_behind)

two_threads-IsValid : IsValid 2 1 two_threads
two_threads-IsValid = (refl, refl, two_threads-Shaped, two_threads-Ahead)

abbrev handover : List Event
handover = Event.fork 0 1 ∷ Event.release 0 1 ∷ Event.acquire 0 0 ∷ Event.join 0 1 ∷ []

two_threads-ClocksBelow : ClocksBelow 3 2 two_threads
two_threads-ClocksBelow zero h = omega arith
two_threads-ClocksBelow (suc zero) h = omega arith
two_threads-ClocksBelow (suc (suc j)) h = absurd (omega arith)

handle_all_example :
    Returns (handle_all handover two_threads) λ s'. IsValid 2 1 s' × ClocksBelow (2 ^ 31) 2 s'
handle_all_example =
    handle_all_lem 2 1 2 handover two_threads two_threads-IsValid two_threads-ClocksBelow
      (omega arith)
      (
        (omega arith, omega arith, omega arith),
        (
          (omega arith, omega arith),
          ((omega arith, omega arith), ((omega arith, omega arith, omega arith), tt)),
        ),
      )

abbrev fresh_variable : Variable
fresh_variable = record { rx = fresh_clock; wx = fresh_clock }

first_write : (variable_update_write fresh_variable (thread two_threads 0)).0 ≡ true
unfolding variable_update_write variable_write_is_race_free vector_clock_happens_before
    compare_rounds
first_write = refl

abbrev written_by_0 : Variable
written_by_0 = (variable_update_write fresh_variable (thread two_threads 0)).1

variable_update_write-reports_example :
    (variable_update_read written_by_0 (thread two_threads 1) ≡ (false, written_by_0))
    × (variable_update_write written_by_0 (thread two_threads 1) ≡ (false, written_by_0))
variable_update_write-reports_example =
    variable_update_write-reports 2 1 two_threads two_threads-IsValid fresh_variable
      ((refl, refl), (refl, refl)) 1 0 (omega arith) (omega arith) (omega arith) first_write

variable_update_write-ordered_example :
    Returns (handle_all (Event.release 0 0 ∷ Event.acquire 0 1 ∷ []) two_threads) λ s'.
      ((variable_update_read written_by_0 (thread s' 1)).0 ≡ true)
      × ((variable_update_write written_by_0 (thread s' 1)).0 ≡ true)
variable_update_write-ordered_example =
    variable_update_write-ordered 2 1 two_threads two_threads-IsValid fresh_variable
      ((refl, refl), (refl, refl)) 1 0 (omega arith) (omega arith) 0 (omega arith) first_write

-- A variable of fasttrack.c, read by thread 1 before.
abbrev read_variable : Fasttrack.Variable
read_variable = record {
  rx_vc = fresh_clock;
  rx_epoch = record { time = 0; thread_idx = 1 };
  wx_epoch = record { time = 0; thread_idx = 0 };
  is_shared = false;
}

abbrev fast_written : Fasttrack.Variable
fast_written = (Fasttrack.variable_update_write read_variable (thread two_threads 0)).1

fast_write : (Fasttrack.variable_update_write read_variable (thread two_threads 0)).0 ≡ true
unfolding Fasttrack.variable_update_write Fasttrack.epoch_happens_before_vc Fasttrack.reads_before
    thread_get_clock vector_clock_get
fast_write = refl

epoch_write-reports_example :
    Fasttrack.variable_update_write fast_written (thread two_threads 1) ≡ (false, fast_written)
epoch_write-reports_example =
    epoch_write-reports 2 1 two_threads two_threads-IsValid read_variable 1 0 (omega arith)
      (omega arith) (omega arith) fast_write
