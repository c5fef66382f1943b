-- ===== src/DataRace/Events.antt =====
-- The state of the detectors in plugins/datarace/detectors: what is valid, and what changes when a
-- thread hears of a clock or moves its own.
pub mod Fork
pub mod Locks
pub mod Sequences
use mambo.Base.{
  ℕ, zero, suc, ◌+◌, ◌-◌, ◌<◌, ◌≤◌, ◌≡◌, ◌≢◌, ◌↔◌, ◌∙◌, refl, sym, ap, max, Bool, true, false, List,
  [], ◌∷◌, ltb, ◌==◌, if◌then◌else◌, get_or, set, length, length-set, get_or-set_self,
  get_or-set_ne, arith, inl, inr, Bool-cases, Outcome, ok, ◌>>=◌, Returns,
}
use mambo.DataRace.{
  VectorClock, Thread, System, Event, clock, no_clock, thread, lock, put_thread,
  vector_clock_increment, vector_clock_set, vector_clock_update, thread_increment, thread_update_vc,
  thread_fork, thread_join, lock_acquire, lock_release, handle, handle_all,
}
use mambo.DataRace.Clocks.{
  Sized, vector_clock_update-clock, vector_clock_update-Sized, vector_clock_increment_lem,
  vector_clock_set-clock, vector_clock_set-Sized,
}

-- What thread i knows of thread j.
abbrev pub knows : System → ℕ → ℕ → ℕ
knows s i j = clock (thread s i).vc j

-- At most eight threads, each at its index, and clocks of eight entries.
abbrev pub Shaped : System → Type 0
Shaped s =
    (length s.threads ≤ 8)
    × ((i : ℕ) → i < length s.threads → ((thread s i).idx ≡ i) × Sized (thread s i).vc)
    × ((l : ℕ) → l < length s.locks → Sized (lock s l))

-- Every thread is strictly ahead of what the other threads and the locks know of it.
abbrev pub Ahead : System → Type 0
Ahead s =
    ((i j : ℕ) → i < length s.threads → j < length s.threads → i ≢ j → knows s i j < knows s j j)
    × ((l j : ℕ) → l < length s.locks → j < length s.threads → clock (lock s l) j < knows s j j)

-- A state of n threads and m locks that is shaped and ahead.
abbrev pub IsValid : ℕ → ℕ → System → Type 0
IsValid n m s = (length s.threads ≡ n) × (length s.locks ≡ m) × Shaped s × Ahead s

-- No thread's own clock has moved by more than one.
abbrev pub Step : ℕ → System → System → Type 0
Step n s s' = (j : ℕ) → j < n → knows s' j j ≤ suc (knows s j j)

-- The threads' own clocks are below a bound, so that by Ahead all that is known of them is.
abbrev pub ClocksBelow : ℕ → ℕ → System → Type 0
ClocksBelow bound n s = (j : ℕ) → j < n → knows s j j < bound

-- Among n threads and m locks, those of an event are there, and the two threads of one differ.
abbrev pub Enabled : ℕ → ℕ → Event → Type 0
Enabled n m (Event.fork parent child) = (parent < n) × (child < n) × (parent ≢ child)
Enabled n m (Event.join parent child) = (parent < n) × (child < n) × (parent ≢ child)
Enabled n m (Event.acquire l t) = (l < m) × (t < n)
Enabled n m (Event.release l t) = (l < m) × (t < n)

abbrev pub AllEnabled : ℕ → ℕ → List Event → Type 0
AllEnabled n m [] = Unit
AllEnabled n m (e ∷ events) = Enabled n m e × AllEnabled n m events

thread-put_thread :
    (s : System) (t i : ℕ) (v : Thread)
    → t < length s.threads
    → thread (put_thread s t v) i ≡ (if t == i then v else thread s i)
thread-put_thread s t i v h = elim (Bool-cases (t == i)) [
  | inl same ↦ let e : i ≡ t = ground arith in rw (same, e) (get_or-set_self s.threads t v _ h)
  | inr other ↦ rw other (get_or-set_ne s.threads t i v _ (ground arith))
]

put_thread-Shaped :
    (s : System) (t : ℕ) (v : Thread)
    → Shaped s
    → t < length s.threads
    → v.idx ≡ t
    → Sized v.vc
    → Shaped (put_thread s t v)
put_thread-Shaped s t v shape h i z =
    let size = length-set s.threads t v in
    (
      omega (arith, size, shape.0),
      λ k l. rw (thread-put_thread s t k v h) (elim (Bool-cases (t == k)) [
        | inl same ↦ rw same (i ∙ ground arith, z)
        | inr other ↦ rw other (shape.1 k (omega (arith, size)))
      ]),
      shape.2,
    )

-- A thread moves its own clock.
pub thread_increment_lem :
    (t : Thread)
    → Sized t.vc
    → t.idx < 8
    → thread_increment t
      ≡ ok (record t { vc = vector_clock_set t.vc t.idx (suc (clock t.vc t.idx)) })
unfolding thread_increment
thread_increment_lem t h l = rw (vector_clock_increment_lem t.vc t.idx h l).0 refl

-- The state after thread t hears of a clock, and after thread p moves its own.
abbrev pub heard : System → ℕ → VectorClock → System
heard s t vc = put_thread s t (thread_update_vc (thread s t) vc)

abbrev pub moved : System → ℕ → System
moved s p =
    let t = thread s p in
    put_thread s p (record t { vc = vector_clock_set t.vc t.idx (suc (clock t.vc t.idx)) })

-- What a move changes.
pub moved-knows :
    (s : System) (p i j : ℕ)
    → Shaped s
    → p < length s.threads
    → knows (moved s p) i j
      ≡ (if p == i then (if p == j then suc (knows s p p) else knows s p j) else knows s i j)
moved-knows s p i j shape h =
    let t = thread s p in
    let v : Thread = record t { vc = vector_clock_set t.vc t.idx (suc (clock t.vc t.idx)) } in
    let own = shape.1 p h in
    rw (thread-put_thread s p i v h) (elim (Bool-cases (p == i)) [
      | inl same ↦ rw (same) (
          vector_clock_set-clock t.vc t.idx j _ own.1 (omega (arith, own.0, shape.0))
          ∙ rw own.0 refl)
      | inr other ↦ rw other refl
    ])

pub heard-knows :
    (s : System) (t : ℕ) (vc : VectorClock) (i j : ℕ)
    → Shaped s
    → t < length s.threads
    → Sized vc
    → j < 8
    → knows (heard s t vc) i j ≡ (if t == i then max (knows s t j) (clock vc j) else knows s i j)
unfolding thread_update_vc
heard-knows s t vc i j shape h z l =
    rw (thread-put_thread s t i (thread_update_vc (thread s t) vc) h) (elim (Bool-cases (t == i)) [
      | inl same ↦ rw same (vector_clock_update-clock _ vc j (shape.1 t h).1 z l)
      | inr other ↦ rw other refl
    ])

pub heard-Shaped :
    (s : System) (t : ℕ) (vc : VectorClock)
    → Shaped s
    → t < length s.threads
    → Shaped (heard s t vc)
unfolding thread_update_vc
heard-Shaped s t vc shape h =
    put_thread-Shaped s t _ shape h (shape.1 t h).0 (vector_clock_update-Sized _ vc (shape.1 t h).1)

pub moved-Shaped : (s : System) (p : ℕ) → Shaped s → p < length s.threads → Shaped (moved s p)
moved-Shaped s p shape h =
    let own = shape.1 p h in
    put_thread-Shaped s p _ shape h own.0 (vector_clock_set-Sized (thread s p).vc _ _ own.1)

pub length-heard :
    (s : System) (t : ℕ) (vc : VectorClock) → length (heard s t vc).threads ≡ length s.threads
length-heard s t vc = length-set s.threads t (thread_update_vc (thread s t) vc)
