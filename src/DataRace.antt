-- ===== src/DataRace.antt =====
-- plugins/datarace/detectors: vector clocks, threads and locks, which djit.c and fasttrack.c share,
-- and the events that move them. A clock is a number, for an `int` below 2 ^ 31; the result of the mutex
-- calls is not looked at by the code. `calloc` and `malloc` are the Booleans that say if they succeed.
pub mod Clocks
pub mod Start
pub mod Events
pub mod Djit
pub mod Fasttrack
mod Tests
use mambo.Base.{
  ℕ, zero, suc, ◌+◌, ◌-◌, ◌<◌, ◌≤◌, ◌≡◌, min, Bool, true, false, not, List, [], ◌∷◌, ltb, leb,
  if◌then◌else◌, get_or, set, replicate, length, ℤ, pos, negsuc, minus_one, pos_part, Outcome, ok,
  abort, ◌>>=◌, ◌>>◌, assert,
}

-- Eight threads are supported.
abbrev pub vc_initial_sz : ℕ
vc_initial_sz = 8

pub record VectorClock : Type 0 where
  pub clocks : List ℕ
  pub size : ℕ

-- `vc->clocks[i]`
abbrev pub clock : VectorClock → ℕ → ℕ
clock vc i = get_or vc.clocks i 0

pub vector_clock_init : Bool → VectorClock → ℕ → ℤ × VectorClock
vector_clock_init calloc vc size =
    if calloc
    then (pos 1, record { clocks = replicate size 0; size = size })
    else (minus_one, record vc { size = size; clocks = [] })

unfoldable pub vector_clock_get : VectorClock → ℤ → ℤ
vector_clock_get vc (negsuc idx) = minus_one
vector_clock_get vc (pos idx) = if ltb idx vc.size then pos (clock vc idx) else minus_one

pub vector_clock_increment : VectorClock → ℕ → Outcome VectorClock
vector_clock_increment vc idx =
    assert (ltb idx vc.size) >> ok (record vc { clocks = set vc.clocks idx (suc (clock vc idx)) })

-- djit.c; fasttrack.c has the bound of the index as an `assert` before.
pub vector_clock_set : VectorClock → ℕ → ℕ → VectorClock
vector_clock_set vc idx value = record vc { clocks = set vc.clocks idx value }

-- The rounds of `vector_clock_update` for the indices below i, upwards.
pub update_rounds : ℕ → VectorClock → VectorClock → VectorClock
update_rounds zero vc other = vc
update_rounds (suc i) vc other =
    let before = update_rounds i vc other in
    if ltb (clock before i) (clock other i)
    then record before { clocks = set before.clocks i (clock other i) }
    else before

pub vector_clock_update : VectorClock → VectorClock → VectorClock
vector_clock_update vc other = update_rounds other.size vc other

-- The rounds of `vector_clock_happens_before` from index i on.
unfoldable pub compare_rounds : ℕ → ℕ → VectorClock → VectorClock → Bool
compare_rounds zero i vc other = true
compare_rounds (suc n) i vc other =
    let rest = compare_rounds n (suc i) vc other in
    if ltb (clock other i) (clock vc i) then false else rest

unfoldable pub vector_clock_happens_before : VectorClock → VectorClock → Bool
vector_clock_happens_before vc other =
    let min_size = if ltb vc.size other.size then vc.size else other.size in
    compare_rounds min_size 0 vc other

pub record Thread : Type 0 where
  pub idx : ℕ
  pub vc : VectorClock

-- The first Boolean is for the `malloc`, the second for the `calloc`.
pub thread_init : Bool → Bool → VectorClock → ℕ → Outcome (ℤ × Thread)
thread_init malloc calloc garbage thread_idx =
    if not malloc
    then ok (minus_one, record { idx = thread_idx; vc = garbage })
    else (let r = vector_clock_init calloc garbage vc_initial_sz in
        if not calloc
        then ok (minus_one, record { idx = thread_idx; vc = r.1 })
        else (vector_clock_increment r.1 thread_idx >>= λ vc.
            ok (pos 1, record { idx = thread_idx; vc = vc })))

unfoldable pub thread_get_clock : Thread → ℤ
thread_get_clock t = vector_clock_get t.vc (pos t.idx)

-- `thread_get_clock(t)` as an entry: `thread_init` has made sure that the index is in the clock.
abbrev pub own_clock : Thread → ℕ
own_clock t = pos_part (thread_get_clock t)

unfoldable thread_get_idx : Thread → ℕ
thread_get_idx t = t.idx

pub thread_increment : Thread → Outcome Thread
thread_increment t = vector_clock_increment t.vc t.idx >>= λ vc. ok (record t { vc = vc })

pub thread_update_vc : Thread → VectorClock → Thread
thread_update_vc t other_clock = record t { vc = vector_clock_update t.vc other_clock }

-- The threads and the locks that the detector knows; a thread's place in the list is its index.
pub record System : Type 0 where
  pub threads : List Thread
  pub locks : List VectorClock

abbrev pub no_clock : VectorClock
no_clock = record { clocks = []; size = 0 }

abbrev pub thread : System → ℕ → Thread
thread s t = get_or s.threads t (record { idx = 0; vc = no_clock })

abbrev pub lock : System → ℕ → VectorClock
lock s l = get_or s.locks l no_clock

abbrev pub put_thread : System → ℕ → Thread → System
put_thread s t value = record s { threads = set s.threads t value }

pub thread_fork : System → ℕ → ℕ → Outcome System
thread_fork s parent child =
    let s₁ = put_thread s child (thread_update_vc (thread s child) (thread s parent).vc) in
    thread_increment (thread s₁ parent) >>= λ t. ok (put_thread s₁ parent t)

pub thread_join : System → ℕ → ℕ → Outcome System
thread_join s parent child =
    let s₁ = put_thread s parent (thread_update_vc (thread s parent) (thread s child).vc) in
    thread_increment (thread s₁ child) >>= λ t. ok (put_thread s₁ child t)

pub lock_acquire : System → ℕ → ℕ → Outcome System
lock_acquire s l t = ok (put_thread s t (thread_update_vc (thread s t) (lock s l)))

pub lock_release : System → ℕ → ℕ → Outcome System
lock_release s l t =
    let s₁ = record s { locks = set s.locks l (vector_clock_update (lock s l) (thread s t).vc) } in
    thread_increment (thread s₁ t) >>= λ t'. ok (put_thread s₁ t t')

-- The calls that the plugin makes.
pub data Event : Type 0 where
  fork : ℕ → ℕ → Event
  join : ℕ → ℕ → Event
  acquire : ℕ → ℕ → Event
  release : ℕ → ℕ → Event

unfoldable pub handle : Event → System → Outcome System
handle (Event.fork parent child) s = thread_fork s parent child
handle (Event.join parent child) s = thread_join s parent child
handle (Event.acquire l t) s = lock_acquire s l t
handle (Event.release l t) s = lock_release s l t

unfoldable pub handle_all : List Event → System → Outcome System
handle_all [] s = ok s
handle_all (e ∷ events) s = handle e s >>= handle_all events
