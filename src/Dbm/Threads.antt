-- ===== src/Dbm/Threads.antt =====
-- The list of threads of dbm.c. A `dbm_thread` is a number, and `next` its field `next_thread`. The
-- results of the mutex are parameters; the callbacks are recorded, the newest first.
use mambo.Base.{
  ℕ, zero, suc, Bool, false, Option, none, some, List, ◌∷◌, ◌==◌, if◌then◌else◌, ℤ, pos, minus_one,
  is_zero, Outcome, ok, abort, hang, assert, ◌>>=◌, ◌>>◌,
}

pub data Callback : Type 0 where
  pre_thread : ℕ → Callback
  post_thread : ℕ → Callback

-- `global_data.threads`, the links, and the callbacks delivered.
pub record Registry : Type 0 where
  pub threads : Option ℕ
  pub next : ℕ → Option ℕ
  pub delivered : List Callback

-- What the calls of pthread_mutex_lock and pthread_mutex_unlock return.
pub record Mutex : Type 0 where
  pub lock : ℤ
  pub unlock : ℤ

abbrev pub put_next : (ℕ → Option ℕ) → ℕ → Option ℕ → ℕ → Option ℕ
put_next next thread value = λ x. if x == thread then value else next x

-- The mutex is taken or given back, unless the caller does it.
abbrev pub taken : ℤ → Bool → Outcome (Unit {0})
taken ret caller_has_lock = if caller_has_lock then ok tt else assert (is_zero ret)

unfoldable pub register_thread : Mutex → Registry → ℕ → Bool → Outcome (ℤ × Registry)
register_thread mutex r thread caller_has_lock =
    taken mutex.lock caller_has_lock
    >> taken mutex.unlock caller_has_lock
    >> ok (
      pos 0,
      record {
        threads = some thread;
        next = put_next r.next thread r.threads;
        delivered = Callback.pre_thread thread ∷ r.delivered;
      },
    )

-- The `while` loop: the last thread before the one looked for, or the last of all.
unfoldable pub previous : ℕ → Registry → ℕ → ℕ → Outcome ℕ
previous zero r thread prev = hang
previous (suc fuel) r thread prev = elim (r.next prev) [
  | none ↦ ok prev
  | some n ↦ let rest = previous fuel r thread n in if n == thread then ok prev else rest
]

abbrev pub is_thread : Option ℕ → ℕ → Bool
is_thread none thread = false
is_thread (some n) thread = n == thread

-- The status, and the list without the thread. A walk from an empty list reads a null pointer.
unfoldable pub unlink_from : ℕ → Registry → ℕ → Option ℕ → Outcome (ℤ × Registry)
unlink_from fuel r thread none = abort
unlink_from fuel r thread (some first) =
    let walked = previous fuel r thread first >>= λ prev. ok (
      if is_thread (r.next prev) thread
      then (pos 0, record r { next = put_next r.next prev (r.next thread) })
      else (minus_one, r)) in
    if first == thread then ok (pos 0, record r { threads = r.next thread }) else walked

unfoldable pub unlink : ℕ → Registry → ℕ → Outcome (ℤ × Registry)
unlink fuel r thread = unlink_from fuel r thread r.threads

unfoldable pub unregister_thread : ℕ → Mutex → Registry → ℕ → Bool → Outcome (ℤ × Registry)
unregister_thread fuel mutex r thread caller_has_lock =
    taken mutex.lock caller_has_lock
    >> (unlink fuel r thread >>= λ (status, r₁).
        let r₂ =
          if is_zero status
          then record r₁ { delivered = Callback.post_thread thread ∷ r₁.delivered }
          else r₁ in
        taken mutex.unlock caller_has_lock >> ok (status, r₂))
