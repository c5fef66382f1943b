-- ===== src/Dbm/Registry.antt =====
-- The list of threads of dbm.c after a thread is added or taken out.
use mambo.Base.{
  ◌>>=◌, ok, ℕ, ◌<◌, ◌≡◌, ◌∙◌, refl, sym, ap, Bool, true, false, some, List, ◌∷◌, ◌==◌,
  if◌then◌else◌, length, is_in, without, ℤ, pos, minus_one, is_zero, Returns, arith, Bool-cases,
  inl, inr,
}
use mathlib.Core.Path.{subst}
use mathlib.Core.Bool.{true≢false}
use mambo.Dbm.Threads.{
  Callback, Registry, Mutex, taken, put_next, is_thread, register_thread, previous, unlink,
  unlink_from, unregister_thread,
}
use mambo.Dbm.Chain.{Chain, Walked, is_in-without, Chain-put, previous_lem}

-- What `unlink` does with the thread before, by what stands behind it.
abbrev cut_behind : Registry → ℕ → ℕ → ℤ × Registry
cut_behind r thread prev =
    if is_thread (r.next prev) thread
    then (pos 0, record r { next = put_next r.next prev (r.next thread) })
    else (minus_one, r)

unlink_eq :
    (fuel : ℕ) (r : Registry) (thread first : ℕ)
    → r.threads ≡ some first
    → unlink fuel r thread ≡ (
        if first == thread
        then ok (pos 0, record r { threads = r.next thread })
        else previous fuel r thread first >>= λ prev. ok (cut_behind r thread prev))
unfolding unlink unlink_from
unlink_eq fuel r thread first h = ap (unlink_from fuel r thread) h

-- The thread is cut out if it is in the list, or nothing is changed.
abbrev Unlinked : Registry → ℕ → List ℕ → ℤ × Registry → Type 0
Unlinked r thread xs (status, after) =
    (is_in thread xs ≡ true
      → (status ≡ pos 0)
        × Chain after.next after.threads (without thread xs)
        × (after.delivered ≡ r.delivered))
    × (is_in thread xs ≡ false → (status ≡ minus_one) × (after ≡ r))

head-Unlinked :
    (r : Registry) (thread : ℕ) (xs : List ℕ)
    → Chain r.next (r.next thread) xs
    → Unlinked r thread (thread ∷ xs) (pos 0, record r { threads = r.next thread })
unfolding is_in without
head-Unlinked r thread xs rest =
    let hit : (thread == thread) ≡ true = ground arith in
    rw hit (λ h. (refl, rest, refl), λ h. absurd (true≢false h))

cut-Unlinked :
    (r : Registry) (thread first p : ℕ) (xs : List ℕ)
    → r.threads ≡ some first
    → (first == thread) ≡ false
    → is_in first xs ≡ false
    → Walked r thread first xs p
    → Unlinked r thread (first ∷ xs) (cut_behind r thread p)
unfolding is_in without
cut-Unlinked r thread first p xs here other once (where_p, found, lost) =
    let other' : (thread == first) ≡ false = ground (arith, other) in
    elim (Bool-cases (is_in thread xs)) [
      | inl inside ↦
          let (link, chain) = found inside in
          let hit : is_thread (r.next p) thread ≡ true =
            ap (λ o. is_thread o thread) link ∙ ground arith in
          let after = record r { next = put_next r.next p (r.next thread) } in
          let cut : cut_behind r thread p ≡ (pos 0, after) = rw hit refl in
          let kept : Unlinked r thread (first ∷ xs) (pos 0, after) =
            rw (other', inside)
              (
                λ h. (refl, (here, is_in-without first thread xs once, chain), refl),
                λ h. absurd (true≢false h),
              ) in
          subst (Unlinked r thread (first ∷ xs)) (sym cut) kept
      | inr outside ↦
          let cut : cut_behind r thread p ≡ (minus_one, r) = rw (lost outside) refl in
          let same : Unlinked r thread (first ∷ xs) (minus_one, r) =
            rw (other', outside) (λ h. absurd (true≢false (sym h)), λ h. (refl, refl)) in
          subst (Unlinked r thread (first ∷ xs)) (sym cut) same
    ]

unlink_lem :
    (xs : List ℕ) (fuel : ℕ) (r : Registry) (thread first : ℕ)
    → Chain r.next r.threads (first ∷ xs)
    → length xs < fuel
    → Returns (unlink fuel r thread) (Unlinked r thread (first ∷ xs))
unlink_lem xs fuel r thread first (here, once, rest) enough = elim (Bool-cases (first == thread)) [
  | inl same ↦
      let e : thread ≡ first = ground arith in
      rw (unlink_eq fuel r thread first here, same) (_, refl, rw e (head-Unlinked r first xs rest))
  | inr other ↦
      let (p, run, walked) = previous_lem xs fuel r thread first rest once enough in
      rw (unlink_eq fuel r thread first here, other, run)
        (_, refl, cut-Unlinked r thread first p xs here other once walked)
]

taken_ok : (ret : ℤ) (has_lock : Bool) → is_zero ret ≡ true → taken ret has_lock ≡ ok tt
taken_ok ret true h = refl
taken_ok ret false h = rw h refl

in_front :
    (xs : List ℕ) (r : Registry) (thread : ℕ)
    → is_in thread xs ≡ false
    → Chain r.next r.threads xs
    → Chain (put_next r.next thread r.threads) (some thread) (thread ∷ xs)
in_front xs r thread out chain =
    let self : (thread == thread) ≡ true = ground arith in
    (refl, out, rw self (Chain-put xs r.next r.threads r.threads thread out chain))

-- In a list of threads that is not empty, with mutex calls that succeed and a fuel above its length:
-- `unregister_thread` returns 0 for a thread of the list, which then is the list without it, and
-- delivers its last callback; for another thread it returns -1 and changes nothing.
-- `register_thread` returns 0 for a thread outside the list, and puts it in front.
pub unregister_thread_lem :
    (xs : List ℕ) (fuel : ℕ) (mutex : Mutex) (r : Registry) (thread first : ℕ) (has_lock : Bool)
    → Chain r.next r.threads (first ∷ xs)
    → length xs < fuel
    → is_zero mutex.lock ≡ true
    → is_zero mutex.unlock ≡ true
    → Returns (unregister_thread fuel mutex r thread has_lock) (λ (status, after).
      (is_in thread (first ∷ xs) ≡ true
        → (status ≡ pos 0)
          × Chain after.next after.threads (without thread (first ∷ xs))
          × (after.delivered ≡ Callback.post_thread thread ∷ r.delivered))
      × (is_in thread (first ∷ xs) ≡ false → (status ≡ minus_one) × (after ≡ r)))
      × (is_in thread (first ∷ xs) ≡ false
          → Returns (register_thread mutex r thread has_lock) λ (status, after).
            (status ≡ pos 0) × Chain after.next after.threads (thread ∷ first ∷ xs))
unfolding unregister_thread register_thread
unregister_thread_lem xs fuel mutex r thread first has_lock chain enough locks unlocks =
    let lock_ok = taken_ok mutex.lock has_lock locks in
    let unlock_ok = taken_ok mutex.unlock has_lock unlocks in
    let ((status, after), run, (found, lost)) = unlink_lem xs fuel r thread first chain enough in
    (
      elim (Bool-cases (is_in thread (first ∷ xs))) [
        | inl inside ↦
            let (zero_status, cut, same) = found inside in
            rw (lock_ok, unlock_ok, run, ap is_zero zero_status)
              (
                _,
                refl,
                (
                  λ h. (zero_status, cut, ap (λ d. Callback.post_thread thread ∷ d) same),
                  λ h. absurd (true≢false (sym inside ∙ h)),
                ),
              )
        | inr outside ↦
            let (failed, same) = lost outside in
            rw (lock_ok, unlock_ok, run, ap is_zero failed)
              (_, refl, (λ h. absurd (true≢false (sym h ∙ outside)), λ h. (failed, same)))
      ],
      λ out. rw (lock_ok, unlock_ok) (_, refl, (refl, in_front (first ∷ xs) r thread out chain)),
    )
