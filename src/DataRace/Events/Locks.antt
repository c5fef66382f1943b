-- ===== src/DataRace/Events/Locks.antt =====
-- Acquires and releases of plugins/datarace/detectors keep a state valid.
use mambo.Base.{
  ℕ, suc, ◌<◌, ◌≤◌, ◌≡◌, ◌≢◌, ◌∙◌, refl, max, false, ◌==◌, if◌then◌else◌, set, length, length-set,
  get_or-set_self, get_or-set_ne, arith, inl, inr, Bool-cases, ok, Returns,
}
use mambo.DataRace.{
  System, clock, no_clock, thread, lock, vector_clock_update, lock_acquire, lock_release,
}
use mambo.DataRace.Clocks.{vector_clock_update-clock, vector_clock_update-Sized}
use mambo.DataRace.Events.{
  knows, Shaped, Ahead, IsValid, Step, thread_increment_lem, heard, moved, moved-knows, heard-knows,
  length-heard, heard-Shaped, moved-Shaped,
}

abbrev pub locked_by : System → ℕ → ℕ → System
locked_by s l t = record s {
  locks = set s.locks l (vector_clock_update (lock s l) (thread s t).vc);
}

pub lock_release_lem :
    (s : System) (l t : ℕ)
    → Shaped s
    → t < length s.threads
    → lock_release s l t ≡ ok (moved (locked_by s l t) t)
unfolding lock_release
lock_release_lem s l t shape h =
    let own = shape.1 t h in
    rw (thread_increment_lem (thread s t) own.1 (omega (arith, own.0, h, shape.0))) refl

-- The arithmetic of an acquire: the thread hears of a clock that is behind every thread.
ahead_after_acquire :
    (k : ℕ → ℕ → ℕ) (v : ℕ → ℕ) (t i j : ℕ)
    → i ≢ j
    → k i j < k j j
    → (t ≢ j → k t j < k j j)
    → v j < k j j
    → (if t == i then max (k t j) (v j) else k i j) < (if t == j then max (k t j) (v j) else k j j)
ahead_after_acquire k v t i j different known by_t far = elim (Bool-cases (t == j)) [
  | inl own ↦
      let e : t ≡ j = ground arith in
      let other : (t == i) ≡ false = ground arith in rw (own, other, e) (ground (arith, known))
  | inr not_own ↦
      let known_t = by_t (ground arith) in rw not_own (ground (arith, known, known_t, far))
]

own_after_acquire :
    (k : ℕ → ℕ → ℕ) (v : ℕ → ℕ) (t j : ℕ) → k j j ≤ (if t == j then max (k t j) (v j) else k j j)
own_after_acquire k v t j = elim (Bool-cases (t == j)) [
  | inl own ↦ let e : t ≡ j = ground arith in rw (own, e) (ground arith)
  | inr not_own ↦ rw not_own (ground arith)
]

heard-Ahead :
    (s : System) (l t : ℕ)
    → Shaped s
    → Ahead s
    → l < length s.locks
    → t < length s.threads
    → Ahead (heard s t (lock s l))
heard-Ahead s l t shape ahead hl ht =
    let vc = lock s l in
    let size = length-heard s t vc in
    let z = shape.2 l hl in
    (
      λ i j li lj different.
          let lj' : j < length s.threads = omega (arith, size, lj) in
          let li' : i < length s.threads = omega (arith, size, li) in
          let bound : j < 8 = omega (arith, lj', shape.0) in
          rw (heard-knows s t vc i j shape ht z bound, heard-knows s t vc j j shape ht z bound)
            (ahead_after_acquire (knows s) (clock vc) t i j different
              (ahead.0 i j li' lj' different) (ahead.0 t j ht lj') (ahead.1 l j hl lj')),
      λ k j lk lj.
          let lj' : j < length s.threads = omega (arith, size, lj) in
          let bound : j < 8 = omega (arith, lj', shape.0) in
          rw (heard-knows s t vc j j shape ht z bound)
            (omega (arith, ahead.1 k j lk lj', own_after_acquire (knows s) (clock vc) t j)),
    )

acquire_step :
    (k : ℕ → ℕ → ℕ) (v : ℕ → ℕ) (t j : ℕ)
    → v j < k j j
    → (if t == j then max (k t j) (v j) else k j j) ≤ suc (k j j)
acquire_step k v t j far = elim (Bool-cases (t == j)) [
  | inl own ↦ let e : t ≡ j = ground arith in rw (own, e) (ground (arith, far))
  | inr not_own ↦ rw not_own (ground arith)
]

pub acquire-IsValid :
    (n m : ℕ) (s : System) (l t : ℕ)
    → IsValid n m s
    → l < m
    → t < n
    → Returns (lock_acquire s l t) λ s'. IsValid n m s' × Step n s s'
unfolding lock_acquire
acquire-IsValid n m s l t (sn, sm, shape, ahead) hl ht =
    let hl' : l < length s.locks = omega (arith, sm) in
    let ht' : t < length s.threads = omega (arith, sn) in
    (
      heard s t (lock s l),
      refl,
      (
        (
          length-heard s t (lock s l) ∙ sn,
          sm,
          heard-Shaped s t (lock s l) shape ht',
          heard-Ahead s l t shape ahead hl' ht',
        ),
        λ j lj.
            let lj' : j < length s.threads = omega (arith, sn, lj) in
            let bound : j < 8 = omega (arith, lj', shape.0) in
            rw (heard-knows s t (lock s l) j j shape ht' (shape.2 l hl') bound)
              (acquire_step (knows s) (clock (lock s l)) t j (ahead.1 l j hl' lj')),
      ),
    )

-- The arithmetic of a release: the thread moves after the lock has heard of it.
ahead_after_move :
    (k : ℕ → ℕ → ℕ) (t i j : ℕ)
    → i ≢ j
    → k i j < k j j
    → (t ≢ j → k t j < k j j)
    → (if t == i then (if t == j then suc (k t t) else k t j) else k i j)
      < (if t == j then (if t == j then suc (k t t) else k t j) else k j j)
ahead_after_move k t i j different known by_t = elim (Bool-cases (t == j)) [
  | inl own ↦
      let e : t ≡ j = ground arith in
      let other : (t == i) ≡ false = ground arith in rw (own, other, e) (ground (arith, known))
  | inr not_own ↦ let known_t = by_t (ground arith) in rw not_own (ground (arith, known, known_t))
]

lock_after_move :
    (k : ℕ → ℕ → ℕ) (t j old : ℕ)
    → old < k j j
    → (t ≢ j → k t j < k j j)
    → max old (k t j) < (if t == j then (if t == j then suc (k t t) else k t j) else k j j)
lock_after_move k t j old behind by_t = elim (Bool-cases (t == j)) [
  | inl own ↦ let e : t ≡ j = ground arith in rw (own, e) (ground (arith, behind))
  | inr not_own ↦ let known_t = by_t (ground arith) in rw not_own (ground (arith, behind, known_t))
]

pub lock-locked_by :
    (s : System) (l t k : ℕ)
    → l < length s.locks
    → lock (locked_by s l t) k
      ≡ (if l == k then vector_clock_update (lock s l) (thread s t).vc else lock s k)
lock-locked_by s l t k h = elim (Bool-cases (l == k)) [
  | inl same ↦ let e : k ≡ l = ground arith in rw (same, e) (get_or-set_self s.locks l _ no_clock h)
  | inr other ↦ rw other (get_or-set_ne s.locks l k _ no_clock (ground arith))
]

pub locked_by-Shaped :
    (s : System) (l t : ℕ) → Shaped s → l < length s.locks → Shaped (locked_by s l t)
locked_by-Shaped s l t shape h =
    let size = length-set s.locks l (vector_clock_update (lock s l) (thread s t).vc) in
    (
      shape.0,
      shape.1,
      λ k lk. rw (lock-locked_by s l t k h) (elim (Bool-cases (l == k)) [
        | inl same ↦ rw same (vector_clock_update-Sized _ (thread s t).vc (shape.2 l h))
        | inr other ↦ rw other (shape.2 k (omega (arith, size)))
      ]),
    )

released-Ahead :
    (s : System) (l t : ℕ)
    → Shaped s
    → Ahead s
    → l < length s.locks
    → t < length s.threads
    → Ahead (moved (locked_by s l t) t)
released-Ahead s l t shape ahead hl ht =
    let s₁ = locked_by s l t in
    let shape₁ = locked_by-Shaped s l t shape hl in
    let size : length (moved s₁ t).threads ≡ length s.threads = length-set s.threads t _ in
    let lock_size = length-set s.locks l (vector_clock_update (lock s l) (thread s t).vc) in
    (
      λ i j li lj different.
          let lj' : j < length s.threads = omega (arith, size, lj) in
          let li' : i < length s.threads = omega (arith, size, li) in
          rw (moved-knows s₁ t i j shape₁ ht, moved-knows s₁ t j j shape₁ ht)
            (ahead_after_move (knows s) t i j different (ahead.0 i j li' lj' different)
              (ahead.0 t j ht lj')),
      λ k j lk lj.
          let lj' : j < length s.threads = omega (arith, size, lj) in
          let lk' : k < length s.locks = omega (arith, lock_size, lk) in
          let bound : j < 8 = omega (arith, lj', shape.0) in
          let after = lock_after_move (knows s) t j in
          rw (moved-knows s₁ t j j shape₁ ht, lock-locked_by s l t k hl)
            (elim (Bool-cases (l == k)) [
              | inl same ↦
                  rw
                    (
                      same,
                      vector_clock_update-clock (lock s l) (thread s t).vc j (shape.2 l hl)
                          (shape.1 t ht).1 bound,
                    )
                    (after _ (ahead.1 l j hl lj') (ahead.0 t j ht lj'))
              | inr other ↦
                  rw other (omega (arith, after _ (ahead.1 k j lk' lj') (ahead.0 t j ht lj')))
            ]),
    )

release_step :
    (k : ℕ → ℕ → ℕ) (t j : ℕ)
    → (if t == j then (if t == j then suc (k t t) else k t j) else k j j) ≤ suc (k j j)
release_step k t j = elim (Bool-cases (t == j)) [
  | inl own ↦ let e : t ≡ j = ground arith in rw (own, e) (ground arith)
  | inr not_own ↦ rw not_own (ground arith)
]

pub release-IsValid :
    (n m : ℕ) (s : System) (l t : ℕ)
    → IsValid n m s
    → l < m
    → t < n
    → Returns (lock_release s l t) λ s'. IsValid n m s' × Step n s s'
release-IsValid n m s l t (sn, sm, shape, ahead) hl ht =
    let hl' : l < length s.locks = omega (arith, sm) in
    let ht' : t < length s.threads = omega (arith, sn) in
    (
      moved (locked_by s l t) t,
      lock_release_lem s l t shape ht',
      (
        (
          length-set s.threads t _ ∙ sn,
          length-set s.locks l _ ∙ sm,
          moved-Shaped (locked_by s l t) t (locked_by-Shaped s l t shape hl') ht',
          released-Ahead s l t shape ahead hl' ht',
        ),
        λ j lj.
            rw (moved-knows (locked_by s l t) t j j (locked_by-Shaped s l t shape hl') ht')
              (release_step (knows s) t j),
      ),
    )
