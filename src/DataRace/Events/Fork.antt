-- ===== src/DataRace/Events/Fork.antt =====
-- Forks and joins of plugins/datarace/detectors keep a state valid.
use mambo.Base.{
  ℕ, suc, ◌<◌, ◌≤◌, ◌≡◌, ◌≢◌, ◌∙◌, refl, max, false, ◌==◌, if◌then◌else◌, length, length-set, arith,
  inl, inr, Bool-cases, ok, Returns,
}
use mambo.DataRace.{System, thread, thread_fork, thread_join}
use mambo.DataRace.Events.{
  knows, Shaped, Ahead, IsValid, Step, thread_increment_lem, heard, moved, moved-knows, heard-knows,
  length-heard, heard-Shaped, moved-Shaped,
}

-- The events in these terms.
abbrev forked : System → ℕ → ℕ → System
forked s p c = moved (heard s c (thread s p).vc) p

thread_fork_lem :
    (s : System) (p c : ℕ)
    → Shaped s
    → p < length s.threads
    → c < length s.threads
    → thread_fork s p c ≡ ok (forked s p c)
unfolding thread_fork
thread_fork_lem s p c shape hp hc =
    let vc = (thread s p).vc in
    let own = (heard-Shaped s c vc shape hc).1 p (omega (arith, hp, length-heard s c vc)) in
    rw (thread_increment_lem (thread (heard s c vc) p) own.1 (omega (arith, own.0, hp, shape.0)))
      refl

-- A join is a fork the other way round.
pub thread_join-eq-fork : (s : System) (p c : ℕ) → thread_join s p c ≡ thread_fork s c p
unfolding thread_join thread_fork
thread_join-eq-fork s p c = refl

forked-Shaped :
    (s : System) (p c : ℕ)
    → Shaped s
    → p < length s.threads
    → c < length s.threads
    → Shaped (forked s p c)
forked-Shaped s p c shape hp hc =
    let vc = (thread s p).vc in
    moved-Shaped (heard s c vc) p (heard-Shaped s c vc shape hc)
      (omega (arith, hp, length-heard s c vc))

forked-knows :
    (s : System) (p c i j : ℕ)
    → Shaped s
    → p < length s.threads
    → c < length s.threads
    → p ≢ c
    → j < 8
    → knows (forked s p c) i j ≡ (
        if p == i
        then (if p == j then suc (knows s p p) else knows s p j)
        else if c == i
        then max (knows s c j) (knows s p j)
        else knows s i j)
forked-knows s p c i j shape hp hc apart l =
    let vc = (thread s p).vc in
    let z = (shape.1 p hp).1 in
    let other : (c == p) ≡ false = ground arith in
    moved-knows (heard s c vc) p i j (heard-Shaped s c vc shape hc)
      (omega (arith, hp, length-heard s c vc))
    ∙ rw
        (
          heard-knows s c vc p p shape hc z (omega (arith, hp, shape.0)),
          heard-knows s c vc p j shape hc z l,
          heard-knows s c vc i j shape hc z l,
          other,
        )
        refl

-- The arithmetic of a fork, for any table of what the threads know.
ahead_after_fork :
    (k : ℕ → ℕ → ℕ) (p c i j : ℕ)
    → p ≢ c
    → i ≢ j
    → k i j < k j j
    → (p ≢ j → k p j < k j j)
    → (c ≢ j → k c j < k j j)
    → (if p == i
        then (if p == j then suc (k p p) else k p j)
        else if c == i
        then max (k c j) (k p j)
        else k i j)
      < (if p == j
          then (if p == j then suc (k p p) else k p j)
          else if c == j
          then max (k c j) (k p j)
          else k j j)
ahead_after_fork k p c i j apart different known by_p by_c = elim (Bool-cases (p == j)) [
  | inl own ↦
      let e : j ≡ p = ground arith in
      let other : (p == i) ≡ false = ground arith in
      let known' = rw e at known in
      let by_c' : k c p < k p p = (rw e at by_c) (ground arith) in
      rw (own, other, e) (ground (arith, known', by_c'))
  | inr not_own ↦
      let known_p = by_p (ground arith) in
      elim (Bool-cases (c == j)) [
        | inl hears ↦
            let e : c ≡ j = ground arith in
            let not_c : (c == i) ≡ false = ground arith in
            rw (not_own, hears, not_c, e) (ground (arith, known, known_p))
        | inr deaf ↦
            let known_c = by_c (ground arith) in
            rw (not_own, deaf) (ground (arith, known, known_p, known_c))
      ]
]

-- What a lock knows is behind too, if the threads only move up.
own_after_fork :
    (k : ℕ → ℕ → ℕ) (p c j : ℕ)
    → k j j ≤ (
        if p == j
        then (if p == j then suc (k p p) else k p j)
        else if c == j
        then max (k c j) (k p j)
        else k j j)
own_after_fork k p c j = elim (Bool-cases (p == j)) [
  | inl own ↦ let e : j ≡ p = ground arith in rw (own, e) (ground arith)
  | inr not_own ↦ elim (Bool-cases (c == j)) [
    | inl hears ↦ let e : c ≡ j = ground arith in rw (not_own, hears, e) (ground arith)
    | inr deaf ↦ rw (not_own, deaf) (ground arith)
  ]
]

forked-Ahead :
    (s : System) (p c : ℕ)
    → Shaped s
    → Ahead s
    → p < length s.threads
    → c < length s.threads
    → p ≢ c
    → Ahead (forked s p c)
forked-Ahead s p c shape ahead hp hc apart =
    let size : length (forked s p c).threads ≡ length s.threads =
      length-set (heard s c (thread s p).vc).threads p _ ∙ length-heard s c (thread s p).vc in
    (
      λ i j li lj different.
          let lj' : j < length s.threads = omega (arith, size, lj) in
          let li' : i < length s.threads = omega (arith, size, li) in
          let bound : j < 8 = omega (arith, lj', shape.0) in
          rw
            (
              forked-knows s p c i j shape hp hc apart bound,
              forked-knows s p c j j shape hp hc apart bound,
            )
            (ahead_after_fork (knows s) p c i j apart different (ahead.0 i j li' lj' different)
              (ahead.0 p j hp lj') (ahead.0 c j hc lj')),
      λ l j ll lj.
          let lj' : j < length s.threads = omega (arith, size, lj) in
          let bound : j < 8 = omega (arith, lj', shape.0) in
          rw (forked-knows s p c j j shape hp hc apart bound)
            (omega (arith, ahead.1 l j ll lj', own_after_fork (knows s) p c j)),
    )

own_step :
    (k : ℕ → ℕ → ℕ) (p c j : ℕ)
    → (p ≢ j → k p j < k j j)
    → (if p == j
        then (if p == j then suc (k p p) else k p j)
        else if c == j
        then max (k c j) (k p j)
        else k j j)
      ≤ suc (k j j)
own_step k p c j by_p = elim (Bool-cases (p == j)) [
  | inl own ↦ let e : j ≡ p = ground arith in rw (own, e) (ground arith)
  | inr not_own ↦
      let known_p = by_p (ground arith) in
      elim (Bool-cases (c == j)) [
        | inl hears ↦
            let e : c ≡ j = ground arith in rw (not_own, hears, e) (ground (arith, known_p))
        | inr deaf ↦ rw (not_own, deaf) (ground arith)
      ]
]

pub fork-IsValid :
    (n m : ℕ) (s : System) (p c : ℕ)
    → IsValid n m s
    → p < n
    → c < n
    → p ≢ c
    → Returns (thread_fork s p c) λ s'. IsValid n m s' × Step n s s'
fork-IsValid n m s p c (sn, sm, shape, ahead) hp hc apart =
    let hp' : p < length s.threads = omega (arith, sn) in
    let hc' : c < length s.threads = omega (arith, sn) in
    let vc = (thread s p).vc in
    (
      forked s p c,
      thread_fork_lem s p c shape hp' hc',
      (
        (
          length-set (heard s c vc).threads p _ ∙ length-heard s c vc ∙ sn,
          sm,
          forked-Shaped s p c shape hp' hc',
          forked-Ahead s p c shape ahead hp' hc' apart,
        ),
        λ j lj.
            let lj' : j < length s.threads = omega (arith, sn, lj) in
            rw (forked-knows s p c j j shape hp' hc' apart (omega (arith, lj', shape.0)))
              (own_step (knows s) p c j (ahead.0 p j hp' lj')),
      ),
    )
