-- ===== src/Dbm/Chain.antt =====
-- The links of the list of threads of dbm.c, and the walk along them.
use mambo.Base.{
  ok, ℕ, zero, suc, ◌<◌, ◌≡◌, ◌∙◌, refl, sym, ap, true, false, Option, none, some, List, [], ◌∷◌,
  ◌==◌, if◌then◌else◌, length, is_in, without, Returns, arith, Bool-cases, ◌⊎◌, inl, inr,
}
use mathlib.Core.Bool.{true≢false}
use mambo.Dbm.Threads.{Registry, put_next, is_thread, previous}

-- The links lead through the threads of the list, each of which stands there once.
abbrev pub Chain : (ℕ → Option ℕ) → Option ℕ → List ℕ → Type 0
Chain next ptr [] = ptr ≡ none
Chain next ptr (x ∷ xs) = (ptr ≡ some x) × (is_in x xs ≡ false) × Chain next (next x) xs

is_in-cons :
    (x y : ℕ) (ys : List ℕ) → is_in x (y ∷ ys) ≡ false → ((x == y) ≡ false) × (is_in x ys ≡ false)
unfolding is_in
is_in-cons x y ys h = elim (Bool-cases (x == y)) [
  | inl same ↦ absurd (
      let e : true ≡ false = sym (ap (λ b. if b then true else is_in x ys) same) ∙ h in
      ground (arith, e))
  | inr other ↦ (other, sym (ap (λ b. if b then true else is_in x ys) other) ∙ h)
]

pub is_in-without : (x y : ℕ) (ys : List ℕ) → is_in x ys ≡ false → is_in x (without y ys) ≡ false
unfolding is_in without
is_in-without x y [] h = refl
is_in-without x y (z ∷ ys) h =
    let (other, rest) = is_in-cons x z ys h in
    elim (Bool-cases (y == z)) [
      | inl same ↦ rw same rest
      | inr differ ↦ rw (differ, other) (is_in-without x y ys rest)
    ]

-- A link of a thread outside the list does not matter.
pub Chain-put :
    (xs : List ℕ) (next : ℕ → Option ℕ) (ptr value : Option ℕ) (thread : ℕ)
    → is_in thread xs ≡ false
    → Chain next ptr xs
    → Chain (put_next next thread value) ptr xs
Chain-put [] next ptr value thread out h = h
Chain-put (x ∷ xs) next ptr value thread out (here, once, rest) =
    let (other, out') = is_in-cons thread x xs out in
    let e : (x == thread) ≡ false = ground (arith, other) in
    (here, once, rw e (Chain-put xs next (next x) value thread out' rest))

-- What the walk finds, from a thread whose link leads through the list.
abbrev pub Walked : Registry → ℕ → ℕ → List ℕ → ℕ → Type 0
Walked r thread prev xs p =
    let after = put_next r.next p (r.next thread) in
    ((p ≡ prev) ⊎ (is_in p xs ≡ true))
    × (is_in thread xs ≡ true
        → (r.next p ≡ some thread) × Chain after (after prev) (without thread xs))
    × (is_in thread xs ≡ false → is_thread (r.next p) thread ≡ false)

last_thread :
    (fuel : ℕ) (r : Registry) (thread prev : ℕ)
    → r.next prev ≡ none
    → previous (suc fuel) r thread prev ≡ ok prev
unfolding previous
last_thread fuel r thread prev h = rw (previous, h) refl

next_round :
    (fuel : ℕ) (r : Registry) (thread prev n : ℕ)
    → r.next prev ≡ some n
    → previous (suc fuel) r thread prev
      ≡ (if n == thread then ok prev else previous fuel r thread n)
unfolding previous
next_round fuel r thread prev n h = rw (previous, h) refl

nowhere : (r : Registry) (thread prev : ℕ) → r.next prev ≡ none → Walked r thread prev [] prev
unfolding is_in
nowhere r thread prev h = (inl refl, λ e. absurd (true≢false (sym e)), λ e. rw h refl)

-- A place at the head of a list or in the rest.
reached : (p x : ℕ) (xs : List ℕ) → (p ≡ x) ⊎ (is_in p xs ≡ true) → is_in p (x ∷ xs) ≡ true
unfolding is_in
reached p x xs (inl e) = let hit : (p == x) ≡ true = ground (arith, e) in rw hit refl
reached p x xs (inr h) = elim (Bool-cases (p == x)) [
  | inl same ↦ rw same refl
  | inr other ↦ rw other h
]

not_reached : (q p : ℕ) (ys : List ℕ) → is_in q ys ≡ false → is_in p ys ≡ true → (q == p) ≡ false
not_reached q p ys out h = elim (Bool-cases (q == p)) [
  | inl same ↦
      let e : q ≡ p = ground arith in
      absurd (true≢false (sym h ∙ ap (λ z. is_in z ys) (sym e) ∙ out))
  | inr other ↦ other
]

-- The thread behind the one reached is the one looked for.
Walked-here :
    (r : Registry) (thread prev : ℕ) (xs : List ℕ)
    → r.next prev ≡ some thread
    → is_in prev xs ≡ false
    → Chain r.next (r.next thread) xs
    → Walked r thread prev (thread ∷ xs) prev
unfolding is_in without
Walked-here r thread prev xs here prev_out rest =
    let hit : (thread == thread) ≡ true = ground arith in
    let self : (prev == prev) ≡ true = ground arith in
    rw (hit, self)
      (
        inl refl,
        λ h. (here, Chain-put xs r.next (r.next thread) (r.next thread) prev prev_out rest),
        λ h. absurd (true≢false h),
      )

Walked-on :
    (r : Registry) (thread prev x p : ℕ) (xs : List ℕ)
    → r.next prev ≡ some x
    → (x == thread) ≡ false
    → is_in x xs ≡ false
    → is_in prev (x ∷ xs) ≡ false
    → Walked r thread x xs p
    → Walked r thread prev (x ∷ xs) p
unfolding is_in without
Walked-on r thread prev x p xs here other x_once once (where_p, found, lost) =
    let other' : (thread == x) ≡ false = ground (arith, other) in
    let at = reached p x xs where_p in
    let missed = not_reached prev p (x ∷ xs) once at in
    (
      inr at,
      λ h.
          let (link, chain) =
            found (sym (ap (λ b. if b then true else is_in thread xs) other') ∙ h) in
          (link, rw (other', missed) (here, is_in-without x thread xs x_once, chain)),
      λ h. lost (sym (ap (λ b. if b then true else is_in thread xs) other') ∙ h),
    )

Walked-eq :
    (r : Registry) (thread prev x : ℕ) (xs : List ℕ)
    → x ≡ thread
    → Walked r thread prev (thread ∷ xs) prev
    → Walked r thread prev (x ∷ xs) prev
Walked-eq r thread prev x xs e h = rw e h

pub previous_lem :
    (xs : List ℕ) (fuel : ℕ) (r : Registry) (thread prev : ℕ)
    → Chain r.next (r.next prev) xs
    → is_in prev xs ≡ false
    → length xs < fuel
    → Returns (previous fuel r thread prev) (Walked r thread prev xs)
previous_lem xs zero r thread prev chain once enough = absurd (omega arith)
previous_lem [] (suc fuel) r thread prev chain once enough =
    (prev, last_thread fuel r thread prev chain, nowhere r thread prev chain)
previous_lem (x ∷ xs) (suc fuel) r thread prev (here, x_once, rest) once enough =
    elim (Bool-cases (x == thread)) [
      | inl same ↦
          let e : x ≡ thread = ground arith in
          let prev_out = (is_in-cons prev x xs once).1 in
          rw (next_round fuel r thread prev x here, same)
            (
              prev,
              refl,
              let here' : r.next prev ≡ some thread = here ∙ ap some e in
                  Walked-eq r thread prev x xs e
                    (Walked-here r thread prev xs here' prev_out (rw (sym e) rest)),
            )
      | inr other ↦
          let (p, run, walked) = previous_lem xs fuel r thread x rest x_once (omega arith) in
          rw (next_round fuel r thread prev x here, other, run)
            (p, refl, Walked-on r thread prev x p xs here other x_once once walked)
    ]
