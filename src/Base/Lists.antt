-- ===== src/Base/Lists.antt =====
-- Arrays: lists measured and indexed by native numbers, under the library's names.
use Prim.Native.Nat.{ℕ, zero, suc, ◌+◌, ◌-◌, ◌<◌, ◌≤◌}
use mathlib.Core.Path.{◌≡◌, refl, ap}
use mathlib.Core.Logic.{◌≢◌}
use mathlib.Core.List.{List, [], ◌∷◌, ◌++◌}
use mathlib.Core.Option.{Option, none, some}
use mathlib.Core.Bool.{Bool, true, false}
use mambo.Base.Tests.{◌==◌, if◌then◌else◌}
use native.Mathlib.Omega.{arith}

module _ {ℓ} {A : Type ℓ} where
  abbrev pub length : List A → ℕ
  length [] = 0
  length (x ∷ xs) = suc (length xs)

  abbrev pub get_elem? : List A → ℕ → Option A
  get_elem? [] i = none
  get_elem? (x ∷ xs) zero = some x
  get_elem? (x ∷ xs) (suc i) = get_elem? xs i

  abbrev pub get_or : List A → ℕ → A → A
  get_or [] i d = d
  get_or (x ∷ xs) zero d = x
  get_or (x ∷ xs) (suc i) d = get_or xs i d

  -- A write out of bounds changes nothing.
  abbrev pub set : List A → ℕ → A → List A
  set [] i v = []
  set (x ∷ xs) zero v = v ∷ xs
  set (x ∷ xs) (suc i) v = x ∷ set xs i v

  abbrev pub replicate : ℕ → A → List A
  replicate zero a = []
  replicate (suc n) a = a ∷ replicate n a

module _ {ℓ} {A : Type ℓ} where
  pub length-set : (xs : List A) (i : ℕ) (v : A) → length (set xs i v) ≡ length xs
  length-set [] i v = refl
  length-set (x ∷ xs) zero v = refl
  length-set (x ∷ xs) (suc i) v = ap suc (length-set xs i v)

  pub length-replicate : (n : ℕ) (a : A) → length (replicate n a) ≡ n
  length-replicate zero a = refl
  length-replicate (suc n) a = ap suc (length-replicate n a)

  pub get_or-replicate : (n i : ℕ) (a : A) → get_or (replicate n a) i a ≡ a
  get_or-replicate zero i a = refl
  get_or-replicate (suc n) zero a = refl
  get_or-replicate (suc n) (suc i) a = get_or-replicate n i a

  pub get_or-set_self :
      (xs : List A) (i : ℕ) (v d : A) → i < length xs → get_or (set xs i v) i d ≡ v
  get_or-set_self [] i v d h = absurd (omega arith)
  get_or-set_self (x ∷ xs) zero v d h = refl
  get_or-set_self (x ∷ xs) (suc i) v d h = get_or-set_self xs i v d (omega arith)

  pub get_or-set_ne :
      (xs : List A) (i j : ℕ) (v d : A) → i ≢ j → get_or (set xs i v) j d ≡ get_or xs j d
  get_or-set_ne [] i j v d h = refl
  get_or-set_ne (x ∷ xs) zero zero v d h = absurd (h refl)
  get_or-set_ne (x ∷ xs) zero (suc j) v d h = refl
  get_or-set_ne (x ∷ xs) (suc i) zero v d h = refl
  get_or-set_ne (x ∷ xs) (suc i) (suc j) v d h = get_or-set_ne xs i j v d (λ e. h (ap suc e))

  pub get_elem?-eq-get_or :
      (xs : List A) (i : ℕ) (d : A) → i < length xs → get_elem? xs i ≡ some (get_or xs i d)
  get_elem?-eq-get_or [] i d h = absurd (omega arith)
  get_elem?-eq-get_or (x ∷ xs) zero d h = refl
  get_elem?-eq-get_or (x ∷ xs) (suc i) d h = get_elem?-eq-get_or xs i d (omega arith)

  pub length-append : (xs ys : List A) → length (xs ++ ys) ≡ length xs + length ys
  length-append [] ys = omega arith
  length-append (x ∷ xs) ys = omega (arith, length-append xs ys)

  -- The sum of a weight over the first `n` cells.
  unfoldable pub tally : (A → ℕ) → List A → ℕ → ℕ
  tally w xs zero = 0
  tally w [] (suc n) = 0
  tally w (x ∷ xs) (suc n) = w x + tally w xs n

  pub tally-suc :
      (w : A → ℕ) (xs : List A) (n : ℕ) (d : A)
      → n < length xs
      → tally w xs (suc n) ≡ tally w xs n + w (get_or xs n d)
  unfolding tally
  tally-suc w [] n d h = absurd (omega arith)
  tally-suc w (x ∷ xs) zero d h = omega arith
  tally-suc w (x ∷ xs) (suc n) d h = omega (arith, tally-suc w xs n d (omega arith))

  pub tally-set :
      (w : A → ℕ) (xs : List A) (n i : ℕ) (v d : A)
      → i < n
      → i < length xs
      → tally w (set xs i v) n + w (get_or xs i d) ≡ tally w xs n + w v
  unfolding tally
  tally-set w xs zero i v d h l = absurd (omega arith)
  tally-set w [] (suc n) i v d h l = absurd (omega arith)
  tally-set w (x ∷ xs) (suc n) zero v d h l = omega arith
  tally-set w (x ∷ xs) (suc n) (suc i) v d h l =
      omega (arith, tally-set w xs n i v d (omega arith) (omega arith))

  -- A write at or above `n` is not counted.
  pub tally-set_above :
      (w : A → ℕ) (xs : List A) (n i : ℕ) (v : A) → n ≤ i → tally w (set xs i v) n ≡ tally w xs n
  unfolding tally
  tally-set_above w xs zero i v h = refl
  tally-set_above w [] (suc n) i v h = refl
  tally-set_above w (x ∷ xs) (suc n) zero v h = absurd (omega arith)
  tally-set_above w (x ∷ xs) (suc n) (suc i) v h =
      omega (arith, tally-set_above w xs n i v (omega arith))

  pub tally-pred :
      (w : A → ℕ) (xs : List A) (n : ℕ) (d : A)
      → 0 < n
      → n ≤ length xs
      → tally w xs n ≡ tally w xs (n - 1) + w (get_or xs (n - 1) d)
  tally-pred w xs zero d h l = absurd (omega arith)
  tally-pred w xs (suc n) d h l =
      let e : suc n - 1 ≡ n = omega arith in rw e (tally-suc w xs n d (omega arith))

  pub tally-ge :
      (w : A → ℕ) (xs : List A) (n i : ℕ) (d : A)
      → i < n
      → i < length xs
      → w (get_or xs i d) ≤ tally w xs n
  unfolding tally
  tally-ge w xs zero i d h l = absurd (omega arith)
  tally-ge w [] (suc n) i d h l = absurd (omega arith)
  tally-ge w (x ∷ xs) (suc n) zero d h l = omega arith
  tally-ge w (x ∷ xs) (suc n) (suc i) d h l =
      omega (arith, tally-ge w xs n i d (omega arith) (omega arith))

  pub tally_mono :
      (w w' : A → ℕ) (xs : List A) (n : ℕ) → ((x : A) → w x ≤ w' x) → tally w xs n ≤ tally w' xs n
  unfolding tally
  tally_mono w w' xs zero h = omega arith
  tally_mono w w' [] (suc n) h = omega arith
  tally_mono w w' (x ∷ xs) (suc n) h = omega (arith, h x, tally_mono w w' xs n h)

  pub tally-eq-zero :
      (w : A → ℕ) (xs : List A) (n : ℕ) (d : A)
      → ((i : ℕ) → i < n → i < length xs → w (get_or xs i d) ≡ 0)
      → tally w xs n ≡ 0
  unfolding tally
  tally-eq-zero w xs zero d h = refl
  tally-eq-zero w [] (suc n) d h = refl
  tally-eq-zero w (x ∷ xs) (suc n) d h = omega (
    arith,
    h 0 (omega arith) (omega arith),
    tally-eq-zero w xs n d (λ i p l. h (suc i) (omega arith) (omega arith)),
  )

  pub get_or-replicate_lt : (n i : ℕ) (a d : A) → i < n → get_or (replicate n a) i d ≡ a
  get_or-replicate_lt zero i a d h = absurd (omega arith)
  get_or-replicate_lt (suc n) zero a d h = refl
  get_or-replicate_lt (suc n) (suc i) a d h = get_or-replicate_lt n i a d (omega arith)

-- Whether a number stands in a list, and the list without its first occurrence.
unfoldable pub is_in : ℕ → List ℕ → Bool
is_in x [] = false
is_in x (y ∷ ys) = if x == y then true else is_in x ys

unfoldable pub without : ℕ → List ℕ → List ℕ
without x [] = []
without x (y ∷ ys) = if x == y then ys else y ∷ without x ys
