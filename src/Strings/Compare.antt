-- ===== src/Strings/Compare.antt =====
-- `memcheck_strcmp` and `memcheck_strncmp` against the order of lists.
use mambo.Base.{
  ℕ, zero, suc, ◌+◌, ◌-◌, ◌<◌, ◌≡◌, refl, ◌∙◌, ap, true, false, not, List, [], ◌∷◌, ◌==◌, ltb,
  length, arith, ok, ℤ, pos, ◌&&◌, Bool-cases, inl, inr, if◌then◌else◌,
}
use mambo.Strings.{Memory, order_at, strcmp_loop, memcheck_strcmp, strncmp_rounds, memcheck_strncmp}
use mambo.Strings.Views.{CString, CString-eq, compare_lists}

-- The first n elements.
unfoldable pub take : ℕ → List ℕ → List ℕ
take zero xs = []
take (suc n) [] = []
take (suc n) (x ∷ xs) = x ∷ take n xs

-- The first characters of two strings decide, or one round leads to the rest of both. `cut` is what
-- the bound leaves of a string.
round :
    {A : Type 0} (cut cut' : List ℕ → List ℕ) (xs ys : List ℕ)
    → cut [] ≡ []
    → ((x : ℕ) (zs : List ℕ) → cut (x ∷ zs) ≡ x ∷ cut' zs)
    → (m : Memory) (s1 s2 i : ℕ) (rest : A) (done : ℤ → A) → CString m (s1 + i) xs
    → CString m (s2 + i) ys
    → ((x : ℕ) (xs' ys' : List ℕ)
        → xs ≡ x ∷ xs'
        → CString m (s1 + suc i) xs'
        → CString m (s2 + suc i) ys'
        → rest ≡ done (compare_lists (cut' xs') (cut' ys')))
    → (if (m (s1 + i) == m (s2 + i)) && not (m (s1 + i) == 0)
        then rest
        else done (order_at m s1 s2 i))
      ≡ done (compare_lists (cut xs) (cut ys))
unfolding order_at compare_lists
round cut cut' [] [] empty cons m s1 s2 i rest done h1 h2 more = rw (h1, h2, empty) refl
round cut cut' [] (y ∷ ys) empty cons m s1 s2 i rest done h1 (h2, nonzero, _) more =
    let a : (0 == y) ≡ false = ground arith in
    let b : ltb 0 y ≡ true = ground arith in rw (h1, h2, empty, cons y ys, a, b) refl
round cut cut' (x ∷ xs) [] empty cons m s1 s2 i rest done (h1, nonzero, _) h2 more =
    let a : (x == 0) ≡ false = ground arith in
    let b : ltb 0 x ≡ true = ground arith in
    let c : ltb x 0 ≡ false = ground arith in rw (h1, h2, empty, cons x xs, a, b, c) refl
round cut cut' (x ∷ xs) (y ∷ ys) empty cons m s1 s2 i rest done (h1, nonzero, r1) (h2, _, r2) more =
    let b : (x == 0) ≡ false = ground arith in
    rw (h1, h2, cons x xs, cons y ys)
      (elim (Bool-cases (x == y)) [
        | inl same ↦
            rw (same, b)
              (more x xs ys refl (CString-eq m _ _ xs (omega arith) r1)
                (CString-eq m _ _ ys (omega arith) r2))
        | inr other ↦ rw other (elim (Bool-cases (ltb x y)) [
          | inl less ↦ rw less refl
          | inr most ↦ let great : ltb y x ≡ true = ground arith in rw (most, great) refl
        ])
      ])

-- Equal characters are in no order.
equal :
    (m : Memory) (s1 s2 i : ℕ)
    → order_at m s1 s2 i
      ≡ (if (m (s1 + i) == m (s2 + i)) && not (m (s1 + i) == 0) then pos 0 else order_at m s1 s2 i)
unfolding order_at
equal m s1 s2 i = ground arith

-- Without a further round the first characters decide.
last_round :
    (xs ys : List ℕ) (m : Memory) (s1 s2 i : ℕ)
    → CString m (s1 + i) xs
    → CString m (s2 + i) ys
    → order_at m s1 s2 i ≡ compare_lists (take 1 xs) (take 1 ys)
unfolding take compare_lists
last_round xs ys m s1 s2 i h1 h2 =
    equal m s1 s2 i
    ∙ round (take 1) (take 0) xs ys refl (λ x zs. refl) m s1 s2 i (pos 0) (λ z. z) h1 h2
        (λ x xs' ys' e r1 r2. refl)

strcmp_loop_lem :
    (fuel : ℕ) (xs ys : List ℕ) (m : Memory) (s1 s2 i : ℕ)
    → CString m (s1 + i) xs
    → CString m (s2 + i) ys
    → length xs < fuel
    → strcmp_loop fuel m s1 s2 i ≡ ok (compare_lists xs ys)
unfolding strcmp_loop
strcmp_loop_lem zero xs ys m s1 s2 i h1 h2 enough = absurd (omega arith)
strcmp_loop_lem (suc fuel) xs ys m s1 s2 i h1 h2 enough =
    round (λ zs. zs) (λ zs. zs) xs ys refl (λ x zs. refl) m s1 s2 i _ ok h1 h2
      (λ x xs' ys' e r1 r2.
        strcmp_loop_lem fuel xs' ys' m s1 s2 (suc i) r1 r2
          (let n : length xs ≡ suc (length xs') = ap length e in omega (arith, n)))

-- A bound on the number of characters compared.
strncmp_rounds_lem :
    (left : ℕ) (xs ys : List ℕ) (m : Memory) (s1 s2 i : ℕ)
    → CString m (s1 + i) xs
    → CString m (s2 + i) ys
    → strncmp_rounds left m s1 s2 i ≡ compare_lists (take (suc left) xs) (take (suc left) ys)
unfolding strncmp_rounds take
strncmp_rounds_lem zero xs ys m s1 s2 i h1 h2 = last_round xs ys m s1 s2 i h1 h2
strncmp_rounds_lem (suc left) xs ys m s1 s2 i h1 h2 =
    round (take (suc (suc left))) (take (suc left)) xs ys refl (λ x zs. refl) m s1 s2 i _ (λ z. z)
      h1 h2 (λ x xs' ys' e r1 r2. strncmp_rounds_lem left xs' ys' m s1 s2 (suc i) r1 r2)

strncmp_lem :
    (m : Memory) (s1 s2 : ℕ) (xs ys : List ℕ)
    → CString m (s1 + 0) xs
    → CString m (s2 + 0) ys
    → (n : ℕ) → memcheck_strncmp m s1 s2 n ≡ compare_lists (take n xs) (take n ys)
unfolding memcheck_strncmp take compare_lists
strncmp_lem m s1 s2 xs ys a1 a2 zero = refl
strncmp_lem m s1 s2 xs ys a1 a2 (suc n) =
    let positive : (suc n == 0) ≡ false = ground arith in
    let left : suc n - 1 ≡ n = omega arith in
    rw (positive, left) (strncmp_rounds_lem n xs ys m s1 s2 0 a1 a2)

-- At strings `xs` and `ys`, `memcheck_strcmp` returns the order of `xs` and `ys` with any fuel above
-- the length of `xs`, and `memcheck_strncmp` returns the order of their first n characters.
pub memcheck_strcmp_lem :
    (m : Memory) (s1 s2 : ℕ) (xs ys : List ℕ)
    → CString m s1 xs
    → CString m s2 ys
    → ((fuel : ℕ) → length xs < fuel → memcheck_strcmp fuel m s1 s2 ≡ ok (compare_lists xs ys))
      × ((n : ℕ) → memcheck_strncmp m s1 s2 n ≡ compare_lists (take n xs) (take n ys))
unfolding memcheck_strcmp
memcheck_strcmp_lem m s1 s2 xs ys h1 h2 =
    let a1 = CString-eq m s1 (s1 + 0) xs (omega arith) h1 in
    let a2 = CString-eq m s2 (s2 + 0) ys (omega arith) h2 in
    (
      λ fuel enough. strcmp_loop_lem fuel xs ys m s1 s2 0 a1 a2 enough,
      strncmp_lem m s1 s2 xs ys a1 a2,
    )
