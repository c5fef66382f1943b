-- ===== src/Strings/Spans.antt =====
-- `memcheck_strspn`, `memcheck_strcspn` and `memcheck_strchrnul` measure a prefix.
use mambo.Base.{
  is_in, ℕ, zero, suc, ◌+◌, ◌<◌, ◌≡◌, refl, ◌∙◌, ap, false, not, List, [], ◌∷◌, ◌==◌, length, arith,
  ok, Bool-cases, inl, inr,
}
use mambo.Strings.{Memory, set_loop, strspn_loop, memcheck_strspn, strcspn_loop, memcheck_strcspn}
use mambo.Strings.Views.{CString, CString-eq, prefix}

set_loop_lem :
    (ys : List ℕ) (fuel : ℕ) (m : Memory) (x set i : ℕ)
    → CString m (set + i) ys
    → length ys < fuel
    → set_loop fuel m x set i ≡ ok (is_in x ys)
unfolding set_loop is_in
set_loop_lem ys zero m x set i h enough = absurd (omega arith)
set_loop_lem [] (suc fuel) m x set i h enough = rw h refl
set_loop_lem (y ∷ ys) (suc fuel) m x set i (here, nonzero, rest) enough =
    let other : (y == 0) ≡ false = ground arith in
    let next =
      set_loop_lem ys fuel m x set (suc i) (CString-eq m _ _ ys (omega arith) rest) (omega arith) in
    rw (here, other) (elim (Bool-cases (x == y)) [ inl z ↦ rw z refl | inr z ↦ rw z next ])

module _ (m : Memory) (set : ℕ) (ys : List ℕ) (fuel : ℕ) (h : CString m (set + 0) ys)
    (room : length ys < fuel) where
  strspn_loop_lem :
      (xs : List ℕ) (left : ℕ) (s len : ℕ)
      → CString m s xs
      → length xs < left
      → strspn_loop fuel left m s set len ≡ ok (len + prefix (λ x. is_in x ys) xs)
  unfolding strspn_loop prefix
  strspn_loop_lem xs zero s len at enough = absurd (omega arith)
  strspn_loop_lem [] (suc left) s len at enough = rw at (ap ok (omega arith))
  strspn_loop_lem (x ∷ xs) (suc left) s len (here, nonzero, rest) enough =
      let other : (x == 0) ≡ false = ground arith in
      let next = strspn_loop_lem xs left (suc s) (suc len) rest (omega arith) in
      rw (here, other, set_loop_lem ys fuel m x set 0 h room)
        (elim (Bool-cases (is_in x ys)) [
          | inl z ↦ rw z (next ∙ ap ok (omega arith))
          | inr z ↦ rw z (ap ok (omega arith))
        ])

  strcspn_loop_lem :
      (xs : List ℕ) (left : ℕ) (s len : ℕ)
      → CString m s xs
      → length xs < left
      → strcspn_loop fuel left m s set len ≡ ok (len + prefix (λ x. not (is_in x ys)) xs)
  unfolding strcspn_loop prefix
  strcspn_loop_lem xs zero s len at enough = absurd (omega arith)
  strcspn_loop_lem [] (suc left) s len at enough = rw at (ap ok (omega arith))
  strcspn_loop_lem (x ∷ xs) (suc left) s len (here, nonzero, rest) enough =
      let other : (x == 0) ≡ false = ground arith in
      let next = strcspn_loop_lem xs left (suc s) (suc len) rest (omega arith) in
      rw (here, other, set_loop_lem ys fuel m x set 0 h room)
        (elim (Bool-cases (is_in x ys)) [
          | inl z ↦ rw z (ap ok (omega arith))
          | inr z ↦ rw z (next ∙ ap ok (omega arith))
        ])

-- At strings `xs` and `ys`, with a fuel above both lengths, `memcheck_strspn` returns the length of
-- the longest prefix of `xs` whose characters are all in `ys`, and `memcheck_strcspn` that of the
-- longest prefix whose characters are all not in `ys`.
memcheck_strspn_lem :
    (m : Memory) (s set : ℕ) (xs ys : List ℕ) (fuel : ℕ)
    → CString m s xs
    → CString m set ys
    → length xs < fuel
    → length ys < fuel
    → (memcheck_strspn fuel m s set ≡ ok (prefix (λ x. is_in x ys) xs))
      × (memcheck_strcspn fuel m s set ≡ ok (prefix (λ x. not (is_in x ys)) xs))
unfolding memcheck_strspn memcheck_strcspn
memcheck_strspn_lem m s set xs ys fuel h1 h2 enough room =
    let set_string = CString-eq m set (set + 0) ys (omega arith) h2 in
    (
      strspn_loop_lem m set ys fuel set_string room xs fuel s 0 h1 enough ∙ ap ok (omega arith),
      strcspn_loop_lem m set ys fuel set_string room xs fuel s 0 h1 enough ∙ ap ok (omega arith),
    )
