-- ===== src/Strings/Search.antt =====
-- `memcheck_index`, `memcheck_rindex` and `memcheck_strchrnul` against searches in a list.
use mambo.Base.{
  ℕ, zero, suc, ◌+◌, ◌<◌, ◌≡◌, refl, ◌∙◌, ap, false, not, List, [], ◌∷◌, ◌++◌, ◌==◌, length, arith,
  ok, ℤ, pos, negsuc, is_zero, Bool-cases, inl, inr, if◌then◌else◌, Option, none, some,
  Option-cases,
}
use mambo.Strings.{
  Memory, char_is_int, to_char, memcheck_index, rindex_loop, memcheck_rindex, memcheck_strchrnul,
}
use mambo.Strings.Views.{CString, first_at, last_at, prefix}

is_zero-char : (c : ℤ) → char_is_int 0 c ≡ is_zero c
is_zero-char (pos zero) = refl
is_zero-char (pos (suc n)) = ground arith
is_zero-char (negsuc n) = refl

index_lem :
    (xs : List ℕ) (fuel : ℕ) (m : Memory) (s : ℕ) (c : ℤ)
    → CString m s xs
    → length xs < fuel
    → memcheck_index fuel m s c ≡ ok (first_at (λ x. char_is_int x c) s (xs ++ (0 ∷ [])))
unfolding memcheck_index first_at
index_lem xs zero m s c h enough = absurd (omega arith)
index_lem [] (suc fuel) m s c h enough =
    rw (h, is_zero-char c) (elim (Bool-cases (is_zero c)) [ inl z ↦ rw z refl | inr z ↦ rw z refl ])
index_lem (x ∷ xs) (suc fuel) m s c (here, nonzero, rest) enough =
    let other : (x == 0) ≡ false = ground arith in
    let next = index_lem xs fuel m (suc s) c rest (omega arith) in
    rw (here, other) (elim (Bool-cases (char_is_int x c)) [ inl z ↦ rw z refl | inr z ↦ rw z next ])

-- The result so far counts when no later place does.
rindex_loop_lem :
    (xs : List ℕ) (fuel : ℕ) (m : Memory) (s : ℕ) (c : ℤ) (ret : Option ℕ)
    → CString m s xs
    → length xs < fuel
    → rindex_loop fuel m s c ret
      ≡ ok (elim (last_at (λ x. char_is_int x c) s (xs ++ (0 ∷ []))) [
        | some place ↦ some place
        | none ↦ ret
      ])
unfolding rindex_loop last_at
rindex_loop_lem xs zero m s c ret h enough = absurd (omega arith)
rindex_loop_lem [] (suc fuel) m s c ret h enough =
    rw (h, is_zero-char c) (elim (Bool-cases (is_zero c)) [ inl z ↦ rw z refl | inr z ↦ rw z refl ])
rindex_loop_lem (x ∷ xs) (suc fuel) m s c ret (here, nonzero, rest) enough =
    let other : (x == 0) ≡ false = ground arith in
    let next =
      rindex_loop_lem xs fuel m (suc s) c (if char_is_int x c then some s else ret) rest
        (omega arith) in
    rw (here, other)
      (next
        ∙ ap ok (elim (Option-cases (last_at (λ y. char_is_int y c) (suc s) (xs ++ (0 ∷ [])))) [
          | inl nowhere ↦
              rw nowhere
                (elim (Bool-cases (char_is_int x c)) [ inl z ↦ rw z refl | inr z ↦ rw z refl ])
          | inr (place, found) ↦ rw found refl
        ]))

unchanged : (o : Option ℕ) → ok (elim o [ some place ↦ some place | none ↦ none ]) ≡ ok o
unchanged none = refl
unchanged (some place) = refl

strchrnul_lem :
    (xs : List ℕ) (fuel : ℕ) (m : Memory) (s : ℕ) (c : ℤ)
    → CString m s xs
    → length xs < fuel
    → memcheck_strchrnul fuel m s c ≡ ok (s + prefix (λ x. not (x == to_char c)) xs)
unfolding memcheck_strchrnul prefix
strchrnul_lem xs zero m s c h enough = absurd (omega arith)
strchrnul_lem [] (suc fuel) m s c h enough = rw h (elim (Bool-cases (0 == to_char c)) [
  | inl z ↦ rw z (ap ok (omega arith))
  | inr z ↦ rw z (ap ok (omega arith))
])
strchrnul_lem (x ∷ xs) (suc fuel) m s c (here, nonzero, rest) enough =
    let other : (x == 0) ≡ false = ground arith in
    let next = strchrnul_lem xs fuel m (suc s) c rest (omega arith) in
    rw (here, other)
      (elim (Bool-cases (x == to_char c)) [
        | inl z ↦ rw z (ap ok (omega arith))
        | inr z ↦ rw z (next ∙ ap ok (omega arith))
      ])

-- At a string `xs` with any fuel above its length, `memcheck_index` returns the address of the first
-- and `memcheck_rindex` that of the last character equal to the int c, the terminator included, or
-- NULL when there is none, and `memcheck_strchrnul` returns the address behind the longest prefix
-- without the character that c narrows to.
memcheck_index_lem :
    (m : Memory) (s : ℕ) (xs : List ℕ) (c : ℤ) (fuel : ℕ)
    → CString m s xs
    → length xs < fuel
    → (memcheck_index fuel m s c ≡ ok (first_at (λ x. char_is_int x c) s (xs ++ (0 ∷ []))))
      × (memcheck_rindex fuel m s c ≡ ok (last_at (λ x. char_is_int x c) s (xs ++ (0 ∷ []))))
      × (memcheck_strchrnul fuel m s c ≡ ok (s + prefix (λ x. not (x == to_char c)) xs))
unfolding memcheck_rindex
memcheck_index_lem m s xs c fuel h enough = (
  index_lem xs fuel m s c h enough,
  rindex_loop_lem xs fuel m s c none h enough
      ∙ unchanged (last_at (λ x. char_is_int x c) s (xs ++ (0 ∷ []))),
  strchrnul_lem xs fuel m s c h enough,
)
