-- ===== src/Strings/Views.antt =====
-- What stands in memory, as lists, and what the string functions mean on lists.
use mambo.Base.{
  ℕ, zero, suc, ◌≡◌, ◌≢◌, Bool, Option, none, some, List, [], ◌∷◌, ltb, ◌==◌, if◌then◌else◌, ℤ, pos,
  minus_one,
}
use mambo.Strings.{Memory}

-- The string at the address is `xs`: no character is the terminator, which follows the last.
abbrev pub CString : Memory → ℕ → List ℕ → Type 0
CString m s [] = m s ≡ 0
CString m s (x ∷ xs) = (m s ≡ x) × (x ≢ 0) × CString m (suc s) xs

pub CString-eq : (m : Memory) (s t : ℕ) (xs : List ℕ) → t ≡ s → CString m s xs → CString m t xs
CString-eq m s t xs e h = rw e h

-- The n bytes from the address on.
unfoldable pub bytes : Memory → ℕ → ℕ → List ℕ
bytes m s zero = []
bytes m s (suc n) = m s ∷ bytes m (suc s) n

-- The order of strings: by the first characters that differ, and a prefix first.
unfoldable pub compare_lists : List ℕ → List ℕ → ℤ
compare_lists [] [] = pos 0
compare_lists [] (y ∷ ys) = minus_one
compare_lists (x ∷ xs) [] = pos 1
compare_lists (x ∷ xs) (y ∷ ys) =
    if x == y then compare_lists xs ys else if ltb x y then minus_one else pos 1

-- The first and the last place, counted from `s`, with a test.
unfoldable pub first_at : (ℕ → Bool) → ℕ → List ℕ → Option ℕ
first_at p s [] = none
first_at p s (x ∷ xs) = if p x then some s else first_at p (suc s) xs

unfoldable pub last_at : (ℕ → Bool) → ℕ → List ℕ → Option ℕ
last_at p s [] = none
last_at p s (x ∷ xs) = elim (last_at p (suc s) xs) [
  | some place ↦ some place
  | none ↦ if p x then some s else none
]

-- How many characters from the start on satisfy a test.
unfoldable pub prefix : (ℕ → Bool) → List ℕ → ℕ
prefix p [] = 0
prefix p (x ∷ xs) = if p x then suc (prefix p xs) else 0
