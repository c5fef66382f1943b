-- ===== src/Strings/Tests.antt =====
-- Two strings in a small memory.
use mambo.Base.{ℕ, ◌<◌, ◌≡◌, refl, List, [], ◌∷◌, arith, ok, inr, Returns, get_or}
use mambo.Strings.{Memory, memcheck_strcmp, memcheck_strncmp, memcheck_strcpy, memcheck_stpcpy}
use mambo.Strings.Views.{CString, compare_lists}
use mambo.Strings.Compare.{take, memcheck_strcmp_lem}
use mambo.Strings.Copy.{Copied, memcheck_strcpy_lem}

-- "aba" at 1 and "abc" at 5
abbrev memory : Memory
memory = λ a. get_or (0 ∷ 97 ∷ 98 ∷ 97 ∷ 0 ∷ 97 ∷ 98 ∷ 99 ∷ 0 ∷ []) a 0

abbrev aba : List ℕ
aba = 97 ∷ 98 ∷ 97 ∷ []

abbrev abc : List ℕ
abc = 97 ∷ 98 ∷ 99 ∷ []

aba-CString : CString memory 1 aba
aba-CString = (
  refl,
  λ e. omega (arith, e),
  (refl, λ e. omega (arith, e), (refl, λ e. omega (arith, e), refl)),
)

abc-CString : CString memory 5 abc
abc-CString = (
  refl,
  λ e. omega (arith, e),
  (refl, λ e. omega (arith, e), (refl, λ e. omega (arith, e), refl)),
)

memcheck_strcmp_lem_example :
    ((fuel : ℕ) → 3 < fuel → memcheck_strcmp fuel memory 1 5 ≡ ok (compare_lists aba abc))
    × ((n : ℕ) → memcheck_strncmp memory 1 5 n ≡ compare_lists (take n aba) (take n abc))
memcheck_strcmp_lem_example = memcheck_strcmp_lem memory 1 5 aba abc aba-CString abc-CString

memcheck_strcpy_lem_example :
    Returns (memcheck_strcpy 4 memory 20 1) (λ r. (r.0 ≡ 20) × Copied memory r.1 20 aba)
    × Returns (memcheck_stpcpy 4 memory 20 1) (λ r. (r.0 ≡ 23) × Copied memory r.1 20 aba)
memcheck_strcpy_lem_example =
    memcheck_strcpy_lem memory 20 1 aba 4 aba-CString (inr (omega arith)) (omega arith)
      (omega arith) (omega arith)
