-- ===== src/Base/Effects.antt =====
-- How a C function ends: it returns, an `assert` fails, or it never returns (`while (1)`).
use mathlib.Core.Path.{◌≡◌}
use mathlib.Core.Bool.{Bool, true, false}

pub data Outcome {ℓ} (A : Type ℓ) : Type ℓ where
  ok : A → Outcome A
  abort : Outcome A
  hang : Outcome A

infixl 5 ◌>>=◌ ◌>>◌
abbrev pub ◌>>=◌ {ℓ ℓ'} : {A : Type ℓ} {B : Type ℓ'} → Outcome A → (A → Outcome B) → Outcome B
abort >>= next = abort
hang >>= next = hang
ok result >>= next = next result

abbrev pub ◌>>◌ {ℓ} : {B : Type ℓ} → Outcome (Unit {0}) → Outcome B → Outcome B
abort >> next = abort
hang >> next = hang
ok _ >> next = next

-- `assert(b)`, which the build leaves on.
abbrev pub assert : Bool → Outcome (Unit {0})
assert true = ok tt
assert false = abort

-- The function returns, with a result that satisfies `P`.
abbrev pub Returns {ℓ κ} : {A : Type ℓ} → Outcome A → (A → Type κ) → Type (ℓ ⊔ κ)
Returns {A} m P = (a : A) × (m ≡ ok a) × P a
