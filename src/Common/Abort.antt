-- ===== src/Common/Abort.antt =====
-- Code that may stop the process: `ErrorOnFailure`, `__builtin_trap` and the failing
-- FUZZTEST_CHECK macros are `aborted`, and everything after them is not run. So is what the source
-- leaves undefined, which need not stop the process.
use mathlib.Core.Path.{◌≡◌, refl}
use mathlib.Core.Bool.{Bool, true, false}
use mathlib.Core.Logic.{◌⊎◌, inl, inr}
use mathlib.Core.Option.{Option, none, some}

pub data Outcome {ℓ} (A : Type ℓ) : Type ℓ where
  aborted : Outcome A
  done : A → Outcome A

infixl 5 ◌>>=◌ ◌>>◌
abbrev pub ◌>>=◌ {ℓ κ} : {A : Type ℓ} {B : Type κ} → Outcome A → (A → Outcome B) → Outcome B
aborted >>= f = aborted
done a >>= f = f a

abbrev pub ◌>>◌ {ℓ} : {B : Type ℓ} → Outcome (Unit {0}) → Outcome B → Outcome B
m >> k = m >>= λ _. k

-- FUZZTEST_CHECK(condition).
abbrev pub check : Bool → Outcome (Unit {0})
check true = done tt
check false = aborted

pub Outcome-cases {ℓ} : {A : Type ℓ} (m : Outcome A) → (m ≡ aborted) ⊎ ((a : A) × (m ≡ done a))
Outcome-cases aborted = inl refl
Outcome-cases (done a) = inr (a, refl)

pub done-injective {ℓ} : {A : Type ℓ} {a b : A} → done a ≡ done b → a ≡ b
done-injective e = cc

abbrev pub and_then {ℓ κ} : {A : Type ℓ} {B : Type κ} → Option A → (A → Option B) → Option B
and_then none f = none
and_then (some a) f = f a

-- The model goes no further where the source's behaviour is undefined.
abbrev pub defined {ℓ} : {A : Type ℓ} → Option A → Outcome A
defined none = aborted
defined (some a) = done a
