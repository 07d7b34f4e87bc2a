-- ===== src/Base/Outcomes.antt =====
-- A kernel function either panics or returns.
use mathlib.Core.Option.{Option, none, some}
use mathlib.Core.Path.{◌≡◌, refl}

pub data Outcome {ℓ} (A : Type ℓ) : Type ℓ where
  panic : Outcome A
  ret : A → Outcome A

infixl 5 ◌>>=◌
abbrev pub ◌>>=◌ {ℓ κ} : {A : Type ℓ} {B : Type κ} → Outcome A → (A → Outcome B) → Outcome B
panic >>= f = panic
ret a >>= f = f a

-- What follows a result, if there is one.
abbrev pub and_then {ℓ κ} : {A : Type ℓ} {B : Type κ} → Option A → (A → Option B) → Option B
and_then none f = none
and_then (some a) f = f a

-- A result of a chain comes from a result of its first part.
pub and_then_some {ℓ κ μ} :
    {A : Type ℓ} {B : Type κ} (P : Type μ) (o : Option A) (f : A → Option B) (d : B)
    → and_then o f ≡ some d
    → ((a : A) → o ≡ some a → f a ≡ some d → P)
    → P
and_then_some P none f d e h = absurd (cc e)
and_then_some P (some a) f d e h = h a refl e
