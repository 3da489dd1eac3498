-- ===== src/Common/Calls.antt =====
-- The outcome of a C call: it returns, it stops the process by `abort` or a failed `assert`, or
-- the model's fuel for its recursion is spent.
use mathlib.Core.Path.{◌≡◌, ap, ◌∙◌}

pub data Outcome {ℓ} (A : Type ℓ) : Type ℓ where
  ok : A → Outcome A
  aborted : Outcome A
  out_of_fuel : Outcome A

infixl 5 ◌>>=◌
abbrev pub ◌>>=◌ {ℓ κ} : {A : Type ℓ} {B : Type κ} → Outcome A → (A → Outcome B) → Outcome B
ok a >>= f = f a
aborted >>= f = aborted
out_of_fuel >>= f = out_of_fuel

-- The call returns, and its value satisfies `P`.
abbrev pub Returns {ℓ κ} : {A : Type ℓ} → Outcome A → (A → Type κ) → Type (ℓ ⊔ κ)
Returns {A} r P = (a : A) × (r ≡ ok a) × P a

-- What a call returns goes to the next one.
pub bind_ok {ℓ κ} :
    {A : Type ℓ} {B : Type κ} {r : Outcome A} {a : A} (f : A → Outcome B)
    → r ≡ ok a
    → (r >>= f) ≡ f a
bind_ok f e = ap (λ t. t >>= f) e

pub Returns_bind {ℓ κ ι μ} :
    {A : Type ℓ} {B : Type κ} {r : Outcome A} {P : A → Type ι} {Q : B → Type μ} (f : A → Outcome B)
    → Returns r P
    → ((a : A) → P a → Returns (f a) Q)
    → Returns (r >>= f) Q
Returns_bind f (a, e, p) next = let (b, e', q) = next a p in (b, bind_ok f e ∙ e', q)

pub Returns_eq {ℓ κ} :
    {A : Type ℓ} {r s : Outcome A} {P : A → Type κ} → r ≡ s → Returns s P → Returns r P
Returns_eq e (a, e', p) = (a, e ∙ e', p)
