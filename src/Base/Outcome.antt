-- ===== src/Base/Outcome.antt =====
-- What a call that may raise gives back.
use django_rls_tenants.Base.Core.{◌≡◌, refl}

-- The exceptions, as the code tells them apart: by its `except` clauses, or by raising them.
pub data Error : Type 0 where
  database_error : Error
  runtime_error : Error
  value_error : Error
  type_error : Error
  configuration_error : Error
  permission_denied : Error
  no_tenant_context : Error
  exception : Error
  base_exception : Error

pub data Outcome {ℓ} (A : Type ℓ) : Type ℓ where
  returned : A → Outcome A
  raised : Error → Outcome A

-- Calls in sequence over a state: an exception skips the rest.
abbrev pub and_then {ℓ ℓ' ℓ''} :
    {S : Type ℓ} {A : Type ℓ'} {B : Type ℓ''}
    → Outcome A × S
    → (A → S → Outcome B × S)
    → Outcome B × S
and_then (returned a, s) f = f a s
and_then (raised e, s) f = (raised e, s)

-- Calls without a state.
infixl 5 ◌>>=◌ ◌>>◌
abbrev pub ◌>>=◌ {ℓ κ} : {A : Type ℓ} {B : Type κ} → Outcome A → (A → Outcome B) → Outcome B
returned a >>= f = f a
raised e >>= f = raised e

abbrev pub ◌>>◌ {ℓ κ} : {A : Type ℓ} {B : Type κ} → Outcome A → Outcome B → Outcome B
m >> k = m >>= λ _. k

pub >>=-returned {ℓ κ} :
    {A : Type ℓ} {B : Type κ} (m : Outcome A) {f : A → Outcome B} {b : B}
    → (m >>= f) ≡ returned b
    → (a : A) × (m ≡ returned a) × (f a ≡ returned b)
>>=-returned (returned a) h = (a, refl, h)
>>=-returned (raised e) h = cc

-- What a call returns, if it returns, satisfies this.
pub data Post {ℓ κ} {A : Type ℓ} (P : A → Type κ) : Outcome A → Type (ℓ ⊔ κ) where
  post : {a : A} → P a → Post P (returned a)
  post_raised : {e : Error} → Post P (raised e)

pub Post->>= {ℓ κ μ ν} :
    {A : Type ℓ} {B : Type κ} {P : A → Type μ} {Q : B → Type ν} (m : Outcome A) {f : A → Outcome B}
    → Post P m
    → ((a : A) → P a → Post Q (f a))
    → Post Q (m >>= f)
Post->>= (returned a) (post h) k = k a h
Post->>= (raised e) h k = post_raised

-- Whatever the first call returns.
pub Post-always {ℓ κ ν} :
    {A : Type ℓ} {B : Type κ} {Q : B → Type ν} (m : Outcome A) {f : A → Outcome B}
    → ((a : A) → Post Q (f a))
    → Post Q (m >>= f)
Post-always (returned a) k = k a
Post-always (raised e) k = post_raised

pub Post-returned {ℓ κ} : {A : Type ℓ} {P : A → Type κ} {a : A} → Post P (returned a) → P a
Post-returned (post h) = h
