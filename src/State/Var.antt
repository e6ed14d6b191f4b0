-- ===== src/State/Var.antt =====
-- `contextvars`: a variable has a value in every `Context`, numbered here, and a token resets it
-- once, in the `Context` that made the token.
pub mod Laws
use django_rls_tenants.Base.Core.{ℕ, suc, ◌==◌, Bool, true, false, if◌then◌else◌}

-- What `ContextVar.reset` does: a token that was used, or is of another context, is refused.
pub data Reset : Type 0 where
  done : Reset
  runtime_error : Reset
  value_error : Reset

pub record Token {ℓ} (A : Type ℓ) : Type ℓ where
  pub id : ℕ
  pub context : ℕ
  pub old : A

pub record Var {ℓ} (A : Type ℓ) : Type ℓ where
  pub value : ℕ → A
  pub used : ℕ → Bool
  pub next : ℕ

-- `f` with another value at one point.
abbrev pub update {ℓ} : {A : Type ℓ} → (ℕ → A) → ℕ → A → ℕ → A
update f i a j = if i == j then a else f j

module _ {ℓ} {A : Type ℓ} where
  unfoldable pub set : ℕ → A → Var A → Token A × Var A
  set ctx a v = (
    record { id = v.next; context = ctx; old = v.value ctx },
    record v { value = update v.value ctx a; next = suc v.next; used = update v.used v.next false },
  )

  unfoldable pub reset : ℕ → Token A → Var A → Reset × Var A
  reset ctx t v =
      if v.used t.id
      then (runtime_error, v)
      else if t.context == ctx
      then (done, record v { value = update v.value ctx t.old; used = update v.used t.id true })
      else (value_error, v)
