-- ===== src/State/Block.antt =====
-- The block `_rls_state` of django_rls_tenants/tenants/context.py: it sets
-- the three variables of state.py and resets them in the opposite order, each reset in the
-- `finally` of the one before, so that a later exception replaces an earlier one. `T` is the type
-- of tenant ids.
pub mod Restores
mod Tests
use django_rls_tenants.Base.Core.{ℕ, Bool, true, false, Option, none, some}
use django_rls_tenants.Gucs.{ContextGucs}
use django_rls_tenants.State.Var.{Var, Token, Reset, done, runtime_error, value_error, set, reset}
use django_rls_tenants.State.Holder.{Holders, Entered, set_context_gucs, reset_context_gucs}

pub record RlsState (T : Type 0) : Type 0 where
  pub tenant_id : Var (Option T)
  pub active : Var Bool
  pub holders : Holders

pub record BlockTokens (T : Type 0) : Type 0 where
  pub active_token : Token Bool
  pub tenant_token : Token (Option T)
  pub entered : Entered

-- The exception that leaves nested `finally` clauses.
abbrev pub replaced_by : Reset → Reset → Reset
replaced_by r done = r
replaced_by r runtime_error = runtime_error
replaced_by r value_error = value_error

module _ {T : Type 0} where
  unfoldable get_current_tenant_id : ℕ → RlsState T → Option T
  get_current_tenant_id ctx s = s.tenant_id.value ctx

  unfoldable set_current_tenant_id : ℕ → Option T → RlsState T → Token (Option T) × RlsState T
  set_current_tenant_id ctx tenant_id s =
      let (token, v) = set ctx tenant_id s.tenant_id in (token, record s { tenant_id = v })

  unfoldable reset_current_tenant_id : ℕ → Token (Option T) → RlsState T → Reset × RlsState T
  reset_current_tenant_id ctx token s =
      let (r, v) = reset ctx token s.tenant_id in (r, record s { tenant_id = v })

  unfoldable get_rls_context_active : ℕ → RlsState T → Bool
  get_rls_context_active ctx s = s.active.value ctx

  unfoldable set_rls_context_active : ℕ → Bool → RlsState T → Token Bool × RlsState T
  set_rls_context_active ctx active s =
      let (token, v) = set ctx active s.active in (token, record s { active = v })

  unfoldable reset_rls_context_active : ℕ → Token Bool → RlsState T → Reset × RlsState T
  reset_rls_context_active ctx token s =
      let (r, v) = reset ctx token s.active in (r, record s { active = v })

  -- `_rls_state(tenant_id, gucs)`, up to its `yield`.
  unfoldable enter_block : ℕ → Option T → ContextGucs → RlsState T → BlockTokens T × RlsState T
  enter_block ctx tenant_id gucs s =
      let (active_token, s₁) = set_rls_context_active ctx true s in
      let (tenant_token, s₂) = set_current_tenant_id ctx tenant_id s₁ in
      let (entered, h) = set_context_gucs ctx (some gucs) true s₂.holders in
      (
        record { active_token = active_token; tenant_token = tenant_token; entered = entered },
        record s₂ { holders = h },
      )

  -- Its `finally`.
  unfoldable exit_block : ℕ → BlockTokens T → RlsState T → Reset × RlsState T
  exit_block ctx k s =
      let (r₁, h) = reset_context_gucs ctx k.entered s.holders in
      let (r₂, s₂) = reset_current_tenant_id ctx k.tenant_token (record s { holders = h }) in
      let (r₃, s₃) = reset_rls_context_active ctx k.active_token s₂ in
      (replaced_by (replaced_by r₁ r₂) r₃, s₃)
