-- ===== src/Context.antt =====
-- The values of a user's context (django_rls_tenants/tenants/context.py).
pub mod Values
pub mod Request
pub mod Scoped
pub mod Databases
pub mod Undone
mod Tests
use django_rls_tenants.Base.Core.{
  Bool, true, false, not, ◌&&◌, ◌||◌, String, Option, none, some, List, [], ◌∷◌, ◌++◌,
  if◌then◌else◌,
}
use django_rls_tenants.Base.Text.{Text, codes, text_eq, text_in}
use django_rls_tenants.Base.Outcome.{Outcome, returned, raised, no_tenant_context, exception, ◌>>=◌}
use django_rls_tenants.Gucs.{ContextGucs}

-- What `TenantUser` promises; the type of tenant ids is a parameter.
pub record TenantUser (T : Type 0) : Type 0 where
  pub is_tenant_admin : Bool
  pub rls_tenant_id : Option T

-- `GUC_IS_ADMIN` and `GUC_CURRENT_TENANT` of the settings, from their prefix.
abbrev pub admin_name : Text → Text
admin_name prefix = prefix ++ codes ".is_admin"

abbrev pub tenant_name : Text → Text
tenant_name prefix = prefix ++ codes ".current_tenant"

-- A mapping of GUC names to values, newest entry first.
abbrev pub Variables : Type 0
Variables = List (Text × String)

-- `variables[name]`; a missing name is a KeyError.
unfoldable pub variable : Variables → Text → Outcome String
unfolding text_eq
variable [] name = raised exception
variable ((n, value) ∷ variables) name =
    let rest = variable variables name in if text_eq n name then returned value else rest

-- `tenant_id` if it is given, or the user's own.
abbrev pub or_own : {T : Type 0} → Option T → Option T → Option T
or_own none own = own
or_own (some t) own = some t

module _ {T : Type 0} (str : T → String) where
  -- The mapping of a user who is no tenant admin.
  abbrev pub tenant_variables : Text → Option T → Outcome Variables
  tenant_variables prefix none = raised no_tenant_context
  tenant_variables prefix (some t) =
      returned ((tenant_name prefix, str t) ∷ (admin_name prefix, "false") ∷ [])

  -- `_resolve_user_guc_vars`
  unfoldable pub resolve_user_guc_vars : Text → TenantUser T → Option T → Outcome Variables
  resolve_user_guc_vars prefix user tenant_id =
      if user.is_tenant_admin
      then returned ((tenant_name prefix, "") ∷ (admin_name prefix, "true") ∷ [])
      else tenant_variables prefix (or_own tenant_id user.rls_tenant_id)

-- `_context_gucs_of`
unfoldable pub context_gucs_of : Text → Variables → Outcome ContextGucs
unfolding variable
context_gucs_of prefix variables = do
  is_admin ← variable variables (admin_name prefix)
  current_tenant ← variable variables (tenant_name prefix)
  returned (record { is_admin = is_admin; current_tenant = current_tenant })

-- A call's tenant, or the refusal of a user without one.
abbrev pub required_tenant : {T : Type 0} → Option T → Outcome (Option T)
required_tenant none = raised no_tenant_context
required_tenant (some t) = returned (some t)

-- `_decorated_call_tenant_id`; the refusal is also logged.
unfoldable pub decorated_call_tenant_id : {T : Type 0} → TenantUser T → Outcome (Option T)
decorated_call_tenant_id user =
    if user.is_tenant_admin then returned none else required_tenant user.rls_tenant_id

-- `_writes_gucs`
unfoldable pub writes_gucs : List Text → Text → Bool → Bool
unfolding text_in
writes_gucs databases using is_local = not is_local || not (text_in using databases)
