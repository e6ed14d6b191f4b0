-- ===== src/Context/Values.antt =====
-- The two ways from a user to the values of a context (django_rls_tenants/tenants/context.py).
use django_rls_tenants.Base.Core.{
  ◌≡◌, refl, Bool, true, false, String, Option, none, some, [], ◌∷◌, if◌then◌else◌, arith,
}
use django_rls_tenants.Base.Text.{Text, text_eq, text_eq_refl}
use django_rls_tenants.Base.Outcome.{returned, ◌>>=◌}
use django_rls_tenants.Gucs.{ContextGucs, for_tenant, admin_gucs}
use django_rls_tenants.Context.{
  TenantUser, admin_name, tenant_name, variable, tenant_variables, resolve_user_guc_vars,
  context_gucs_of, required_tenant, decorated_call_tenant_id,
}

names_differ : (p : Text) → text_eq (tenant_name p) (admin_name p) ≡ false
unfolding text_eq
names_differ [] = refl
names_differ (c ∷ p) = let h = names_differ p in ground arith

pub context_gucs_of-two :
    (p : Text) (admin tenant : String)
    → context_gucs_of p ((tenant_name p, tenant) ∷ (admin_name p, admin) ∷ [])
      ≡ returned (record { is_admin = admin; current_tenant = tenant })
unfolding context_gucs_of variable
context_gucs_of-two p admin tenant = (λ i.
    (if names_differ p i
      then returned tenant
      else if text_eq_refl (admin_name p) i
      then returned admin
      else variable [] (admin_name p))
    >>= λ a.
        (if text_eq_refl (tenant_name p) i
          then returned tenant
          else variable ((admin_name p, admin) ∷ []) (tenant_name p))
        >>= λ t. returned (record { is_admin = a; current_tenant = t }))

-- The values of `tenant_context(t)`, or of `admin_context()` for no tenant.
abbrev pub gucs_for : {T : Type 0} → (T → String) → Option T → ContextGucs
gucs_for str none = admin_gucs
gucs_for str (some t) = for_tenant (str t)

-- For every user and GUC prefix, the mapping of _resolve_user_guc_vars, read by _context_gucs_of,
-- gives the values of the context that a call of a decorated function enters for the user, and
-- raises exactly when that call is refused: administrators get the admin values, other users those
-- of their tenant, and a user without a tenant NoTenantContextError.
pub resolve_user_guc_vars-decorated :
    {T : Type 0} (str : T → String) (prefix : Text) (user : TenantUser T)
    → (resolve_user_guc_vars str prefix user none >>= λ variables. context_gucs_of prefix variables)
      ≡ (decorated_call_tenant_id user >>= λ t. returned (gucs_for str t))
unfolding resolve_user_guc_vars decorated_call_tenant_id for_tenant
resolve_user_guc_vars-decorated str prefix user = of user.is_tenant_admin user.rls_tenant_id
  where
    of :
        (admin : Bool) (own : Option _)
        → ((if admin
              then returned ((tenant_name prefix, "") ∷ (admin_name prefix, "true") ∷ [])
              else tenant_variables str prefix own)
            >>= λ variables. context_gucs_of prefix variables)
          ≡ ((if admin then returned none else required_tenant own) >>= λ t.
              returned (gucs_for str t))
    of true own = context_gucs_of-two prefix "true" ""
    of false none = refl
    of false (some t) = context_gucs_of-two prefix "false" (str t)
