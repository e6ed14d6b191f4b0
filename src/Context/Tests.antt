-- ===== src/Context/Tests.antt =====
-- A user of tenant 7.
use django_rls_tenants.Base.Core.{◌≡◌, refl, true, false, String, none, some}
use django_rls_tenants.Base.Text.{codes}
use django_rls_tenants.Base.Outcome.{returned, ◌>>=◌}
use django_rls_tenants.Context.{
  TenantUser, resolve_user_guc_vars, context_gucs_of, decorated_call_tenant_id,
}
use django_rls_tenants.Gucs.{for_tenant}
use django_rls_tenants.Context.Request.{member_of, scope_of, scope_tenant_id, request_scope}
use django_rls_tenants.Context.Scoped.{request_scope-IsOfOne}
use django_rls_tenants.Context.Values.{gucs_for, resolve_user_guc_vars-decorated}

abbrev user : TenantUser String
user = record { is_tenant_admin = false; rls_tenant_id = some "7" }

abbrev same_text : String → String
same_text t = t

resolve_user_guc_vars-decorated_example :
    (resolve_user_guc_vars same_text (codes "rls") user none >>= λ variables.
    context_gucs_of (codes "rls") variables)
    ≡ (decorated_call_tenant_id user >>= λ t. returned (gucs_for same_text t))
resolve_user_guc_vars-decorated_example =
    resolve_user_guc_vars-decorated same_text (codes "rls") user

-- The user selects tenant 9.
request_scope-IsOfOne_example : for_tenant "9" ≡ gucs_for same_text (some "9")
unfolding request_scope member_of scope_of scope_tenant_id resolve_user_guc_vars context_gucs_of
    for_tenant
request_scope-IsOfOne_example =
    request_scope-IsOfOne same_text (codes "rls") true true user (returned (some "9"))
      (for_tenant "9") (some "9") refl
