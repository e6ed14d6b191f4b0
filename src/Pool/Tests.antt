-- ===== src/Pool/Tests.antt =====
-- A pooled connection that goes back with a tenant's values.
use django_rls_tenants.Base.Core.{
  ◌≡◌, ap, sym, refl, true, false, none, some, List, [], ◌∷◌, if◌then◌else◌,
}
use django_rls_tenants.Base.Text.{Text, codes, text_eq, text_in}
use django_rls_tenants.Base.Outcome.{returned}
use django_rls_tenants.Policy.Safe.{PolicyConf}
use django_rls_tenants.Policy.Constraint.{RlsConstraint}
use django_rls_tenants.Policy.Expr.{Settings, passes}
use django_rls_tenants.Policy.Trees.{using_expr}
use django_rls_tenants.Policy.Example.{project, postgres, postgres-PostgresLaws}
use django_rls_tenants.Pool.{
  ModelConstraint, rls, PoolDriver, reset_rls_gucs, policy_guc_names, is_custom_guc_name,
}
use django_rls_tenants.Pool.Names.{first, in_model}
use django_rls_tenants.Pool.Cleared.{PoolLaws, reset_rls_gucs-hides}

-- A session is what it has for each GUC, and any statement with parameters empties those.
abbrev emptied : List Text → Settings → Settings
emptied names s g = if text_in g names then some [] else s g

abbrev driver : PoolDriver
driver = record {
  Session = Settings;
  execute = λ query names s. (returned tt, emptied names s);
  commit = λ s. (returned tt, s);
  value = λ s g. s g;
}

driver-PoolLaws : PoolLaws driver
driver-PoolLaws = record {
  clear_law = λ n ns s s' h g. ap (λ z. z.1 g) (sym h);
  commit_law = λ s s' h g. ap (λ z. z.1 g) (sym h);
}

abbrev pool_conf : PolicyConf
pool_conf = record {
  tenant_model = codes "app.Tenant";
  guc_current_tenant = codes "rls.current_tenant";
  guc_is_admin = codes "rls.is_admin";
  tenant_pk_type = codes "int";
}

abbrev project_rls : RlsConstraint
project_rls = record {
  name = codes "project_rls";
  field = codes "tenant";
  guc_tenant_var = codes "rls.current_tenant";
  guc_admin_var = codes "rls.is_admin";
  tenant_pk_type = codes "int";
  extra_bypass_flags = codes "rls.report" ∷ [];
  extra_predicates = [];
}

abbrev models : List (List ModelConstraint)
models = (rls project_rls ∷ []) ∷ []

-- It was an administrator's.
abbrev admin_session : Settings
admin_session g = if text_eq g (codes "rls.is_admin") then some (codes "true") else none

abbrev after_reset_session : Settings
after_reset_session = emptied (policy_guc_names pool_conf true models none).0 admin_session

reset_rls_gucs-hides_example :
    passes (
      postgres.eval
        (using_expr
          (codes "tenant_id")
          (codes "rls.current_tenant")
          (codes "rls.is_admin")
          (codes "int")
          (codes "rls.report" ∷ []))
        after_reset_session
        project)
    ≡ false
unfolding reset_rls_gucs is_custom_guc_name
reset_rls_gucs-hides_example =
    reset_rls_gucs-hides driver driver-PoolLaws postgres postgres-PostgresLaws pool_conf true models
      true none admin_session after_reset_session project_rls (codes "tenant_id") project tt
      (in_model first) refl refl
