-- ===== src/Policy/Fragment.antt =====
-- django_rls_tenants/rls/policy_sql.py: the fragments that every policy predicate is made of.
use django_rls_tenants.Base.Core.{◌++◌}
use django_rls_tenants.Base.Text.{Text, codes}

unfoldable pub scalar_setting : Text → Text
scalar_setting guc_var = codes "(SELECT current_setting('" ++ (guc_var ++ codes "', true))")

unfoldable pub tenant_value_sql : Text → Text → Text
tenant_value_sql guc_tenant_var tenant_pk_type =
    codes "nullif(" ++ (scalar_setting guc_tenant_var ++ (codes ", '')::" ++ tenant_pk_type))

unfoldable pub tenant_match_sql : Text → Text → Text → Text
tenant_match_sql column guc_tenant_var tenant_pk_type =
    column ++ (codes " = " ++ tenant_value_sql guc_tenant_var tenant_pk_type)

unfoldable pub bool_flag_sql : Text → Text
bool_flag_sql guc_var = scalar_setting guc_var ++ codes " = 'true'"
