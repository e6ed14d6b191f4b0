-- ===== src/Policy/Tests.antt =====
-- The policies of a table, `app_task`, of a tenant app.
use django_rls_tenants.Base.Core.{
  ℕ, zero, suc, ◌≡◌, ◌||◌, ◌↔◌, refl, true, none, some, List, [], ◌∷◌, if◌then◌else◌,
}
use django_rls_tenants.Base.Text.{Text, codes, text_eq, text_in, take, encode, encode_char}
use django_rls_tenants.Rls.Guc.{is_guc_name, all_name_chars}
use django_rls_tenants.Policy.Names.{is_field_name}
use django_rls_tenants.Policy.Create.{
  policy_using, policy_check, max_identifier_bytes, isolation_policy_name, sharing_policy_name,
  sharing_policy_name_problem,
}
use django_rls_tenants.Policy.Create.Cut.{policy_names-cut}
use django_rls_tenants.Policy.Expr.{Expr, Row, print, Settings, passes}
use django_rls_tenants.Policy.Trees.{using_expr, check_expr, policy-print}
use django_rls_tenants.Policy.Meaning.{any_on, flag_on, is_tenants, tenant_key, policy-passes}
use django_rls_tenants.Policy.Example.{eval, postgres, postgres-PostgresLaws}
use django_rls_tenants.Policy.Safe.{PolicyConf, safe_tenant_sql}
use django_rls_tenants.Policy.Safe.Written.{
  safe_expr, all_guc_names, are_names, validated_text, safe_tenant_sql-print,
}

unfoldable repeat : ℕ → ℕ → Text
repeat zero c = []
repeat (suc n) c = c ∷ repeat n c

abbrev pub g_tenant : Text
g_tenant = codes "rls.current_tenant"

abbrev pub g_admin : Text
g_admin = codes "rls.is_admin"

abbrev pub report : List Text
report = codes "rls.report" ∷ []

-- The session of a tenant.
abbrev session_of : Text → Settings
session_of tenant g =
    if text_eq g g_tenant
    then some tenant
    else if text_eq g g_admin
    then some (codes "false")
    else none

abbrev column : Text
column = codes "tenant_id"

policy-print_example :
    (policy_using column g_tenant g_admin (codes "int") report
      ≡ print (using_expr column g_tenant g_admin (codes "int") report))
    × (policy_check column g_tenant g_admin (codes "int")
        ≡ print (check_expr column g_tenant g_admin (codes "int")))
policy-print_example = policy-print column g_tenant g_admin (codes "int") report

abbrev pub seven : Settings
seven = session_of (codes "7")

policy-passes_example :
    (using check : Expr) × (policy_using column g_tenant g_admin (codes "int") report ≡ print using)
    × (policy_check column g_tenant g_admin (codes "int") ≡ print check)
    × ((s : Settings) (r : Row Text)
        → (passes (postgres.eval using s r) ≡ (
            any_on g_admin report s
            || is_tenants postgres postgres-PostgresLaws
                (tenant_key postgres postgres-PostgresLaws g_tenant (codes "int") s)
                (r column)))
          × (passes (postgres.eval check s r) ≡ (
              flag_on g_admin s
              || is_tenants postgres postgres-PostgresLaws
                  (tenant_key postgres postgres-PostgresLaws g_tenant (codes "int") s)
                  (r column))))
policy-passes_example =
    policy-passes postgres postgres-PostgresLaws column g_tenant g_admin (codes "int") report

-- A session of another tenant, that set nothing else.
abbrev eight : Settings
eight g = if text_eq g g_tenant then some (codes "8") else none

abbrev pub conf : PolicyConf
conf = record {
  tenant_model = codes "app.Tenant";
  guc_current_tenant = g_tenant;
  guc_is_admin = g_admin;
  tenant_pk_type = codes "int";
}

safe_tenant_sql-print_example :
    safe_tenant_sql conf column none true report
    ≡ validated_text
        (are_names conf column none true report)
        (print (safe_expr conf column none true report))
safe_tenant_sql-print_example = safe_tenant_sql-print conf column none true report

abbrev safe_sql : Text
safe_sql = print (safe_expr conf column none true report)

are_valid : are_names conf column none true report ≡ true
unfolding text_in is_guc_name all_name_chars is_field_name all_guc_names
are_valid = refl

-- 28 characters of two bytes, as a name that is too long.
abbrev accented : Text
accented = repeat 28 233

accented_is_long : sharing_policy_name_problem accented ≡ true
unfolding sharing_policy_name_problem encode encode_char repeat
accented_is_long = refl

policy_names-cut_example :
    (take max_identifier_bytes (encode (isolation_policy_name accented))
      ≡ take max_identifier_bytes (encode (sharing_policy_name accented)))
    ↔ (sharing_policy_name_problem accented ≡ true)
policy_names-cut_example = policy_names-cut accented
