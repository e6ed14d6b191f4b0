-- ===== src/Policy/Safe.antt =====
-- django_rls_tenants/tenants/sql.py: predicates for hand-written SQL.
pub mod Written
pub mod Agrees
use django_rls_tenants.Base.Core.{
  Bool, true, false, not, ◌&&◌, ◌||◌, Option, none, some, List, [], ◌∷◌, ◌++◌, if◌then◌else◌,
}
use django_rls_tenants.Base.Text.{Text, codes}
use django_rls_tenants.Base.Outcome.{Outcome, returned, raised}
use django_rls_tenants.Rls.Guc.{is_guc_name}
use django_rls_tenants.Policy.Names.{
  also, if_given, validated, validate_field_name, validate_pk_type,
}
use django_rls_tenants.Policy.Fragment.{bool_flag_sql, tenant_match_sql, tenant_value_sql}
use django_rls_tenants.Policy.Create.{join}

-- The settings of the policies (`rls_tenants_config`), each of which is a string.
pub record PolicyConf : Type 0 where
  pub tenant_model : Text
  pub guc_current_tenant : Text
  pub guc_is_admin : Text
  pub tenant_pk_type : Text

-- `_validated_tenant_guc_and_pk_type`
unfoldable pub validated_tenant_guc_and_pk_type : PolicyConf → Outcome (Text × Text)
unfolding validate_pk_type
validated_tenant_guc_and_pk_type conf = also (validated (is_guc_name conf.guc_current_tenant)) (
    also (validate_pk_type conf.tenant_pk_type)
      (returned (conf.guc_current_tenant, conf.tenant_pk_type)))

-- The column, with its table if one is given.
abbrev pub qualified : Option Text → Text → Text
qualified none column = column
qualified (some table) column = codes "\"" ++ (table ++ (codes "\"." ++ column))

-- A condition before the ones that follow, if those are there.
abbrev pub before : Text → Outcome (List Text) → Outcome (List Text)
before condition (returned conditions) = returned (condition ∷ conditions)
before condition (raised e) = raised e

-- The loop over `extra_bypass_flags`.
unfoldable pub flag_conditions : List Text → Outcome (List Text)
flag_conditions [] = returned []
flag_conditions (flag ∷ flags) =
    also (validated (is_guc_name flag)) (before (bool_flag_sql flag) (flag_conditions flags))

-- The predicate with its bypass conditions.
abbrev pub with_bypass : Text → Outcome (List Text) → Outcome Text
with_bypass predicate (returned conditions) =
    returned
      (codes "(" ++ (predicate ++ (codes " OR " ++ (join (codes " OR ") conditions ++ codes ")"))))
with_bypass predicate (raised e) = raised e

-- The lines of `safe_tenant_sql` from its column's check on.
unfoldable pub safe_predicate :
    PolicyConf → Text → Option Text → Bool → List Text → Text × Text → Outcome Text
unfolding validate_field_name flag_conditions join
safe_predicate conf column table include_admin extra_bypass_flags (guc_tenant, pk_type) =
    let predicate = tenant_match_sql (qualified table column) guc_tenant pk_type in
    also (validate_field_name column) (
      also (if_given validate_field_name table) (
        if not include_admin
        then returned predicate
        else also (validated (is_guc_name conf.guc_is_admin)) (
            with_bypass predicate
              (before (bool_flag_sql conf.guc_is_admin) (flag_conditions extra_bypass_flags)))))

abbrev pub with_checked :
    {A : Type 0} → Outcome (Text × Text) → (Text × Text → Outcome A) → Outcome A
with_checked (returned names) f = f names
with_checked (raised e) f = raised e

unfoldable pub safe_tenant_sql : PolicyConf → Text → Option Text → Bool → List Text → Outcome Text
unfolding validated_tenant_guc_and_pk_type safe_predicate
safe_tenant_sql conf column table include_admin extra_bypass_flags =
    with_checked (validated_tenant_guc_and_pk_type conf)
      (safe_predicate conf column table include_admin extra_bypass_flags)

unfoldable pub current_tenant_value_sql : PolicyConf → Outcome Text
unfolding validated_tenant_guc_and_pk_type
current_tenant_value_sql conf =
    with_checked (validated_tenant_guc_and_pk_type conf)
      (λ names. returned (tenant_value_sql names.0 names.1))
