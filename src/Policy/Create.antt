-- ===== src/Policy/Create.antt =====
-- The statements that django_rls_tenants/rls/constraints.py builds, text by text.
pub mod Cut
use django_rls_tenants.Base.Core.{
  ℕ, ◌+◌, ltb, Bool, true, false, Option, none, some, List, [], ◌∷◌, ◌++◌, map, if◌then◌else◌,
}
use django_rls_tenants.Base.Text.{Text, codes, length, encode}
use django_rls_tenants.Base.Outcome.{Outcome, returned, raised, value_error}
use django_rls_tenants.Policy.Fragment.{bool_flag_sql, tenant_match_sql, tenant_value_sql}

-- `separator.join(texts)`
unfoldable pub join : Text → List Text → Text
join separator [] = []
join separator (t ∷ []) = t
join separator (t ∷ u ∷ ts) = t ++ (separator ++ join separator (u ∷ ts))

-- The `DO` block around a policy that is not there yet.
unfoldable pub do_unless_there : Text → Text → Text → Text
do_unless_there table policy_name body =
    codes
      "\n                DO $$\n                BEGIN\n                    IF NOT EXISTS (\n                        SELECT 1 FROM pg_policies\n                        WHERE policyname = '"
    ++ (policy_name
        ++ (codes "'\n                        AND tablename = '"
            ++ (table
                ++ (codes
                      "'\n                        AND schemaname = current_schema()\n                    ) THEN\n                        EXECUTE $BODY$\n"
                    ++ (body
                        ++ codes
                            "                        $BODY$;\n                    END IF;\n                END\n                $$;\n            ")))))

-- The statements that switch row-level security on, up to the policy's clauses.
unfoldable pub enable_and_create : Text → Text → Text → Text
enable_and_create table policy_name clauses =
    codes "                            ALTER TABLE \""
    ++ (table
        ++ (codes "\" ENABLE ROW LEVEL SECURITY;\n                            ALTER TABLE \""
            ++ (table
                ++ (codes
                      "\" FORCE ROW LEVEL SECURITY;\n                            CREATE POLICY \""
                    ++ (policy_name
                        ++ (codes "\"\n                            ON \""
                            ++ (table ++ (codes "\"\n" ++ clauses))))))))

-- `CASE WHEN bypass THEN true ELSE match END`
unfoldable pub case_sql : Text → Text → Text
case_sql bypass match =
    codes "CASE WHEN "
    ++ (bypass
        ++ (codes
              "\n                                     THEN true\n                                     ELSE "
            ++ (match ++ codes "\n                                END")))

unfoldable pub using_and_check : Text → Text → Text
using_and_check using check =
    codes "                            USING (\n                                "
    ++ (using
        ++ (codes
              "\n                            )\n                            WITH CHECK (\n                                "
            ++ (check ++ codes "\n                            );\n")))

-- The separator of the bypass conditions.
abbrev pub or_line : Text
or_line = codes "\n                              OR "

unfoldable pub policy_using : Text → Text → Text → Text → List Text → Text
unfolding case_sql
policy_using column guc_tenant_var guc_admin_var tenant_pk_type extra_bypass_flags =
    case_sql (join or_line (bool_flag_sql guc_admin_var ∷ map bool_flag_sql extra_bypass_flags))
      (tenant_match_sql column guc_tenant_var tenant_pk_type)

unfoldable pub policy_check : Text → Text → Text → Text → Text
unfolding case_sql
policy_check column guc_tenant_var guc_admin_var tenant_pk_type =
    case_sql (bool_flag_sql guc_admin_var) (tenant_match_sql column guc_tenant_var tenant_pk_type)

abbrev pub isolation_policy_name : Text → Text
isolation_policy_name table = table ++ codes "_tenant_isolation_policy"

-- `_build_policy_create_sql`
unfoldable pub build_policy_create_sql : Text → Text → Text → Text → Text → List Text → Text
build_policy_create_sql table column guc_tenant_var guc_admin_var tenant_pk_type
      extra_bypass_flags =
    do_unless_there table (isolation_policy_name table) (
      enable_and_create table (isolation_policy_name table) (
        using_and_check
          (policy_using column guc_tenant_var guc_admin_var tenant_pk_type extra_bypass_flags)
          (policy_check column guc_tenant_var guc_admin_var tenant_pk_type)))

-- `DROP POLICY IF EXISTS ...` and the two `ALTER TABLE`.
unfoldable pub drop_and_disable : Text → Text → Text
drop_and_disable table policy_name =
    codes "\n            DROP POLICY IF EXISTS \""
    ++ (policy_name
        ++ (codes "\" ON \""
            ++ (table
                ++ (codes "\";\n            ALTER TABLE \""
                    ++ (table
                        ++ (codes "\" NO FORCE ROW LEVEL SECURITY;\n            ALTER TABLE \""
                            ++ (table ++ codes "\" DISABLE ROW LEVEL SECURITY;\n            ")))))))

-- `_build_policy_drop_sql`
unfoldable pub build_policy_drop_sql : Text → Text
build_policy_drop_sql table = drop_and_disable table (isolation_policy_name table)

abbrev pub max_identifier_bytes : ℕ
max_identifier_bytes = 63

abbrev pub policy_name_common_prefix : Text
policy_name_common_prefix = codes "_tenant_"

-- `_sharing_policy_name_problem`: whether there is one.
unfoldable pub sharing_policy_name_problem : Text → Bool
unfolding encode
sharing_policy_name_problem table =
    if ltb (length (encode (table ++ policy_name_common_prefix))) max_identifier_bytes
    then false
    else true

abbrev pub sharing_policy_name : Text → Text
sharing_policy_name table = table ++ codes "_tenant_sharing_policy"

-- The separator of the sharing predicates.
abbrev pub or_predicate : Text
or_predicate = codes "\n                                OR "

-- The statement of a sharing policy, for a table whose name is short enough.
unfoldable pub sharing_policy_sql : Text → List Text → Text
unfolding do_unless_there
sharing_policy_sql table predicates = do_unless_there table (sharing_policy_name table) (
    codes "                            CREATE POLICY \""
    ++ (sharing_policy_name table
        ++ (codes "\"\n                            ON \""
            ++ (table
                ++ (codes
                      "\"\n                            AS PERMISSIVE\n                            FOR SELECT\n                            USING (\n                                "
                    ++ (join or_predicate predicates
                        ++ codes "\n                            );\n"))))))

-- `_build_sharing_policy_create_sql`
unfoldable pub build_sharing_policy_create_sql : Text → List Text → Outcome Text
build_sharing_policy_create_sql table predicates =
    if sharing_policy_name_problem table
    then raised value_error
    else returned (sharing_policy_sql table predicates)

-- `_build_sharing_policy_drop_sql`
unfoldable pub build_sharing_policy_drop_sql : Text → Text
build_sharing_policy_drop_sql table =
    codes "\n            DROP POLICY IF EXISTS \""
    ++ (sharing_policy_name table ++ (codes "\" ON \"" ++ (table ++ codes "\";\n            ")))

-- `EXISTS (SELECT 1 FROM "table" WHERE id = fk AND tenant_fk_id = value)`
unfoldable pub side_sql : Text → Text → Text → Text → Text
side_sql table fk tenant_fk guc_expr =
    codes "EXISTS (SELECT 1 FROM \""
    ++ (table
        ++ (codes "\" WHERE id = "
            ++ (fk
                ++ (codes " AND " ++ (tenant_fk ++ (codes "_id = " ++ (guc_expr ++ codes ")")))))))

-- The condition of one side, if the side is protected.
unfoldable pub side_conditions : Text → Text → Option Text → Text → List Text
side_conditions table fk none guc_expr = []
side_conditions table fk (some tenant_fk) guc_expr = side_sql table fk tenant_fk guc_expr ∷ []

-- The separator of the two sides.
abbrev pub and_line : Text
and_line = codes "\n                                AND "

-- `_build_m2m_conditions`
unfoldable pub build_m2m_conditions :
    Text → Text → Option Text → Text → Text → Option Text → Text → Text → Text
unfolding side_conditions
build_m2m_conditions from_fk from_table from_tenant_fk to_fk to_table to_tenant_fk guc_tenant_var
      tenant_pk_type =
    let guc_expr = tenant_value_sql guc_tenant_var tenant_pk_type in
    join and_line (
      side_conditions from_table from_fk from_tenant_fk guc_expr
      ++ side_conditions to_table to_fk to_tenant_fk guc_expr)

abbrev pub m2m_policy_name : Text → Text
m2m_policy_name table = table ++ codes "_m2m_rls_policy"

-- `_build_m2m_create_sql`
unfoldable pub build_m2m_create_sql : Text → Text → Text → Text
build_m2m_create_sql table admin_check subquery_clause =
    do_unless_there table (m2m_policy_name table) (
      enable_and_create table (m2m_policy_name table) (
        using_and_check (case_sql admin_check subquery_clause)
          (case_sql admin_check subquery_clause)))

-- `_build_m2m_drop_sql`
unfoldable pub build_m2m_drop_sql : Text → Text
build_m2m_drop_sql table = drop_and_disable table (m2m_policy_name table)
