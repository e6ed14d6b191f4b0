-- ===== src/Policy/Operation/Agrees.antt =====
-- `AddRLSPolicy` (django_rls_tenants/operations.py) beside `RLSConstraint` (rls/constraints.py).
use django_rls_tenants.Base.Core.{◌≡◌, ◌∙◌, refl, false, List, [], ◌∷◌, ◌++◌, if◌then◌else◌}
use django_rls_tenants.Base.Text.{Text, codes}
use django_rls_tenants.Base.Outcome.{Outcome, returned, raised, value_error, ◌>>=◌}
use django_rls_tenants.Policy.Create.{build_policy_create_sql, build_sharing_policy_create_sql}
use django_rls_tenants.Policy.Model.{Model, Apps}
use django_rls_tenants.Policy.Predicates.{Predicate, any_char, is_unsafe_char, predicates_sql}
use django_rls_tenants.Policy.Fragment.{tenant_value_sql}
use django_rls_tenants.Policy.Safe.{PolicyConf}
use django_rls_tenants.Policy.Constraint.{
  RlsConstraint, statement_text, with_sharing, sharing_text, rls_create_sql,
}
use django_rls_tenants.Policy.Operation.{
  AddRlsPolicy, PolicyOptions, policy_table, policy_column, policy_options, add_sharing,
  forwards_sql,
}

-- The constraint with the operation's options.
abbrev pub constraint_of : Text → AddRlsPolicy → PolicyOptions → RlsConstraint
constraint_of name op options = record {
  name = name;
  field = op.field;
  guc_tenant_var = options.guc_tenant_var;
  guc_admin_var = options.guc_admin_var;
  tenant_pk_type = options.tenant_pk_type;
  extra_bypass_flags = op.extra_bypass_flags;
  extra_predicates = op.extra_predicates;
}

add_sharing-statement :
    (apps : Apps) (model : Model) (options : PolicyOptions) (sql : Text)
    (predicates : List Predicate)
    → add_sharing apps model options model.db_table sql predicates
      ≡ statement_text apps (
          with_sharing sql (record {
            model = model;
            predicates = predicates;
            guc_tenant_var = options.guc_tenant_var;
            tenant_pk_type = options.tenant_pk_type;
          }))
unfolding add_sharing statement_text sharing_text
add_sharing-statement apps model options sql [] = refl
add_sharing-statement apps model options sql (p ∷ ps) = of (
    predicates_sql apps model (tenant_value_sql options.guc_tenant_var options.tenant_pk_type)
      (p ∷ ps))
  where
    of :
        (m : Outcome (List Text))
        → (m >>= λ ps.
            build_sharing_policy_create_sql model.db_table ps >>= λ more. returned (sql ++ more))
          ≡ ((m >>= λ ps. build_sharing_policy_create_sql model.db_table ps) >>= λ more.
              returned (sql ++ more))
    of (returned a) = refl
    of (raised e) = refl

-- Where the options of an AddRLSPolicy are valid, the table name is safe and the tenant column is
-- the plain <field>_id, the SQL that the operation executes for a model is, as a result or an
-- exception, the SQL of the statement of an RLSConstraint with the same options.
pub forwards_sql-constraint :
    (apps : Apps) (conf : PolicyConf) (op : AddRlsPolicy) (model : Model) (options : PolicyOptions)
    → (name : Text) → policy_options conf op ≡ returned options
    → any_char is_unsafe_char model.db_table ≡ false
    → policy_column conf op model ≡ returned (op.field ++ codes "_id")
    → forwards_sql apps conf op model
      ≡ statement_text apps (rls_create_sql (constraint_of name op options) model)
unfolding forwards_sql policy_table rls_create_sql
forwards_sql-constraint apps conf op model options name o t c =
    (λ i. o i >>= λ opts. (if t i then raised value_error else returned model.db_table) >>= λ table.
    c i >>= λ column.
    add_sharing apps model opts table
      (build_policy_create_sql table column opts.guc_tenant_var opts.guc_admin_var
        opts.tenant_pk_type op.extra_bypass_flags)
      op.extra_predicates)
    ∙ add_sharing-statement apps model options _ op.extra_predicates
